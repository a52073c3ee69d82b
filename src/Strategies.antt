-- ===== src/Strategies.antt =====
-- strategies: the rule strategy, and the composition of what several strategies propose for one bar.
pub mod Composer
pub mod Rules
