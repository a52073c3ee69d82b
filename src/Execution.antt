-- ===== src/Execution.antt =====
-- Execution (execution/): the rules that an order must satisfy.
pub mod Rules
