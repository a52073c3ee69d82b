-- ===== src/Contracts.antt =====
-- The data contracts (contracts/): what the components exchange, and its validation.
pub mod Moment
pub mod Checks
pub mod Market
pub mod Features
pub mod Signals
pub mod Evaluation
pub mod Portfolio
