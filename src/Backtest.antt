-- ===== src/Backtest.antt =====
-- Backtests (backtest/): orders, scheduling and the run loop.
pub mod OrderIntent
pub mod RunSpec
pub mod Partition
pub mod Orchestrator
pub mod Scheduler
pub mod Warnings
