-- ===== src/Tests.antt =====
-- Concrete bars, fills, signals and tasks, and the theorems applied to them.
pub mod Data
pub mod Portfolio
pub mod Execution
pub mod Clock
pub mod Market
pub mod Signals
pub mod Sqlite
pub mod Service
pub mod Paths
pub mod Evaluation
pub mod Paper
pub mod Run
pub mod Universe
pub mod Composer
pub mod Orchestrator
pub mod Strategy
pub mod Calendar
