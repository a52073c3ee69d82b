-- ===== src/Signals/Sqlite.antt =====
-- The SQLite store of signals, tasks and evaluations (signals/sqlite_repository.py).
pub mod Json
pub mod Enums
pub mod Snapshots
pub mod Events
pub mod Evaluations
pub mod RoundTrip
pub mod Tables
pub mod Store
pub mod Queries
pub mod Refines
pub mod Tasks
pub mod Filed
pub mod Rows
pub mod Due
pub mod Calls
