-- ===== src/Signals.antt =====
-- Signals (signals/): their creation and their store.
pub mod Repository
pub mod Sqlite
pub mod Service
