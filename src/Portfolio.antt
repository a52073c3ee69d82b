-- ===== src/Portfolio.antt =====
-- The portfolio (portfolio/): cash, positions, settlement and the ledgers over them.
pub mod Cash
pub mod Position
pub mod Settlement
pub mod Ledger
pub mod Paper
