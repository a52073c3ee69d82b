-- ===== src/MarketData.antt =====
-- Market data (market_data/): the store of bars and its readers.
pub mod Repository
pub mod Replay
