-- ===== src/Contracts/Market.antt =====
-- contracts/market.py: the trading status of an instrument. Ticks and bars are the child modules.
pub mod Tick
pub mod Bar

pub data TradingStatus : Type 0 where
  trading halted limit_up limit_down closed unknown : TradingStatus

unfoldable pub TradingStatus_discrete : Discrete TradingStatus
TradingStatus_discrete = hlevel
