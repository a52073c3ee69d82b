-- ===== src/Contracts/Market/Tick.antt =====
-- contracts/market.py: one trade or quote of an instrument.
use invest_quant_system.Prelude.{String, Option, none, some, [], ◌∷◌}
use invest_quant_system.Prelude.Text.{is_empty}
use invest_quant_system.Prelude.Tests.{if◌then◌else◌}
use invest_quant_system.Prelude.Decimal.{Decimal}
use invest_quant_system.Prelude.Result.{Result, ◌>>◌}
use invest_quant_system.Contracts.Moment.{Datetime}
use invest_quant_system.Contracts.Checks.{require_texts, require_all_utc, require_all_non_negative}
use invest_quant_system.Contracts.Market.{TradingStatus}

pub record MarketTick : Type 0 where
  pub schema_version : String
  pub symbol : String
  pub market_data_time : Datetime
  pub ingest_time : Datetime
  pub source : String
  pub source_sequence : Option String
  pub last_price : Option Decimal
  pub bid_price : Option Decimal
  pub ask_price : Option Decimal
  pub bid_size : Option Decimal
  pub ask_size : Option Decimal
  pub trade_price : Option Decimal
  pub trade_volume : Option Decimal
  pub trading_status : TradingStatus
  pub data_source_version : String
  pub source_revision : Option String

unfoldable pub validate : MarketTick → Result (Unit {0})
validate t =
    require_texts (
      (t.schema_version, "schema_version")
      ∷ (t.symbol, "symbol")
      ∷ (t.source, "source")
      ∷ (t.data_source_version, "data_source_version")
      ∷ [])
    >> (require_all_utc
          ((t.market_data_time, "market_data_time") ∷ (t.ingest_time, "ingest_time") ∷ [])
        >> require_all_non_negative (
            (t.last_price, "last_price")
            ∷ (t.bid_price, "bid_price")
            ∷ (t.ask_price, "ask_price")
            ∷ (t.bid_size, "bid_size")
            ∷ (t.ask_size, "ask_size")
            ∷ (t.trade_price, "trade_price")
            ∷ (t.trade_volume, "trade_volume")
            ∷ []))

-- The two shapes of the identity of a tick: by the provider's sequence, or by what was traded.
pub data TickKey : Type 0 where
  by_sequence : String → String → Datetime → String → String → TickKey
  by_trade : String → String → Datetime → Option Decimal → Option Decimal → String → TickKey

key_by_trade : MarketTick → TickKey
key_by_trade t =
    by_trade t.source t.symbol t.market_data_time t.last_price t.trade_volume t.data_source_version

-- An empty sequence is as good as none.
key_of : MarketTick → Option String → TickKey
unfolding key_by_trade
key_of t none = key_by_trade t
key_of t (some sequence) =
    if is_empty sequence
    then key_by_trade t
    else by_sequence t.source t.symbol t.market_data_time sequence t.data_source_version

unfoldable pub identity_key : MarketTick → TickKey
unfolding key_of
identity_key t = key_of t t.source_sequence
