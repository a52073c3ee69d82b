-- ===== src/Contracts/Market/Bar.antt =====
-- contracts/market.py: a bar of an instrument over a timeframe.
pub mod Valid
use invest_quant_system.Prelude.{String, Bool, not, ◌&&◌, Option, some, List, [], ◌∷◌}
use invest_quant_system.Prelude.Tests.{◌==◌, String_discrete}
use invest_quant_system.Prelude.Int.{ltb_ℤ, max_ℤ, min_ℤ, ℤ_discrete}
use invest_quant_system.Prelude.Decimal.{Decimal}
use invest_quant_system.Prelude.Result.{Result, ◌>>◌}
use invest_quant_system.Contracts.Moment.{Datetime, Datetime_discrete, leb_time, ltb_time}
use invest_quant_system.Contracts.Checks.{
  invalid_if, require_texts, require_all_utc, require_all_non_negative,
}
use invest_quant_system.Contracts.Market.{TradingStatus, TradingStatus_discrete}

pub record MarketBar : Type 0 where
  pub schema_version : String
  pub symbol : String
  pub timeframe : String
  pub bar_start_time : Datetime
  pub bar_end_time : Datetime
  pub market_data_time : Datetime
  pub ingest_time : Datetime
  pub open_price : Decimal
  pub high_price : Decimal
  pub low_price : Decimal
  pub close_price : Decimal
  pub volume : Option Decimal
  pub amount : Option Decimal
  pub turnover : Option Decimal
  pub trading_status : TradingStatus
  pub is_closed : Bool
  pub bar_close_time : Datetime
  pub source : String
  pub data_source_version : String
  pub as_of_version : String
  pub source_revision : Option String

-- `highest_observed` and `lowest_observed`
abbrev highest_observed : MarketBar → Decimal
highest_observed b = max_ℤ (max_ℤ b.open_price b.close_price) b.low_price

abbrev lowest_observed : MarketBar → Decimal
lowest_observed b = min_ℤ (min_ℤ b.open_price b.close_price) b.high_price

-- the checks of the times and of `is_closed`
unfoldable pub check_times : MarketBar → Bool → Result (Unit {0})
check_times b require_closed =
    invalid_if (leb_time b.bar_end_time b.bar_start_time)
      "bar_start_time must be before bar_end_time"
    >> (invalid_if (not (b.market_data_time.instant == b.bar_end_time.instant))
          "market_data_time must equal bar_end_time for MarketBar"
        >> (invalid_if (require_closed && not b.is_closed)
              "only closed MarketBar objects can enter core workflows"
            >> invalid_if (require_closed && ltb_time b.ingest_time b.bar_close_time)
                "closed bar cannot be ingested before bar_close_time"))

-- the checks of the high and the low
unfoldable pub check_range : MarketBar → Result (Unit {0})
check_range b =
    invalid_if (ltb_ℤ b.high_price (highest_observed b)) "high_price must be >= open/close/low"
    >> invalid_if (ltb_ℤ (lowest_observed b) b.low_price) "low_price must be <= open/close/high"

abbrev required_texts : MarketBar → List (String × String)
required_texts b =
    (b.schema_version, "schema_version")
    ∷ (b.symbol, "symbol")
    ∷ (b.timeframe, "timeframe")
    ∷ (b.source, "source")
    ∷ (b.data_source_version, "data_source_version")
    ∷ (b.as_of_version, "as_of_version")
    ∷ []

abbrev required_times : MarketBar → List (Datetime × String)
required_times b =
    (b.bar_start_time, "bar_start_time")
    ∷ (b.bar_end_time, "bar_end_time")
    ∷ (b.market_data_time, "market_data_time")
    ∷ (b.ingest_time, "ingest_time")
    ∷ (b.bar_close_time, "bar_close_time")
    ∷ []

abbrev amounts : MarketBar → List (Option Decimal × String)
amounts b =
    (some b.open_price, "open_price")
    ∷ (some b.high_price, "high_price")
    ∷ (some b.low_price, "low_price")
    ∷ (some b.close_price, "close_price")
    ∷ (b.volume, "volume")
    ∷ (b.amount, "amount")
    ∷ (b.turnover, "turnover")
    ∷ []

unfoldable pub validate : MarketBar → Bool → Result (Unit {0})
validate b require_closed =
    require_texts (required_texts b)
    >> (require_all_utc (required_times b)
        >> (check_times b require_closed
            >> (require_all_non_negative (amounts b) >> check_range b)))

-- the key under which the stores file a bar
abbrev pub VersionKey : Type 0
VersionKey = String × String × Datetime × String × String

abbrev pub version_key : MarketBar → VersionKey
version_key b = (b.symbol, b.timeframe, b.market_data_time, b.data_source_version, b.as_of_version)

unfoldable pub VersionKey_discrete : Discrete VersionKey
unfolding Datetime_discrete String_discrete
VersionKey_discrete = hlevel (Datetime_discrete, String_discrete)

-- what must agree for two bars of one key to be duplicates
pub record Fingerprint : Type 0 where
  pub open_price : Decimal
  pub high_price : Decimal
  pub low_price : Decimal
  pub close_price : Decimal
  pub volume : Option Decimal
  pub amount : Option Decimal
  pub turnover : Option Decimal
  pub trading_status : TradingStatus
  pub is_closed : Bool
  pub source : String
  pub source_revision : Option String

unfoldable pub Fingerprint_discrete : Discrete Fingerprint
unfolding String_discrete ℤ_discrete TradingStatus_discrete
Fingerprint_discrete = hlevel (String_discrete, ℤ_discrete, TradingStatus_discrete)

abbrev pub content_fingerprint : MarketBar → Fingerprint
content_fingerprint b = record {
  open_price = b.open_price;
  high_price = b.high_price;
  low_price = b.low_price;
  close_price = b.close_price;
  volume = b.volume;
  amount = b.amount;
  turnover = b.turnover;
  trading_status = b.trading_status;
  is_closed = b.is_closed;
  source = b.source;
  source_revision = b.source_revision;
}
