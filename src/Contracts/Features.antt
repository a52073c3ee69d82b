-- ===== src/Contracts/Features.antt =====
-- contracts/features.py: feature snapshots and market regimes, and when they may be used. A float
-- feature is read as a `Decimal`.
use invest_quant_system.Prelude.{String, ◌||◌, Option, List}
use invest_quant_system.Prelude.Dict.{Dict}
use invest_quant_system.Prelude.Tests.{String_discrete}
use invest_quant_system.Prelude.Int.{ℤ, ℤ_discrete}
use invest_quant_system.Prelude.Decimal.{Decimal}
use invest_quant_system.Prelude.Text.{is_empty}
use invest_quant_system.Prelude.Result.{Result, ◌>>◌}
use invest_quant_system.Contracts.Moment.{Datetime, Datetime_discrete, ltb_time, require_aware_utc}
use invest_quant_system.Contracts.Checks.{invalid_if}

pub data FeatureValue : Type 0 where
  float_value : Decimal → FeatureValue
  int_value : ℤ → FeatureValue
  text_value : String → FeatureValue
  missing : FeatureValue

pub record FeatureSnapshot : Type 0 where
  pub schema_version : String
  pub feature_snapshot_id : String
  pub symbol : String
  pub market_data_time : Datetime
  pub generated_at : Datetime
  pub feature_version : String
  pub lookback_window : String
  pub features : Dict String FeatureValue
  pub missing_data_flags : List String
  pub input_bar_range : String

unfoldable pub FeatureValue_discrete : Discrete FeatureValue
unfolding ℤ_discrete String_discrete
FeatureValue_discrete = hlevel (ℤ_discrete, String_discrete)

unfoldable pub FeatureSnapshot_discrete : Discrete FeatureSnapshot
unfolding FeatureValue_discrete String_discrete Datetime_discrete
FeatureSnapshot_discrete = hlevel (FeatureValue_discrete, String_discrete, Datetime_discrete)

-- `FeatureSnapshot.validate_visible_at`
unfoldable pub snapshot_visible_at : FeatureSnapshot → Datetime → Result (Unit {0})
snapshot_visible_at s event_time =
    require_aware_utc s.market_data_time "market_data_time"
    >> (require_aware_utc s.generated_at "generated_at"
        >> (require_aware_utc event_time "event_time"
            >> (invalid_if
                  (is_empty s.schema_version
                    || is_empty s.feature_snapshot_id
                    || is_empty s.feature_version)
                  "feature identity and version fields are required"
                >> (invalid_if (ltb_time event_time s.generated_at)
                      "feature snapshot cannot be generated after event_time"
                    >> invalid_if (ltb_time event_time s.market_data_time)
                        "feature snapshot cannot use future market data"))))

pub record MarketRegime : Type 0 where
  pub schema_version : String
  pub symbol : String
  pub market_data_time : Datetime
  pub generated_at : Datetime
  pub regime_version : String
  pub regime_label : String
  pub confidence : Option Decimal
  pub inputs : Dict String String
  pub as_of_version : String
  pub unavailable_inputs : List String

unfoldable pub MarketRegime_discrete : Discrete MarketRegime
unfolding ℤ_discrete String_discrete Datetime_discrete
MarketRegime_discrete = hlevel (ℤ_discrete, String_discrete, Datetime_discrete)

-- `MarketRegime.validate_visible_at`
unfoldable pub regime_visible_at : MarketRegime → Datetime → Result (Unit {0})
regime_visible_at r event_time =
    require_aware_utc r.market_data_time "market_data_time"
    >> (require_aware_utc r.generated_at "generated_at"
        >> (require_aware_utc event_time "event_time"
            >> (invalid_if
                  (is_empty r.schema_version
                    || is_empty r.regime_version
                    || is_empty r.as_of_version)
                  "regime version fields are required"
                >> invalid_if
                    (ltb_time event_time r.generated_at || ltb_time event_time r.market_data_time)
                    "market regime cannot use future data")))
