-- ===== src/Contracts/Signals.antt =====
-- contracts/signals.py: what a strategy proposes and what the system records.
pub mod Valid
use invest_quant_system.Prelude.{String, Bool, true, false, ◌&&◌, Option, none, some, List, [], ◌∷◌}
use invest_quant_system.Prelude.Tests.{String_discrete}
use invest_quant_system.Prelude.Int.{ℤ, pos, negsuc, leb_ℤ, ℤ_discrete}
use invest_quant_system.Prelude.Decimal.{Decimal}
use invest_quant_system.Prelude.Result.{Result, ok, ◌>>◌}
use invest_quant_system.Contracts.Moment.{
  Datetime, Datetime_discrete, leb_time, ltb_time, require_aware_utc,
}
use invest_quant_system.Contracts.Checks.{invalid_if, require_all_utc}
use invest_quant_system.Contracts.Features.{
  FeatureSnapshot, MarketRegime, FeatureSnapshot_discrete, MarketRegime_discrete,
  snapshot_visible_at, regime_visible_at,
}

pub data Direction : Type 0 where
  sell hold buy : Direction

-- `int(direction)`
abbrev pub direction_sign : Direction → ℤ
direction_sign sell = negsuc 0
direction_sign hold = pos 0
direction_sign buy = pos 1

pub data SignalAction : Type 0 where
  buy reduce_long clear_long risk_avoid hold : SignalAction

pub data ExposureEffect : Type 0 where
  increase_long decrease_long flat no_action : ExposureEffect

pub data ExecutionStatus : Type 0 where
  executable unexecutable unknown_at_event_time : ExecutionStatus

abbrev pub is_sell : Direction → Bool
is_sell Direction.sell = true
is_sell Direction.hold = false
is_sell Direction.buy = false

abbrev pub is_buy : Direction → Bool
is_buy Direction.sell = false
is_buy Direction.hold = false
is_buy Direction.buy = true

abbrev pub is_buy_action : SignalAction → Bool
is_buy_action SignalAction.buy = true
is_buy_action _ = false

abbrev pub is_increase : ExposureEffect → Bool
is_increase increase_long = true
is_increase _ = false

pub record SignalCandidate : Type 0 where
  pub symbol : String
  pub direction : Direction
  pub signal_action : SignalAction
  pub exposure_effect : ExposureEffect
  pub market_data_time : Datetime
  pub reference_price : Decimal
  pub score : Decimal
  pub confidence : Decimal
  pub horizon_seconds : ℤ
  pub reason_codes : List String
  pub invalid_condition : Option String
  pub feature_snapshot : FeatureSnapshot
  pub market_regime : Option MarketRegime
  pub strategy_name : String
  pub strategy_version : String
  pub feature_version : String
  pub code_version : String
  pub parameter_hash : String
  pub data_source_version : String
  pub as_of_version : String

-- `SignalCandidate.validate`
unfoldable pub validate_candidate : SignalCandidate → Result (Unit {0})
validate_candidate c =
    require_aware_utc c.market_data_time "market_data_time"
    >> (invalid_if (leb_ℤ c.reference_price (pos 0)) "reference_price must be positive"
        >> (invalid_if (leb_ℤ c.horizon_seconds (pos 0)) "horizon_seconds must be positive"
            >> (invalid_if (is_sell c.direction && is_buy_action c.signal_action)
                  "A-share Sell signal cannot map to BUY action"
                >> invalid_if (is_sell c.direction && is_increase c.exposure_effect)
                    "A-share Sell signal cannot increase long exposure")))

pub record SignalEvent : Type 0 where
  pub schema_version : String
  pub signal_id : String
  pub symbol : String
  pub direction : Direction
  pub signal_action : SignalAction
  pub exposure_effect : ExposureEffect
  pub event_time : Datetime
  pub market_data_time : Datetime
  pub ingest_time : Datetime
  pub executable_time : Datetime
  pub reference_price : Decimal
  pub executable_price : Option Decimal
  pub executable_price_source : Option String
  pub execution_status : ExecutionStatus
  pub unexecutable_reason : Option String
  pub score : Decimal
  pub confidence : Decimal
  pub horizon_seconds : ℤ
  pub reason_codes : List String
  pub invalid_condition : Option String
  pub feature_snapshot : FeatureSnapshot
  pub market_regime : Option MarketRegime
  pub strategy_name : String
  pub strategy_version : String
  pub feature_version : String
  pub code_version : String
  pub parameter_hash : String
  pub data_source_version : String
  pub as_of_version : String
  pub created_at : Datetime

Direction_discrete : Discrete Direction
Direction_discrete = hlevel

SignalAction_discrete : Discrete SignalAction
SignalAction_discrete = hlevel

ExposureEffect_discrete : Discrete ExposureEffect
ExposureEffect_discrete = hlevel

unfoldable pub ExecutionStatus_discrete : Discrete ExecutionStatus
ExecutionStatus_discrete = hlevel

-- `existing == event`, the dataclass's equality; two dicts of features are compared by their entries
-- in order, where Python's are equal in any order
unfoldable pub SignalEvent_discrete : Discrete SignalEvent
unfolding Direction_discrete SignalAction_discrete ExposureEffect_discrete ExecutionStatus_discrete
    ℤ_discrete String_discrete Datetime_discrete FeatureSnapshot_discrete MarketRegime_discrete
SignalEvent_discrete = hlevel (
  Direction_discrete, SignalAction_discrete, ExposureEffect_discrete, ExecutionStatus_discrete,
  ℤ_discrete, String_discrete, Datetime_discrete, FeatureSnapshot_discrete, MarketRegime_discrete,
)

-- the dataclass's equality of candidates
unfoldable pub SignalCandidate_discrete : Discrete SignalCandidate
unfolding Direction_discrete SignalAction_discrete ExposureEffect_discrete ℤ_discrete
    String_discrete Datetime_discrete FeatureSnapshot_discrete MarketRegime_discrete
SignalCandidate_discrete = hlevel (
  Direction_discrete, SignalAction_discrete, ExposureEffect_discrete, ℤ_discrete, String_discrete,
  Datetime_discrete, FeatureSnapshot_discrete, MarketRegime_discrete,
)

abbrev event_times : SignalEvent → List (Datetime × String)
event_times s =
    (s.event_time, "event_time")
    ∷ (s.market_data_time, "market_data_time")
    ∷ (s.ingest_time, "ingest_time")
    ∷ (s.executable_time, "executable_time")
    ∷ (s.created_at, "created_at")
    ∷ []

-- `price is not None and price <= 0`
abbrev is_bad_price : Option Decimal → Bool
is_bad_price none = false
is_bad_price (some price) = leb_ℤ price (pos 0)

-- the checks of the fields of the event itself, behind those of the times' zones
unfoldable pub check_event : SignalEvent → Result (Unit {0})
check_event s =
    invalid_if (ltb_time s.event_time s.market_data_time)
      "event_time cannot be before market_data_time"
    >> (invalid_if (leb_time s.executable_time s.event_time)
          "executable_time must be after event_time"
        >> (invalid_if (leb_ℤ s.reference_price (pos 0)) "reference_price must be positive"
            >> (invalid_if (is_bad_price s.executable_price) "executable_price must be positive"
                >> invalid_if (is_sell s.direction && is_increase s.exposure_effect)
                    "A-share Sell signal cannot increase long exposure")))

-- `if self.market_regime is not None: …`
unfoldable pub check_regime : Option MarketRegime → Datetime → Result (Unit {0})
check_regime none event_time = ok tt
check_regime (some regime) event_time = regime_visible_at regime event_time

-- `SignalEvent.validate`
unfoldable pub validate_event : SignalEvent → Result (Unit {0})
validate_event s =
    require_all_utc (event_times s)
    >> (check_event s
        >> (snapshot_visible_at s.feature_snapshot s.event_time
            >> check_regime s.market_regime s.event_time))
