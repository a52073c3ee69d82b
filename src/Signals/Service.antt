-- ===== src/Signals/Service.antt =====
-- signals/service.py, and `deterministic_signal_id` of contracts/signals.py: the event of a
-- candidate. The digest of the id and the clock are arguments.
pub mod Events
use invest_quant_system.Prelude.{String, Bool, ite, ◌≡◌, Option, none, some, List}
use invest_quant_system.Prelude.Tests.{if◌then◌else◌}
use invest_quant_system.Prelude.Int.{ℤ}
use invest_quant_system.Prelude.Result.{
  Result, ok, err, market_data_validation, raise_if, ◌>>=◌, ◌>>◌,
}
use invest_quant_system.Contracts.Moment.{Datetime, add_seconds}
use invest_quant_system.Contracts.Signals.{
  SignalCandidate, SignalEvent, Direction, direction_sign, unknown_at_event_time,
  validate_candidate, validate_event,
}
use invest_quant_system.Versions.{VersionRegistry, Identity, is_strategy_frozen}

-- the payload that the id digests: not the time of the event
pub record SignalPayload : Type 0 where
  pub symbol : String
  pub direction : ℤ
  pub market_data_time : Datetime
  pub strategy_name : String
  pub strategy_version : String
  pub feature_version : String
  pub parameter_hash : String
  pub data_source_version : String
  pub as_of_version : String

abbrev pub signal_payload : SignalCandidate → SignalPayload
signal_payload c = record {
  symbol = c.symbol;
  direction = direction_sign c.direction;
  market_data_time = c.market_data_time;
  strategy_name = c.strategy_name;
  strategy_version = c.strategy_version;
  feature_version = c.feature_version;
  parameter_hash = c.parameter_hash;
  data_source_version = c.data_source_version;
  as_of_version = c.as_of_version;
}

pub record SignalService : Type 0 where
  pub schema_version : String
  pub version_registry : Option VersionRegistry

abbrev pub strategy_identity : SignalCandidate → Identity
strategy_identity c = record {
  strategy_name = c.strategy_name;
  strategy_version = c.strategy_version;
  parameter_hash = c.parameter_hash;
  code_version = c.code_version;
}

-- `_verify_strategy_frozen`
unfoldable pub verify_strategy_frozen : Option VersionRegistry → SignalCandidate → Result (Unit {0})
verify_strategy_frozen none c = ok tt
verify_strategy_frozen (some registry) c =
    if is_strategy_frozen registry (strategy_identity c)
    then ok tt
    else err (market_data_validation "strategy identity is not frozen")

module _ (digest : SignalPayload → String) where
  -- `deterministic_signal_id`
  unfoldable pub deterministic_signal_id : SignalCandidate → String
  deterministic_signal_id c = digest (signal_payload c)

  -- the event that `create_event` builds at `now`
  unfoldable pub event_of : SignalService → SignalCandidate → Datetime → SignalEvent
  unfolding deterministic_signal_id
  event_of service c now = record {
    schema_version = service.schema_version;
    signal_id = deterministic_signal_id c;
    symbol = c.symbol;
    direction = c.direction;
    signal_action = c.signal_action;
    exposure_effect = c.exposure_effect;
    event_time = now;
    market_data_time = c.market_data_time;
    ingest_time = now;
    executable_time = add_seconds now 1;
    reference_price = c.reference_price;
    executable_price = none;
    executable_price_source = some "NEXT_AVAILABLE_BAR";
    execution_status = unknown_at_event_time;
    unexecutable_reason = none;
    score = c.score;
    confidence = c.confidence;
    horizon_seconds = c.horizon_seconds;
    reason_codes = c.reason_codes;
    invalid_condition = c.invalid_condition;
    feature_snapshot = c.feature_snapshot;
    market_regime = c.market_regime;
    strategy_name = c.strategy_name;
    strategy_version = c.strategy_version;
    feature_version = c.feature_version;
    code_version = c.code_version;
    parameter_hash = c.parameter_hash;
    data_source_version = c.data_source_version;
    as_of_version = c.as_of_version;
    created_at = now;
  }

  unfoldable pub create_event : SignalService → SignalCandidate → Datetime → Result SignalEvent
  unfolding event_of
  create_event service c now = do
    validate_candidate c
    verify_strategy_frozen service.version_registry c
    validate_event (event_of service c now)
    ok (event_of service c now)
