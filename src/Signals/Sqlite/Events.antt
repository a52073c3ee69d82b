-- ===== src/Signals/Sqlite/Events.antt =====
-- signals/sqlite_repository.py: the payload of a signal event, and the event of a payload.
use invest_quant_system.Prelude.{[], ◌∷◌}
use invest_quant_system.Prelude.Result.{Result, ok, ◌>>=◌}
use invest_quant_system.Contracts.Signals.{SignalEvent, direction_sign}
use invest_quant_system.Signals.Sqlite.Json.{
  Fields, integer, text, time_text, decimal_text, array, object, fields_of, option_json, at,
  as_text, as_integer, texts_at, as_time, as_decimal, as_option,
}
use invest_quant_system.Signals.Sqlite.Enums.{
  as_direction, action_value, as_action, effect_value, as_effect, execution_value, as_execution,
}
use invest_quant_system.Signals.Sqlite.Snapshots.{
  snapshot_json, as_snapshot, regime_object, as_regime,
}

unfoldable pub event_json : SignalEvent → Fields
event_json e = fields_of (
    ("schema_version", text e.schema_version)
    ∷ ("signal_id", text e.signal_id)
    ∷ ("symbol", text e.symbol)
    ∷ ("direction", integer (direction_sign e.direction))
    ∷ ("signal_action", text (action_value e.signal_action))
    ∷ ("exposure_effect", text (effect_value e.exposure_effect))
    ∷ ("event_time", time_text e.event_time)
    ∷ ("market_data_time", time_text e.market_data_time)
    ∷ ("ingest_time", time_text e.ingest_time)
    ∷ ("executable_time", time_text e.executable_time)
    ∷ ("reference_price", decimal_text e.reference_price)
    ∷ ("executable_price", option_json decimal_text e.executable_price)
    ∷ ("executable_price_source", option_json text e.executable_price_source)
    ∷ ("execution_status", text (execution_value e.execution_status))
    ∷ ("unexecutable_reason", option_json text e.unexecutable_reason)
    ∷ ("score", decimal_text e.score)
    ∷ ("confidence", decimal_text e.confidence)
    ∷ ("horizon_seconds", integer e.horizon_seconds)
    ∷ ("reason_codes", array e.reason_codes)
    ∷ ("invalid_condition", option_json text e.invalid_condition)
    ∷ ("feature_snapshot", object (snapshot_json e.feature_snapshot))
    ∷ ("market_regime", option_json regime_object e.market_regime)
    ∷ ("strategy_name", text e.strategy_name)
    ∷ ("strategy_version", text e.strategy_version)
    ∷ ("feature_version", text e.feature_version)
    ∷ ("code_version", text e.code_version)
    ∷ ("parameter_hash", text e.parameter_hash)
    ∷ ("data_source_version", text e.data_source_version)
    ∷ ("as_of_version", text e.as_of_version)
    ∷ ("created_at", time_text e.created_at)
    ∷ [])

-- `signal_event_from_json`
unfoldable pub signal_event_from_json : Fields → Result SignalEvent
unfolding at texts_at as_time as_decimal as_option as_direction as_action as_effect as_execution
    as_snapshot as_regime
signal_event_from_json payload = do
  schema_version ← at payload "schema_version" as_text
  signal_id ← at payload "signal_id" as_text
  symbol ← at payload "symbol" as_text
  direction ← at payload "direction" as_direction
  signal_action ← at payload "signal_action" as_action
  exposure_effect ← at payload "exposure_effect" as_effect
  event_time ← at payload "event_time" as_time
  market_data_time ← at payload "market_data_time" as_time
  ingest_time ← at payload "ingest_time" as_time
  executable_time ← at payload "executable_time" as_time
  reference_price ← at payload "reference_price" as_decimal
  executable_price ← at payload "executable_price" (as_option as_decimal)
  executable_price_source ← at payload "executable_price_source" (as_option as_text)
  execution_status ← at payload "execution_status" as_execution
  unexecutable_reason ← at payload "unexecutable_reason" (as_option as_text)
  score ← at payload "score" as_decimal
  confidence ← at payload "confidence" as_decimal
  horizon_seconds ← at payload "horizon_seconds" as_integer
  reason_codes ← texts_at payload "reason_codes"
  invalid_condition ← at payload "invalid_condition" (as_option as_text)
  feature_snapshot ← at payload "feature_snapshot" as_snapshot
  market_regime ← at payload "market_regime" as_regime
  strategy_name ← at payload "strategy_name" as_text
  strategy_version ← at payload "strategy_version" as_text
  feature_version ← at payload "feature_version" as_text
  code_version ← at payload "code_version" as_text
  parameter_hash ← at payload "parameter_hash" as_text
  data_source_version ← at payload "data_source_version" as_text
  as_of_version ← at payload "as_of_version" as_text
  created_at ← at payload "created_at" as_time
  ok (record {
    schema_version = schema_version;
    signal_id = signal_id;
    symbol = symbol;
    direction = direction;
    signal_action = signal_action;
    exposure_effect = exposure_effect;
    event_time = event_time;
    market_data_time = market_data_time;
    ingest_time = ingest_time;
    executable_time = executable_time;
    reference_price = reference_price;
    executable_price = executable_price;
    executable_price_source = executable_price_source;
    execution_status = execution_status;
    unexecutable_reason = unexecutable_reason;
    score = score;
    confidence = confidence;
    horizon_seconds = horizon_seconds;
    reason_codes = reason_codes;
    invalid_condition = invalid_condition;
    feature_snapshot = feature_snapshot;
    market_regime = market_regime;
    strategy_name = strategy_name;
    strategy_version = strategy_version;
    feature_version = feature_version;
    code_version = code_version;
    parameter_hash = parameter_hash;
    data_source_version = data_source_version;
    as_of_version = as_of_version;
    created_at = created_at;
  })
