-- ===== src/Signals/Sqlite/Snapshots.antt =====
-- signals/sqlite_repository.py: the payloads of feature snapshots and market regimes, and what is read
-- from them.
use invest_quant_system.Prelude.{String, Option, [], ◌∷◌}
use invest_quant_system.Prelude.Dict.{Dict}
use invest_quant_system.Prelude.Result.{Result, ok, err, ◌>>=◌, type_error}
use invest_quant_system.Contracts.Features.{
  FeatureSnapshot, MarketRegime, FeatureValue, float_value, int_value, text_value, missing,
}
use invest_quant_system.Signals.Sqlite.Json.{
  Json, Fields, null, number, integer, text, time_text, array, object, no_fields, field, fields_of,
  option_json, at, as_text, as_number, texts_at, as_object, as_time, as_option,
}

abbrev pub feature_json : FeatureValue → Json
feature_json (float_value x) = number x
feature_json (int_value n) = integer n
feature_json (text_value s) = text s
feature_json missing = null

abbrev pub as_feature : Json → Result FeatureValue
as_feature (number x) = ok (float_value x)
as_feature (integer n) = ok (int_value n)
as_feature (text s) = ok (text_value s)
as_feature null = ok missing
as_feature _ = err (type_error "not the value of a feature")

unfoldable pub features_json : Dict String FeatureValue → Fields
features_json [] = no_fields
features_json ((name, v) ∷ rest) = field name (feature_json v) (features_json rest)

unfoldable pub features_of : Fields → Result (Dict String FeatureValue)
features_of no_fields = ok []
features_of (field name v rest) = do
  value ← as_feature v
  features ← features_of rest
  ok ((name, value) ∷ features)

unfoldable pub inputs_json : Dict String String → Fields
inputs_json [] = no_fields
inputs_json ((name, s) ∷ rest) = field name (text s) (inputs_json rest)

unfoldable pub inputs_of : Fields → Result (Dict String String)
inputs_of no_fields = ok []
inputs_of (field name v rest) = do
  value ← as_text v
  inputs ← inputs_of rest
  ok ((name, value) ∷ inputs)

unfoldable pub as_features : Json → Result (Dict String FeatureValue)
unfolding features_of
as_features v = as_object v >>= features_of

unfoldable pub as_inputs : Json → Result (Dict String String)
unfolding inputs_of
as_inputs v = as_object v >>= inputs_of

unfoldable pub snapshot_json : FeatureSnapshot → Fields
snapshot_json s = fields_of (
    ("schema_version", text s.schema_version)
    ∷ ("feature_snapshot_id", text s.feature_snapshot_id)
    ∷ ("symbol", text s.symbol)
    ∷ ("market_data_time", time_text s.market_data_time)
    ∷ ("generated_at", time_text s.generated_at)
    ∷ ("feature_version", text s.feature_version)
    ∷ ("lookback_window", text s.lookback_window)
    ∷ ("features", object (features_json s.features))
    ∷ ("missing_data_flags", array s.missing_data_flags)
    ∷ ("input_bar_range", text s.input_bar_range)
    ∷ [])

-- `_feature_from_dict`
unfoldable pub feature_from_dict : Fields → Result FeatureSnapshot
unfolding at texts_at as_time as_features
feature_from_dict payload = do
  schema_version ← at payload "schema_version" as_text
  feature_snapshot_id ← at payload "feature_snapshot_id" as_text
  symbol ← at payload "symbol" as_text
  market_data_time ← at payload "market_data_time" as_time
  generated_at ← at payload "generated_at" as_time
  feature_version ← at payload "feature_version" as_text
  lookback_window ← at payload "lookback_window" as_text
  features ← at payload "features" as_features
  missing_data_flags ← texts_at payload "missing_data_flags"
  input_bar_range ← at payload "input_bar_range" as_text
  ok (record {
    schema_version = schema_version;
    feature_snapshot_id = feature_snapshot_id;
    symbol = symbol;
    market_data_time = market_data_time;
    generated_at = generated_at;
    feature_version = feature_version;
    lookback_window = lookback_window;
    features = features;
    missing_data_flags = missing_data_flags;
    input_bar_range = input_bar_range;
  })

unfoldable pub as_snapshot : Json → Result FeatureSnapshot
unfolding feature_from_dict
as_snapshot v = as_object v >>= feature_from_dict

unfoldable pub regime_json : MarketRegime → Fields
regime_json r = fields_of (
    ("schema_version", text r.schema_version)
    ∷ ("symbol", text r.symbol)
    ∷ ("market_data_time", time_text r.market_data_time)
    ∷ ("generated_at", time_text r.generated_at)
    ∷ ("regime_version", text r.regime_version)
    ∷ ("regime_label", text r.regime_label)
    ∷ ("confidence", option_json number r.confidence)
    ∷ ("inputs", object (inputs_json r.inputs))
    ∷ ("as_of_version", text r.as_of_version)
    ∷ ("unavailable_inputs", array r.unavailable_inputs)
    ∷ [])

-- `_regime_from_dict`, of what is not None
unfoldable pub regime_from_dict : Fields → Result MarketRegime
unfolding at texts_at as_time as_option as_inputs
regime_from_dict payload = do
  schema_version ← at payload "schema_version" as_text
  symbol ← at payload "symbol" as_text
  market_data_time ← at payload "market_data_time" as_time
  generated_at ← at payload "generated_at" as_time
  regime_version ← at payload "regime_version" as_text
  regime_label ← at payload "regime_label" as_text
  confidence ← at payload "confidence" (as_option as_number)
  inputs ← at payload "inputs" as_inputs
  as_of_version ← at payload "as_of_version" as_text
  unavailable_inputs ← texts_at payload "unavailable_inputs"
  ok (record {
    schema_version = schema_version;
    symbol = symbol;
    market_data_time = market_data_time;
    generated_at = generated_at;
    regime_version = regime_version;
    regime_label = regime_label;
    confidence = confidence;
    inputs = inputs;
    as_of_version = as_of_version;
    unavailable_inputs = unavailable_inputs;
  })

abbrev pub regime_object : MarketRegime → Json
regime_object r = object (regime_json r)

abbrev pub read_regime : Json → Result MarketRegime
read_regime v = as_object v >>= regime_from_dict

unfoldable pub as_regime : Json → Result (Option MarketRegime)
unfolding as_option regime_from_dict
as_regime = as_option read_regime
