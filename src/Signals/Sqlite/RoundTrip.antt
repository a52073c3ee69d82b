-- ===== src/Signals/Sqlite/RoundTrip.antt =====
-- What a payload was written from is what is read from it.
use invest_quant_system.Prelude.{String, ◌≡◌, refl, Option, none, some, [], ◌∷◌}
use invest_quant_system.Prelude.Tests.{String_discrete}
use invest_quant_system.Prelude.Dict.{Dict}
use invest_quant_system.Prelude.Result.{ok}
use invest_quant_system.Contracts.Features.{
  FeatureSnapshot, MarketRegime, FeatureValue, float_value, int_value, text_value, missing,
}
use invest_quant_system.Contracts.Signals.{SignalEvent}
use invest_quant_system.Contracts.Evaluation.{EvaluationTask, SignalEvaluation}
use invest_quant_system.Signals.Sqlite.Json.{
  lookup, texts_at, option_json, at, as_time, as_decimal, as_option, as_option-text,
  as_option-integer, as_option-number, as_option-time_text, as_option-decimal_text,
}
use invest_quant_system.Signals.Sqlite.Enums.{
  as_direction-sign, as_action-value, as_effect-value, as_execution-value, as_status-value,
  as_conflict-value, as_granularity-value,
}
use invest_quant_system.Signals.Sqlite.Snapshots.{
  features_json, features_of, inputs_json, inputs_of, as_features, as_inputs, snapshot_json,
  feature_from_dict, as_snapshot, regime_json, regime_from_dict, regime_object, as_regime,
}
use invest_quant_system.Signals.Sqlite.Events.{event_json, signal_event_from_json}
use invest_quant_system.Signals.Sqlite.Evaluations.{
  task_json, task_from_json, as_attempts, evaluation_json, evaluation_from_json,
}

features_of-features_json : (d : Dict String FeatureValue) → features_of (features_json d) ≡ ok d
unfolding features_of features_json
features_of-features_json [] = refl
features_of-features_json ((name, float_value x) ∷ d) = rw (features_of-features_json d) refl
features_of-features_json ((name, int_value n) ∷ d) = rw (features_of-features_json d) refl
features_of-features_json ((name, text_value s) ∷ d) = rw (features_of-features_json d) refl
features_of-features_json ((name, missing) ∷ d) = rw (features_of-features_json d) refl

inputs_of-inputs_json : (d : Dict String String) → inputs_of (inputs_json d) ≡ ok d
unfolding inputs_of inputs_json
inputs_of-inputs_json [] = refl
inputs_of-inputs_json ((name, s) ∷ d) = rw (inputs_of-inputs_json d) refl

pub feature_from_dict-snapshot_json :
    (s : FeatureSnapshot) → feature_from_dict (snapshot_json s) ≡ ok s
unfolding feature_from_dict snapshot_json at texts_at lookup as_time as_features String_discrete
feature_from_dict-snapshot_json s = rw (features_of-features_json s.features) refl

pub regime_from_dict-regime_json : (r : MarketRegime) → regime_from_dict (regime_json r) ≡ ok r
unfolding regime_from_dict regime_json at texts_at lookup as_time as_inputs String_discrete
regime_from_dict-regime_json r =
    rw (as_option-number r.confidence) (rw (inputs_of-inputs_json r.inputs) refl)

as_regime-option_json : (o : Option MarketRegime) → as_regime (option_json regime_object o) ≡ ok o
unfolding as_regime as_option
as_regime-option_json none = refl
as_regime-option_json (some r) = rw (regime_from_dict-regime_json r) refl

pub signal_event_from_json-event_json :
    (e : SignalEvent) → signal_event_from_json (event_json e) ≡ ok e
unfolding signal_event_from_json event_json at texts_at lookup as_time as_decimal as_snapshot
    String_discrete
signal_event_from_json-event_json e = rw (as_direction-sign e.direction) (
    rw (as_action-value e.signal_action) (
      rw (as_effect-value e.exposure_effect) (
        rw (as_option-decimal_text e.executable_price) (
          rw (as_option-text e.executable_price_source) (
            rw (as_execution-value e.execution_status) (
              rw (as_option-text e.unexecutable_reason) (
                rw (as_option-text e.invalid_condition) (
                  rw (feature_from_dict-snapshot_json e.feature_snapshot)
                    (rw (as_regime-option_json e.market_regime) refl)))))))))

pub task_from_json-task_json : (t : EvaluationTask) → task_from_json (task_json t) ≡ ok t
unfolding task_from_json task_json at texts_at lookup as_time as_attempts String_discrete
task_from_json-task_json t = rw (as_status-value t.status) (
    rw (as_option-time_text t.claimed_at) (
      rw (as_option-time_text t.lease_expires_at) (
        rw (as_option-text t.worker_id)
          (rw (as_option-time_text t.next_retry_at) (rw (as_option-text t.last_error) refl)))))

pub evaluation_from_json-evaluation_json :
    (e : SignalEvaluation) → evaluation_from_json (evaluation_json e) ≡ ok e
unfolding evaluation_from_json evaluation_json at texts_at lookup as_time as_decimal String_discrete
evaluation_from_json-evaluation_json e = rw (as_option-decimal_text e.executable_price) (
    rw (as_option-text e.executable_price_source) (
      rw (as_execution-value e.execution_status) (
        rw (as_option-text e.unexecutable_reason) (
          rw (as_option-decimal_text e.evaluation_price) (
            rw (as_option-decimal_text e.raw_return) (
              rw (as_option-decimal_text e.direction_return) (
                rw (as_option-decimal_text e.net_return) (
                  rw (as_option-decimal_text e.mfe) (
                    rw (as_option-decimal_text e.mae) (
                      rw (as_option-integer e.time_to_mfe_seconds) (
                        rw (as_option-integer e.time_to_mae_seconds) (
                          rw (as_option-integer e.triple_barrier_label) (
                            rw (as_granularity-value e.path_granularity) (
                              rw (as_conflict-value e.barrier_conflict_policy)
                                (rw (as_status-value e.status) refl)))))))))))))))

-- Every signal event, every task and every evaluation is what is read back from its payload.
pub payloads_read_back :
    (e : SignalEvent) (t : EvaluationTask) (v : SignalEvaluation)
    → (signal_event_from_json (event_json e) ≡ ok e)
      × (task_from_json (task_json t) ≡ ok t)
      × (evaluation_from_json (evaluation_json v) ≡ ok v)
payloads_read_back e t v = (
  signal_event_from_json-event_json e,
  task_from_json-task_json t,
  evaluation_from_json-evaluation_json v,
)
