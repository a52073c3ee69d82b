-- ===== src/Signals/Sqlite/Enums.antt =====
-- The values of the enums of contracts/signals.py and contracts/evaluation.py, which a payload holds
-- and from which signals/sqlite_repository.py takes the members.
use invest_quant_system.Prelude.{zero, suc, String, ◌≡◌, refl, [], ◌∷◌}
use invest_quant_system.Prelude.Tests.{String_discrete}
use invest_quant_system.Prelude.Int.{pos, negsuc}
use invest_quant_system.Prelude.Dict
use invest_quant_system.Prelude.Dict.{Dict}
use invest_quant_system.Prelude.Result.{Result, ok, err, value_error}
use invest_quant_system.Contracts.Signals.{
  Direction, direction_sign, SignalAction, ExposureEffect, ExecutionStatus, increase_long,
  decrease_long, flat, no_action, executable, unexecutable, unknown_at_event_time,
}
use invest_quant_system.Contracts.Evaluation.{
  EvaluationTaskStatus, BarrierConflictPolicy, PathGranularity, pending, running, completed,
  postponed, failed, censored, conservative, ambiguous, require_tick, tick, bar_ohlc, bar_close,
}
use invest_quant_system.Signals.Sqlite.Json.{Json, integer, text, member}

-- `Direction(…)`
unfoldable pub as_direction : Json → Result Direction
as_direction (integer (negsuc zero)) = ok Direction.sell
as_direction (integer (pos zero)) = ok Direction.hold
as_direction (integer (pos (suc zero))) = ok Direction.buy
as_direction _ = err (value_error "not a valid Direction")

abbrev pub action_value : SignalAction → String
action_value SignalAction.buy = "BUY"
action_value SignalAction.reduce_long = "REDUCE_LONG"
action_value SignalAction.clear_long = "CLEAR_LONG"
action_value SignalAction.risk_avoid = "RISK_AVOID"
action_value SignalAction.hold = "HOLD"

unfoldable pub as_action : Json → Result SignalAction
as_action = member (
    ("BUY", SignalAction.buy)
    ∷ ("REDUCE_LONG", SignalAction.reduce_long)
    ∷ ("CLEAR_LONG", SignalAction.clear_long)
    ∷ ("RISK_AVOID", SignalAction.risk_avoid)
    ∷ ("HOLD", SignalAction.hold)
    ∷ [])

abbrev pub effect_value : ExposureEffect → String
effect_value increase_long = "INCREASE_LONG"
effect_value decrease_long = "DECREASE_LONG"
effect_value flat = "FLAT"
effect_value no_action = "NO_ACTION"

unfoldable pub as_effect : Json → Result ExposureEffect
as_effect = member (
    ("INCREASE_LONG", increase_long)
    ∷ ("DECREASE_LONG", decrease_long)
    ∷ ("FLAT", flat)
    ∷ ("NO_ACTION", no_action)
    ∷ [])

abbrev pub execution_value : ExecutionStatus → String
execution_value executable = "EXECUTABLE"
execution_value unexecutable = "UNEXECUTABLE"
execution_value unknown_at_event_time = "UNKNOWN_AT_EVENT_TIME"

unfoldable pub as_execution : Json → Result ExecutionStatus
as_execution = member (
    ("EXECUTABLE", executable)
    ∷ ("UNEXECUTABLE", unexecutable)
    ∷ ("UNKNOWN_AT_EVENT_TIME", unknown_at_event_time)
    ∷ [])

abbrev pub status_value : EvaluationTaskStatus → String
status_value pending = "PENDING"
status_value running = "RUNNING"
status_value completed = "COMPLETED"
status_value postponed = "POSTPONED"
status_value failed = "FAILED"
status_value censored = "CENSORED"

unfoldable pub as_status : Json → Result EvaluationTaskStatus
as_status = member (
    ("PENDING", pending)
    ∷ ("RUNNING", running)
    ∷ ("COMPLETED", completed)
    ∷ ("POSTPONED", postponed)
    ∷ ("FAILED", failed)
    ∷ ("CENSORED", censored)
    ∷ [])

abbrev pub conflict_value : BarrierConflictPolicy → String
conflict_value conservative = "CONSERVATIVE"
conflict_value ambiguous = "AMBIGUOUS"
conflict_value require_tick = "REQUIRE_TICK"

unfoldable pub as_conflict : Json → Result BarrierConflictPolicy
as_conflict = member (
    ("CONSERVATIVE", conservative) ∷ ("AMBIGUOUS", ambiguous) ∷ ("REQUIRE_TICK", require_tick) ∷ [])

abbrev pub granularity_value : PathGranularity → String
granularity_value tick = "TICK"
granularity_value bar_ohlc = "BAR_OHLC"
granularity_value bar_close = "BAR_CLOSE"

unfoldable pub as_granularity : Json → Result PathGranularity
as_granularity = member (("TICK", tick) ∷ ("BAR_OHLC", bar_ohlc) ∷ ("BAR_CLOSE", bar_close) ∷ [])

pub as_direction-sign : (d : Direction) → as_direction (integer (direction_sign d)) ≡ ok d
unfolding as_direction
as_direction-sign Direction.sell = refl
as_direction-sign Direction.hold = refl
as_direction-sign Direction.buy = refl

pub as_action-value : (a : SignalAction) → as_action (text (action_value a)) ≡ ok a
unfolding as_action Dict.get String_discrete
as_action-value SignalAction.buy = refl
as_action-value SignalAction.reduce_long = refl
as_action-value SignalAction.clear_long = refl
as_action-value SignalAction.risk_avoid = refl
as_action-value SignalAction.hold = refl

pub as_effect-value : (e : ExposureEffect) → as_effect (text (effect_value e)) ≡ ok e
unfolding as_effect Dict.get String_discrete
as_effect-value increase_long = refl
as_effect-value decrease_long = refl
as_effect-value flat = refl
as_effect-value no_action = refl

pub as_execution-value : (s : ExecutionStatus) → as_execution (text (execution_value s)) ≡ ok s
unfolding as_execution Dict.get String_discrete
as_execution-value executable = refl
as_execution-value unexecutable = refl
as_execution-value unknown_at_event_time = refl

pub as_status-value : (s : EvaluationTaskStatus) → as_status (text (status_value s)) ≡ ok s
unfolding as_status Dict.get String_discrete
as_status-value pending = refl
as_status-value running = refl
as_status-value completed = refl
as_status-value postponed = refl
as_status-value failed = refl
as_status-value censored = refl

pub as_conflict-value : (p : BarrierConflictPolicy) → as_conflict (text (conflict_value p)) ≡ ok p
unfolding as_conflict Dict.get String_discrete
as_conflict-value conservative = refl
as_conflict-value ambiguous = refl
as_conflict-value require_tick = refl

pub as_granularity-value :
    (g : PathGranularity) → as_granularity (text (granularity_value g)) ≡ ok g
unfolding as_granularity Dict.get String_discrete
as_granularity-value tick = refl
as_granularity-value bar_ohlc = refl
as_granularity-value bar_close = refl
