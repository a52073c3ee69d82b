-- ===== src/Tests/Evaluation.antt =====
-- A signal that is filled, evaluated and evaluated again.
use invest_quant_system.Prelude.{◌≡◌, ◌⊎◌, refl, none, some, [], ◌∷◌, map, arith}
use invest_quant_system.Prelude.Tests.{String_discrete}
use invest_quant_system.Prelude.Int.{pos, ℤ_discrete, ◌+ℤ◌, ◌-ℤ◌}
use invest_quant_system.Prelude.Decimal.{whole, mul_dec, div_dec, round_half_even}
use invest_quant_system.Prelude.Lists.{All}
use invest_quant_system.Prelude.Sort.{keep, sort, insert, sort_by}
use invest_quant_system.Prelude.Dict.{get}
use invest_quant_system.Prelude.Result.{ok}
use invest_quant_system.Contracts.Moment.{Datetime, IsUtc}
use invest_quant_system.Contracts.Signals.{Direction, SignalEvent}
use invest_quant_system.Contracts.Evaluation.{EvaluationKey_discrete}
use invest_quant_system.MarketData.Repository.{read_bars}
use invest_quant_system.Signals.Repository.{get_signal}
use invest_quant_system.Signals.Repository.Evaluations.{evaluation_at}
use invest_quant_system.Evaluation.Costs.{cost_rate, of_bps}
use invest_quant_system.Evaluation.Fill.{fill, fill_at, seconds_between}
use invest_quant_system.Evaluation.Barrier.{
  walk, label_at, barrier_price, walk_of, time_only, both_hit, detect_first_barrier_hit,
}
use invest_quant_system.Evaluation.Barrier.First.{
  IsFirst, IsQuiet, detect_first_barrier_hit-IsFirst,
}
use invest_quant_system.Evaluation.Excursion.{
  relative, extreme, delta, time_from, time_to_extreme, prefer_min,
}
use invest_quant_system.Evaluation.Excursion.Lows.{with_low, time_to_extreme-with_low}
use invest_quant_system.Evaluation.Findings.{find, filled, priced}
use invest_quant_system.Evaluation.Evaluator.{evaluation_of, evaluate}
use invest_quant_system.Evaluation.Evaluator.Results.{IsEvaluationOf, evaluate-IsEvaluationOf}
use invest_quant_system.Evaluation.Evaluator.Accepted.{IsReady}
use invest_quant_system.Tests.Data.{utc, signal, task}
use invest_quant_system.Tests.Paths.{
  bar_at, later_bar, path, market, signals, config, evaluator, key_signal, evaluation,
  second_evaluation, evaluated,
}

path_fills : (fill signal path).executable_price ≡ some (whole 10)
unfolding fill fill_at seconds_between
path_fills = refl

-- The one bar that touches both barriers.
both_barriers : detect_first_barrier_hit (whole 10) (pos 1) path config ≡ (both_hit, some (pos 0))
unfolding detect_first_barrier_hit walk label_at barrier_price mul_dec round_half_even
    seconds_between ◌+ℤ◌
both_barriers = refl

first_evaluation : evaluate key_signal evaluator signals market task "5m" (utc 4000) ≡ ok evaluation
unfolding evaluate get_signal get String_discrete find filled priced fill fill_at seconds_between
    relative extreme time_to_extreme time_from delta div_dec round_half_even ◌+ℤ◌ ◌-ℤ◌ cost_rate
    of_bps read_bars keep sort_by sort insert evaluation_of
first_evaluation = refl

second_result :
    evaluate key_signal evaluator signals market task "5m" (utc 5000) ≡ ok second_evaluation
unfolding evaluate get_signal get String_discrete find filled priced fill fill_at seconds_between
    relative extreme time_to_extreme time_from delta div_dec round_half_even ◌+ℤ◌ ◌-ℤ◌ cost_rate
    of_bps read_bars keep sort_by sort insert evaluation_of
second_result = refl

-- The store has the one signal that the sample knows.
the_signal : (s : SignalEvent) → get_signal signals "signal" ≡ ok s → s ≡ signal
unfolding get_signal get String_discrete
the_signal s h = cc

task-IsReady : (now : Datetime) → IsUtc now → IsReady key_signal signals task now
task-IsReady now u s h =
    rw (the_signal s h)
      (record { due = refl; executable = refl; created = u; horizon = omega arith })

evaluation_held : evaluation_at evaluated evaluation ≡ some evaluation
unfolding get EvaluationKey_discrete String_discrete ℤ_discrete evaluation_of
evaluation_held = refl

first_held : evaluate key_signal evaluator evaluated market task "5m" (utc 4000) ≡ ok evaluation
unfolding evaluate get_signal
first_held = first_evaluation

second_held :
    evaluate key_signal evaluator evaluated market task "5m" (utc 5000) ≡ ok second_evaluation
unfolding evaluate get_signal
second_held = second_result

detect_first_barrier_hit-IsFirst_example :
    let w = walk_of (whole 10) (pos 1) config in
    let hit = detect_first_barrier_hit (whole 10) (pos 1) path config in
    IsFirst w (utc 600) path hit ⊎ (All (IsQuiet w (utc 600)) path × (hit ≡ (time_only, none)))
detect_first_barrier_hit-IsFirst_example =
    detect_first_barrier_hit-IsFirst (whole 10) (pos 1) bar_at (later_bar ∷ []) config

time_to_extreme-with_low_example :
    time_to_extreme prefer_min Direction.buy
      (whole 10)
      (with_low (whole 1) bar_at)
      (map (with_low (whole 1)) (later_bar ∷ []))
    ≡ time_to_extreme prefer_min Direction.buy (whole 10) bar_at (later_bar ∷ [])
time_to_extreme-with_low_example =
    time_to_extreme-with_low prefer_min (whole 10) (whole 1) bar_at (later_bar ∷ [])

evaluate-IsEvaluationOf_example :
    IsEvaluationOf key_signal evaluator signals market task "5m" (utc 4000) evaluation
evaluate-IsEvaluationOf_example =
    evaluate-IsEvaluationOf key_signal evaluator signals market task "5m" (utc 4000) evaluation
      first_evaluation
