-- ===== src/Evaluation/Excursion.antt =====
-- `mfe`, `mae` and `_time_to_extreme` of evaluation/evaluator.py: how far a path went.
pub mod Lows
use invest_quant_system.Prelude.{
  ℕ, String, Bool, true, false, ◌≡◌, Option, none, some, List, [], ◌∷◌,
}
use invest_quant_system.Prelude.Tests.{if◌then◌else◌}
use invest_quant_system.Prelude.Lists.{last?}
use invest_quant_system.Prelude.Int.{ℤ, pos, ◌-ℤ◌, max_ℤ, min_ℤ, ltb_ℤ, neg_ℤ}
use invest_quant_system.Prelude.Decimal.{Decimal, div_dec}
use invest_quant_system.Prelude.Result.{Result, ok, err, or_raise, division_by_zero, ◌>>=◌}
use invest_quant_system.Contracts.Moment.{Datetime}
use invest_quant_system.Contracts.Market.Bar.{MarketBar}
use invest_quant_system.Contracts.Signals.{
  SignalEvent, Direction, direction_sign, ExecutionStatus, executable, unexecutable, is_buy,
  unknown_at_event_time,
}
use invest_quant_system.Contracts.Evaluation.{
  EvaluationTask, EvaluationTaskStatus, completed, postponed, censored, EvaluationPolicy,
  SignalEvaluation, BarrierConflictPolicy, ambiguous, bar_ohlc,
}
use invest_quant_system.MarketData.Repository.{MarketRepository, Query, read_bars}
use invest_quant_system.Signals.Repository.{SignalRepository, get_signal}
use invest_quant_system.Evaluation.Costs.{AcShareCostModel, cost_rate}
use invest_quant_system.Evaluation.Fill.{FillResult, fill, seconds_between}
use invest_quant_system.Evaluation.Barrier.{
  TripleBarrierConfig, has_price_barriers, detect_first_barrier_hit, time_only,
}

-- `Decimal(int(direction)) * x`, which is exact
abbrev pub directed : Direction → Decimal → Decimal
directed Direction.buy x = x
directed Direction.sell x = neg_ℤ x
directed Direction.hold x = pos 0

-- `(price - base) / base`
unfoldable pub relative : Decimal → Decimal → Result Decimal
relative price base = or_raise (div_dec (price -ℤ base) base) division_by_zero

-- the best and the worst price of a bar for a direction
abbrev pub best_price : Direction → MarketBar → Decimal
best_price d b = if is_buy d then b.high_price else b.low_price

abbrev pub worst_price : Direction → MarketBar → Decimal
worst_price d b = if is_buy d then b.low_price else b.high_price

-- `max` and `min` of a generator over a path that is not empty
unfoldable pub extreme :
    (Decimal → Decimal → Decimal)
    → (MarketBar → Result Decimal)
    → MarketBar
    → List MarketBar
    → Result Decimal
extreme pick f b [] = f b
extreme pick f b (c ∷ cs) = do x ← f b; y ← extreme pick f c cs; ok (pick x y)

-- the terms of `mfe` and `mae`
abbrev pub excursion :
    (Direction → MarketBar → Decimal) → Direction → Decimal → MarketBar → Result Decimal
excursion price d base b = do r ← relative (price d b) base; ok (directed d r)

-- `delta` of `_time_to_extreme`
unfoldable pub delta : Direction → Decimal → MarketBar → Result Decimal
unfolding relative
delta d base b =
    if is_buy d
    then relative b.high_price base
    else or_raise (div_dec (base -ℤ b.low_price) base) division_by_zero

pub data Prefer : Type 0 where
  prefer_max prefer_min : Prefer

abbrev pub is_better : Prefer → Decimal → Decimal → Bool
is_better prefer_max x best = ltb_ℤ best x
is_better prefer_min x best = ltb_ℤ x best

abbrev pub improves : Prefer → Decimal → Option Decimal → Bool
improves p x none = true
improves p x (some best) = is_better p x best

-- the loop of `_time_to_extreme`, with the best value so far and its time
unfoldable pub time_from :
    Prefer
    → Direction
    → Decimal
    → Datetime
    → Option Decimal
    → Option ℤ
    → List MarketBar
    → Result (Option ℤ)
unfolding delta
time_from p d base start best at [] = ok at
time_from p d base start best at (b ∷ bs) = do
  x ← delta d base b
  if improves p x best
      then time_from p d base start (some x) (some (seconds_between b.market_data_time start)) bs
      else time_from p d base start best at bs

-- `_time_to_extreme` on a path that is not empty
unfoldable pub time_to_extreme :
    Prefer → Direction → Decimal → MarketBar → List MarketBar → Result (Option ℤ)
unfolding time_from
time_to_extreme p d base b bs = time_from p d base b.market_data_time none none (b ∷ bs)
