-- ===== src/Evaluation/Findings.antt =====
-- `evaluate` of evaluation/evaluator.py up to its record: what is found over a path.
use invest_quant_system.Prelude.{String, Bool, true, false, Option, none, some, List, [], ◌∷◌}
use invest_quant_system.Prelude.Tests.{if◌then◌else◌}
use invest_quant_system.Prelude.Int.{ℤ, pos, ◌-ℤ◌, max_ℤ, min_ℤ}
use invest_quant_system.Prelude.Decimal.{Decimal}
use invest_quant_system.Prelude.Result.{Result, ok, ◌>>=◌}
use invest_quant_system.Contracts.Market.Bar.{MarketBar}
use invest_quant_system.Contracts.Signals.{
  SignalEvent, Direction, direction_sign, ExecutionStatus, executable, unexecutable,
  unknown_at_event_time,
}
use invest_quant_system.Contracts.Evaluation.{
  EvaluationTaskStatus, completed, postponed, censored, EvaluationPolicy,
}
use invest_quant_system.Evaluation.Costs.{AcShareCostModel, cost_rate}
use invest_quant_system.Evaluation.Fill.{FillResult, fill}
use invest_quant_system.Evaluation.Excursion.{
  directed, relative, best_price, worst_price, extreme, excursion, prefer_max, prefer_min,
  time_to_extreme,
}
use invest_quant_system.Evaluation.Barrier.{
  TripleBarrierConfig, has_price_barriers, detect_first_barrier_hit, time_only,
}

-- the models and versions of a `SignalEvaluator`
pub record Evaluator : Type 0 where
  pub cost_model : AcShareCostModel
  pub fill_model_version : String
  pub delay_model_version : String
  pub policy : EvaluationPolicy
  pub barrier_config : Option TripleBarrierConfig
  pub evaluator_version : String
  pub slippage_model_version : String
  pub barrier_config_version : String

-- what `_evaluation` is given beside the task
pub record Findings : Type 0 where
  pub status : EvaluationTaskStatus
  pub executable_price : Option Decimal
  pub executable_price_source : Option String
  pub execution_status : ExecutionStatus
  pub unexecutable_reason : Option String
  pub evaluation_price : Option Decimal
  pub raw_return : Option Decimal
  pub direction_return : Option Decimal
  pub net_return : Option Decimal
  pub mfe : Option Decimal
  pub mae : Option Decimal
  pub time_to_mfe_seconds : Option ℤ
  pub time_to_mae_seconds : Option ℤ
  pub triple_barrier_label : Option ℤ
  pub signal_delay_seconds : ℤ

-- the findings of a task without prices
abbrev pub without_prices : EvaluationTaskStatus → ExecutionStatus → Option String → ℤ → Findings
without_prices status execution reason delay = record {
  status = status;
  executable_price = none;
  executable_price_source = none;
  execution_status = execution;
  unexecutable_reason = reason;
  evaluation_price = none;
  raw_return = none;
  direction_return = none;
  net_return = none;
  mfe = none;
  mae = none;
  time_to_mfe_seconds = none;
  time_to_mae_seconds = none;
  triple_barrier_label = none;
  signal_delay_seconds = delay;
}

abbrev pub barrier_label : Option TripleBarrierConfig → Decimal → Direction → List MarketBar → ℤ
barrier_label none price d path = time_only
barrier_label (some c) price d path =
    if has_price_barriers c
    then (detect_first_barrier_hit price (direction_sign d) path c).0
    else time_only

-- `path[-1]` of the path that starts with `b`
abbrev pub last_bar : MarketBar → List MarketBar → MarketBar
last_bar b [] = b
last_bar b (c ∷ cs) = last_bar c cs

abbrev pub is_executable : ExecutionStatus → Bool
is_executable executable = true
is_executable unexecutable = false
is_executable unknown_at_event_time = false

-- the findings of a path that starts with `b` and a fill at `price`
unfoldable pub priced :
    Evaluator → SignalEvent → FillResult → Decimal → MarketBar → List MarketBar → Result Findings
unfolding relative extreme time_to_extreme
priced v s f price b bs =
    let last = last_bar b bs in
    let d = s.direction in
    do
      raw ← relative last.close_price price
      mfe ← extreme max_ℤ (excursion best_price d price) b bs
      mae ← extreme min_ℤ (excursion worst_price d price) b bs
      time_to_mfe ← time_to_extreme prefer_max d price b bs
      time_to_mae ← time_to_extreme prefer_min d price b bs
      ok (record {
        status = completed;
        executable_price = some price;
        executable_price_source = f.executable_price_source;
        execution_status = f.execution_status;
        unexecutable_reason = none;
        evaluation_price = some last.close_price;
        raw_return = some raw;
        direction_return = some (directed d raw);
        net_return = some (directed d raw -ℤ cost_rate v.cost_model d);
        mfe = some mfe;
        mae = some mae;
        time_to_mfe_seconds = time_to_mfe;
        time_to_mae_seconds = time_to_mae;
        triple_barrier_label = some (barrier_label v.barrier_config price d (b ∷ bs));
        signal_delay_seconds = f.signal_delay_seconds;
      })

-- `_unexecutable` unless the fill is executable and has a price
unfoldable pub filled :
    Evaluator → SignalEvent → FillResult → MarketBar → List MarketBar → Result Findings
unfolding priced
filled v s f b bs = elim f.executable_price [
  | none ↦
      ok (without_prices censored f.execution_status f.unexecutable_reason f.signal_delay_seconds)
  | some price ↦
      if is_executable f.execution_status
      then priced v s f price b bs
      else ok
          (without_prices censored f.execution_status f.unexecutable_reason f.signal_delay_seconds)
]

-- the findings over a path, `_unavailable` if it is empty
unfoldable pub find : Evaluator → SignalEvent → List MarketBar → Result Findings
unfolding filled
find v s [] = ok (without_prices postponed unexecutable (some "NO_EVALUATION_PRICE") (pos 0))
find v s (b ∷ bs) = filled v s (fill s (b ∷ bs)) b bs
