-- ===== src/Evaluation/Evaluator.antt =====
-- evaluation/evaluator.py: the evaluation of a signal over the stored bars. The digest of the run's
-- id and the time of the clock are arguments.
pub mod Results
pub mod Accepted
use invest_quant_system.Prelude.{
  ℕ, String, Bool, true, false, ◌≡◌, Option, none, some, List, [], ◌∷◌,
}
use invest_quant_system.Prelude.Tests.{if◌then◌else◌}
use invest_quant_system.Prelude.Lists.{last?}
use invest_quant_system.Prelude.Int.{ℤ, pos, ◌-ℤ◌, max_ℤ, min_ℤ, ltb_ℤ, neg_ℤ}
use invest_quant_system.Prelude.Decimal.{Decimal, div_dec}
use invest_quant_system.Prelude.Result.{Result, ok, err, or_raise, division_by_zero, ◌>>=◌}
use invest_quant_system.Contracts.Moment.{Datetime}
use invest_quant_system.Contracts.Market.Bar.{MarketBar}
use invest_quant_system.Contracts.Signals.{
  SignalEvent, Direction, direction_sign, ExecutionStatus, executable, unexecutable, is_buy,
  unknown_at_event_time,
}
use invest_quant_system.Contracts.Evaluation.{
  EvaluationTask, EvaluationTaskStatus, completed, postponed, censored, EvaluationPolicy,
  SignalEvaluation, BarrierConflictPolicy, ambiguous, bar_ohlc,
}
use invest_quant_system.MarketData.Repository.{MarketRepository, Query, read_bars}
use invest_quant_system.Signals.Repository.{SignalRepository, get_signal}
use invest_quant_system.Evaluation.Costs.{AcShareCostModel, cost_rate}
use invest_quant_system.Evaluation.Fill.{FillResult, fill, seconds_between}
use invest_quant_system.Evaluation.Excursion.{
  directed, relative, best_price, worst_price, extreme, excursion, prefer_max, prefer_min,
  time_to_extreme,
}
use invest_quant_system.Evaluation.Findings.{
  Evaluator, Findings, find, filled, priced, without_prices, is_executable, last_bar,
}
use invest_quant_system.Evaluation.Barrier.{
  TripleBarrierConfig, has_price_barriers, detect_first_barrier_hit, time_only,
}

abbrev pub config_version : Evaluator → String
config_version v = elim v.barrier_config [
  | none ↦ "no-barrier-v1"
  | some c ↦ v.barrier_config_version
]

abbrev pub policy_of : Option TripleBarrierConfig → BarrierConflictPolicy
policy_of none = ambiguous
policy_of (some c) = c.conflict_policy

-- the texts that the run's id digests
pub record RunKey : Type 0 where
  pub signal_id : String
  pub horizon_seconds : ℤ
  pub evaluator_version : String
  pub policy_version : String
  pub cost_model_version : String
  pub fill_model_version : String
  pub data_source_version : String
  pub as_of_version : String

abbrev pub run_key : Evaluator → EvaluationTask → RunKey
run_key v t = record {
  signal_id = t.signal_id;
  horizon_seconds = t.horizon_seconds;
  evaluator_version = v.evaluator_version;
  policy_version = v.policy.policy_version;
  cost_model_version = v.cost_model.cost_model_version;
  fill_model_version = v.fill_model_version;
  data_source_version = t.data_source_version;
  as_of_version = t.as_of_version;
}

-- `created_at if created_at.tzinfo else created_at.replace(tzinfo=utc)`
abbrev pub in_utc : Datetime → Datetime
in_utc t = elim t.utc_offset [ none ↦ record t { utc_offset = some (pos 0) } | some o ↦ t ]

-- `0` without a net return
abbrev pub charged : Option Decimal → Decimal → Decimal
charged none rate = pos 0
charged (some net) rate = rate

-- the bars that an evaluation looks at
abbrev pub path_query : SignalEvent → EvaluationTask → String → Query
path_query s t timeframe = record {
  symbol = s.symbol;
  from_time = s.executable_time;
  to_time = t.due_time;
  timeframe = timeframe;
  data_source_version = t.data_source_version;
  as_of_version = t.as_of_version;
}

module _ (digest : RunKey → String) where
  -- `_evaluation`
  unfoldable pub evaluation_of :
      Evaluator → SignalEvent → EvaluationTask → Findings → Datetime → SignalEvaluation
  evaluation_of v s t f now = record {
    schema_version = "signal-evaluation-v1";
    evaluation_run_id = digest (run_key v t);
    signal_id = t.signal_id;
    horizon_seconds = t.horizon_seconds;
    evaluation_time = t.due_time;
    executable_time = s.executable_time;
    executable_price = f.executable_price;
    executable_price_source = f.executable_price_source;
    execution_status = f.execution_status;
    unexecutable_reason = f.unexecutable_reason;
    evaluation_price = f.evaluation_price;
    raw_return = f.raw_return;
    direction_return = f.direction_return;
    net_return = f.net_return;
    mfe = f.mfe;
    mae = f.mae;
    time_to_mfe_seconds = f.time_to_mfe_seconds;
    time_to_mae_seconds = f.time_to_mae_seconds;
    triple_barrier_label = f.triple_barrier_label;
    barrier_config_version = config_version v;
    path_granularity = bar_ohlc;
    barrier_conflict_policy = policy_of v.barrier_config;
    transaction_cost = charged f.net_return (cost_rate v.cost_model s.direction);
    slippage = pos 0;
    spread_cost = pos 0;
    signal_delay_seconds = f.signal_delay_seconds;
    evaluator_version = v.evaluator_version;
    evaluation_policy_version = v.policy.policy_version;
    cost_model_version = v.cost_model.cost_model_version;
    slippage_model_version = v.slippage_model_version;
    delay_model_version = v.delay_model_version;
    fill_model_version = v.fill_model_version;
    data_source_version = t.data_source_version;
    as_of_version = t.as_of_version;
    created_at = in_utc now;
    status = f.status;
  }

  unfoldable pub evaluate :
      Evaluator
      → SignalRepository
      → MarketRepository
      → EvaluationTask
      → String
      → Datetime
      → Result SignalEvaluation
  unfolding evaluation_of find
  evaluate v signals market t timeframe now = do
    s ← get_signal signals t.signal_id
    f ← find v s (read_bars market (path_query s t timeframe))
    ok (evaluation_of v s t f now)
