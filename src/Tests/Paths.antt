-- ===== src/Tests/Paths.antt =====
-- Bars, a store and the models of an evaluation.
use invest_quant_system.Prelude.{String, ◌^◌, true, none, some, List, [], ◌∷◌}
use invest_quant_system.Prelude.Int.{pos}
use invest_quant_system.Prelude.Decimal.{whole, digits_behind, signed}
use invest_quant_system.Contracts.Market.Bar.{MarketBar, version_key}
use invest_quant_system.Contracts.Signals.{executable}
use invest_quant_system.Contracts.Evaluation.{
  completed, ambiguous, SignalEvaluation, evaluation_key,
}
use invest_quant_system.MarketData.Repository.{MarketRepository, raise}
use invest_quant_system.Signals.Repository.{SignalRepository}
use invest_quant_system.Evaluation.Costs.{default_ac_share}
use invest_quant_system.Evaluation.Barrier.{TripleBarrierConfig}
use invest_quant_system.Evaluation.Findings.{Evaluator, Findings}
use invest_quant_system.Evaluation.Evaluator.{RunKey, evaluation_of}
use invest_quant_system.Tests.Data.{utc, bar, signal, task}

abbrev pub bar_at : MarketBar
bar_at = record bar { market_data_time = utc 600; bar_end_time = utc 600; bar_start_time = utc 300 }

abbrev pub later_bar : MarketBar
later_bar = record bar {
  market_data_time = utc 900;
  bar_end_time = utc 900;
  bar_start_time = utc 600;
}

abbrev pub path : List MarketBar
path = bar_at ∷ later_bar ∷ []

abbrev pub market : MarketRepository
market = record {
  duplicate_policy = raise;
  bars = (version_key bar_at, bar_at) ∷ (version_key later_bar, later_bar) ∷ [];
  quarantine = [];
}

abbrev pub signals : SignalRepository
signals = record { signals = ("signal", signal) ∷ []; tasks = []; evaluations = [] }

abbrev pub config : TripleBarrierConfig
config = record {
  barrier_config_version = "triple-barrier-v1";
  profit_barrier_ratio = some (digits_behind 2 1);
  loss_barrier_ratio = some (signed true (10 ^ 27));
  time_barrier_seconds = none;
  conflict_policy = ambiguous;
}

abbrev pub evaluator : Evaluator
evaluator = record {
  cost_model = default_ac_share;
  fill_model_version = "next-bar-open-fill-v1";
  delay_model_version = "one-second-delay-v1";
  policy = record {
    policy_version = "evaluation-policy-v1";
    horizons_seconds = pos 300 ∷ [];
    max_postpone_seconds = 259200;
    barrier_conflict_policy = ambiguous;
  };
  barrier_config = none;
  evaluator_version = "signal-evaluator-v2";
  slippage_model_version = "zero-slippage-v1";
  barrier_config_version = "triple-barrier-v1";
}

abbrev pub findings : Findings
findings = record {
  status = completed;
  executable_price = some (whole 10);
  executable_price_source = some "NEXT_BAR_OPEN";
  execution_status = executable;
  unexecutable_reason = none;
  evaluation_price = some (whole 11);
  raw_return = some (digits_behind 1 1);
  direction_return = some (digits_behind 1 1);
  net_return = some (digits_behind 996 4);
  mfe = some (digits_behind 2 1);
  mae = some (signed true (10 ^ 27));
  time_to_mfe_seconds = some (pos 0);
  time_to_mae_seconds = some (pos 0);
  triple_barrier_label = some (pos 0);
  signal_delay_seconds = pos 299;
}

abbrev pub key_signal : RunKey → String
key_signal k = k.signal_id

abbrev pub evaluation : SignalEvaluation
evaluation = evaluation_of key_signal evaluator signal task findings (utc 4000)

abbrev pub second_evaluation : SignalEvaluation
second_evaluation = evaluation_of key_signal evaluator signal task findings (utc 5000)

abbrev pub evaluated : SignalRepository
evaluated = record signals { evaluations = (evaluation_key evaluation, evaluation) ∷ [] }
