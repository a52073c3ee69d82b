-- ===== src/Tests/Data.antt =====
-- Sample values of the contracts.
use invest_quant_system.Prelude.{ℕ, ◌*◌, String, true, none, some, [], ◌∷◌}
use invest_quant_system.Prelude.Int.{pos}
use invest_quant_system.Prelude.Decimal.{whole, digits_behind}
use invest_quant_system.Contracts.Moment.{Datetime}
use invest_quant_system.Contracts.Market.{TradingStatus}
use invest_quant_system.Contracts.Market.Bar.{MarketBar}
use invest_quant_system.Contracts.Features.{FeatureSnapshot}
use invest_quant_system.Contracts.Signals.{
  SignalCandidate, SignalEvent, Direction, SignalAction, increase_long, executable,
}
use invest_quant_system.Contracts.Evaluation.{EvaluationTask, pending}
use invest_quant_system.Contracts.Portfolio.{PaperFill}
use invest_quant_system.Portfolio.Ledger.{PortfolioLedger, default_policy}
use invest_quant_system.Backtest.OrderIntent.{OrderIntent}

-- a time in UTC, in seconds
abbrev pub utc : ℕ → Datetime
utc seconds = record { instant = seconds * 1000000; utc_offset = some (pos 0) }

abbrev pub fill : String → ℕ → ℕ → PaperFill
fill id price quantity = record {
  paper_fill_id = id;
  paper_run_id = "run";
  paper_order_id = "order";
  signal_id = "signal";
  cost_model_version = "v1";
  fill_model_version = "v1";
  fill_time = utc 100;
  fill_price = whole price;
  quantity = whole quantity;
  fee = whole 5;
  tax = whole 0;
  slippage = whole 0;
}

abbrev pub ledger : PortfolioLedger
ledger = record {
  portfolio_id = "portfolio";
  paper_run_id = "run";
  policy = default_policy;
  lot_size = 100;
  cash = record { initial_cash = whole 100000; cash = whole 100000 };
  positions = [];
  settlement = [];
  fills = [];
}

-- with 100 shares, bought a day and more before the time 90000
abbrev pub holding : PortfolioLedger
holding = record ledger {
  positions = ("600000", whole 100) ∷ [];
  settlement =
      record {
        symbol = "600000";
        buy_date = utc 100;
        settle_date = utc 86500;
        quantity = whole 100;
      }
      ∷ [];
}

abbrev pub bar : MarketBar
bar = record {
  schema_version = "1";
  symbol = "600000";
  timeframe = "5m";
  bar_start_time = utc 0;
  bar_end_time = utc 300;
  market_data_time = utc 300;
  ingest_time = utc 301;
  open_price = whole 10;
  high_price = whole 12;
  low_price = whole 9;
  close_price = whole 11;
  volume = some (whole 5000);
  amount = none;
  turnover = none;
  trading_status = TradingStatus.trading;
  is_closed = true;
  bar_close_time = utc 300;
  source = "sina";
  data_source_version = "v1";
  as_of_version = "v1";
  source_revision = none;
}

abbrev pub intent : Direction → SignalAction → OrderIntent
intent direction action = record {
  schema_version = "1";
  intent_id = "intent";
  signal_id = "signal";
  binding_id = "binding";
  symbol = "600000";
  direction = direction;
  action = action;
  quantity = pos 100;
  reference_price = whole 10;
  target_price = none;
  execution_status = executable;
  created_at = utc 300;
}

abbrev pub snapshot : FeatureSnapshot
snapshot = record {
  schema_version = "1";
  feature_snapshot_id = "features";
  symbol = "600000";
  market_data_time = utc 300;
  generated_at = utc 301;
  feature_version = "v1";
  lookback_window = "20";
  features = [];
  missing_data_flags = [];
  input_bar_range = "1..20";
}

abbrev pub signal : SignalEvent
signal = record {
  schema_version = "1";
  signal_id = "signal";
  symbol = "600000";
  direction = Direction.buy;
  signal_action = SignalAction.buy;
  exposure_effect = increase_long;
  event_time = utc 301;
  market_data_time = utc 300;
  ingest_time = utc 301;
  executable_time = utc 360;
  reference_price = whole 10;
  executable_price = none;
  executable_price_source = none;
  execution_status = executable;
  unexecutable_reason = none;
  score = digits_behind 8 1;
  confidence = digits_behind 9 1;
  horizon_seconds = pos 3600;
  reason_codes = "momentum" ∷ [];
  invalid_condition = none;
  feature_snapshot = snapshot;
  market_regime = none;
  strategy_name = "momentum";
  strategy_version = "v1";
  feature_version = "v1";
  code_version = "v1";
  parameter_hash = "h";
  data_source_version = "v1";
  as_of_version = "v1";
  created_at = utc 301;
}

abbrev pub task : EvaluationTask
task = record {
  signal_id = "signal";
  horizon_seconds = pos 3600;
  due_time = utc 3901;
  evaluation_policy_version = "v1";
  data_source_version = "v1";
  as_of_version = "v1";
  status = pending;
  claimed_at = none;
  lease_expires_at = none;
  worker_id = none;
  attempts = 0;
  next_retry_at = none;
  last_error = none;
}

abbrev pub candidate : SignalCandidate
candidate = record {
  symbol = "600000";
  direction = Direction.buy;
  signal_action = SignalAction.buy;
  exposure_effect = increase_long;
  market_data_time = utc 300;
  reference_price = whole 10;
  score = digits_behind 8 1;
  confidence = digits_behind 9 1;
  horizon_seconds = pos 3600;
  reason_codes = "momentum" ∷ [];
  invalid_condition = none;
  feature_snapshot = snapshot;
  market_regime = none;
  strategy_name = "momentum";
  strategy_version = "v1";
  feature_version = "v1";
  code_version = "v1";
  parameter_hash = "h";
  data_source_version = "v1";
  as_of_version = "v1";
}
