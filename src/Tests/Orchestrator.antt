-- ===== src/Tests/Orchestrator.antt =====
-- A run over two bindings and a few bars, and the theorems on it.
use invest_quant_system.Universe.{resolve}
use invest_quant_system.Contracts.Moment.{Datetime_discrete}
use invest_quant_system.Backtest.Scheduler.{stable_sort_bars}
use invest_quant_system.Prelude.Sort.{sort}
use invest_quant_system.Contracts.Checks.{
  require_texts, require_all_utc, require_all_non_negative, require_non_negative,
}
use invest_quant_system.Prelude.Text.{is_blank, is_empty, leb_text, is_space}
use invest_quant_system.Contracts.Market.Bar.{
  check_times, check_range, Fingerprint_discrete, VersionKey_discrete,
}
use invest_quant_system.Clock.{advance_to}
use invest_quant_system.Contracts.Signals.{
  validate_event, validate_candidate, check_event, check_regime, SignalEvent_discrete,
}
use invest_quant_system.Contracts.Features.{snapshot_visible_at}
use invest_quant_system.Prelude.Decimal.{mul_dec, div_dec}
use invest_quant_system.Prelude.Int.{◌-ℤ◌, ℤ_discrete}
use invest_quant_system.Contracts.Market.{TradingStatus_discrete}
use invest_quant_system.Signals.Service.{verify_strategy_frozen}
use invest_quant_system.Prelude.Dict
use invest_quant_system.Contracts.Market.Bar
use invest_quant_system.Prelude.{
  ℕ, ◌-◌, String, ◌≡◌, ◌≢◌, ◌≤◌, refl, ap, false, none, some, List, [], ◌∷◌, arith, true,
}
use invest_quant_system.Prelude.Tests.{String_discrete}
use invest_quant_system.Prelude.Sort.{sort_by}
use invest_quant_system.Prelude.Int.{◌+ℤ◌, ◌-ℤ◌}
use invest_quant_system.Prelude.Decimal.{whole}
use invest_quant_system.Prelude.Result.{ok, is_ok, err, value_error}
use invest_quant_system.Contracts.Moment.{require_aware_utc}
use invest_quant_system.Contracts.Market.Bar.{MarketBar}
use invest_quant_system.MarketData.Repository.{idempotent}
use invest_quant_system.Signals.Repository.{new_repository}
use invest_quant_system.Signals.Service.{SignalPayload}
use invest_quant_system.Universe.{same}
use invest_quant_system.Features.{Platform}
use invest_quant_system.Backtest.RunSpec.{StrategyBinding, BacktestRunSpec, RunParts}
use invest_quant_system.Backtest.Partition.{SlotKey, SlotKey_discrete, get_slot}
use invest_quant_system.Backtest.Orchestrator.{check_universe, Orchestrator, Surroundings}
use invest_quant_system.Backtest.Orchestrator.Loop.{emit, process_binding}
use invest_quant_system.Backtest.Orchestrator.Run.{build_result, run}
use invest_quant_system.Backtest.Orchestrator.Steps.{facts}
use invest_quant_system.Backtest.Orchestrator.Tracked.{IsTracked, run-IsTracked}
use invest_quant_system.Backtest.Orchestrator.Counts.{total_bars-le}
use invest_quant_system.Backtest.Orchestrator.Slots.{process_binding-others}
use invest_quant_system.Backtest.Orchestrator.Unseen.{early_service_raises}
use invest_quant_system.Backtest.Orchestrator.Early.{early_run_records_nothing}
use invest_quant_system.Tests.Data.{utc, candidate, bar}
use invest_quant_system.Backtest.Warnings.{universe_needs_switch}
use invest_quant_system.Backtest.Orchestrator.Switch.{IsSwitched, check_universe-agrees}
use invest_quant_system.Tests.Universe.{pools, announced}

abbrev pub platform : Platform
platform = record {
  to_float = λ x. x;
  parse_float = λ s. err (value_error "could not convert string to float");
  isoformat = λ t. "";
  count_text = λ n. "";
  snapshot_digest = λ k. k.symbol;
}

abbrev around : Surroundings
around = record {
  platform = platform;
  signal_digest = λ (p : SignalPayload). p.symbol;
  spec_digest = λ (p : RunParts). p.run_mode;
  service_now = λ t. t;
  wall_now = utc 9000;
}

abbrev binding : StrategyBinding
binding = record {
  binding_id = "b1";
  strategy_name = "baseline-rules";
  strategy_version = "v1";
  parameter_hash = "h";
  universe_id = "hs300";
  universe_version = "1";
  feature_version = "rolling-feature-v1";
  composer_policy = "PRIORITY_MAX_CONFIDENCE";
  market_rule_version = none;
  cost_model_version = "fixed-bps-v1";
  fill_model_version = "next-bar-open-v1";
  weight = whole 1;
  valid_from = none;
  valid_to = none;
}

abbrev spec : ℕ → BacktestRunSpec
spec from = record {
  run_id = "run";
  run_mode = "backtest";
  from_time = utc from;
  to_time = utc 9000;
  timeframe = "1m";
  data_source_version = "v1";
  as_of_version = "v1";
  strategy_bindings = binding ∷ [];
  market_rule_version = none;
  cost_model_version = "fixed-bps-v1";
  fill_model_version = "next-bar-open-v1";
  initial_cash = whole 1000000;
  clock_policy = "frozen";
  random_seed = none;
}

-- an orchestrator before its run
abbrev orchestrator : ℕ → Orchestrator
orchestrator from = record {
  spec = spec from;
  universes = pools;
  market = record { duplicate_policy = idempotent; bars = []; quarantine = [] };
  service = record { schema_version = "signal-event-v1"; version_registry = none };
  signals = new_repository;
  scheduler = record {
    clock = record { current_time = utc from; history = [] };
    last_time = none;
    out_of_order_count = 0;
    last_warning_code = "";
  };
  partition = record { slots = [] };
  universe_versions = [];
  warnings = [];
  universe_changes = [];
  bars_by_symbol = [];
  signal_ids = [];
  signals_rejected = 0;
}

abbrev first_part : String → String
first_part s = s

-- bars of which the latest breaks out
abbrev bar_at : ℕ → ℕ → ℕ → MarketBar
bar_at time close volume = record bar {
  bar_start_time = utc (time - 60);
  bar_end_time = utc time;
  market_data_time = utc time;
  ingest_time = utc time;
  bar_close_time = utc time;
  open_price = whole close;
  high_price = whole close;
  low_price = whole close;
  close_price = whole close;
  volume = some (whole volume);
}

abbrev rising : List MarketBar
rising = bar_at 400 11 500 ∷ bar_at 200 10 100 ∷ bar_at 300 10 100 ∷ []

run-IsTracked_example :
    IsTracked around new_repository (facts (run around first_part rising (orchestrator 100)).1)
run-IsTracked_example = run-IsTracked around first_part rising (orchestrator 100) refl

total_bars-le_example :
    (build_result around first_part
      (run around first_part (bar ∷ []) (orchestrator 100)).1).total_bars
    ≤ 1
total_bars-le_example = total_bars-le around first_part (bar ∷ []) (orchestrator 100) refl

-- The ids of a run whose latest bar breaks out.
breakout_recorded : (run around first_part rising (orchestrator 100)).1.signal_ids ≡ "600000" ∷ []
unfolding run resolve require_aware_utc stable_sort_bars sort Bar.validate require_texts is_blank
    require_all_utc check_times require_all_non_negative require_non_negative check_range advance_to
    Dict.get is_empty Dict.put Dict.set_default validate_event validate_candidate check_event
    check_regime snapshot_visible_at mul_dec div_dec ◌+ℤ◌ ◌-ℤ◌ sort_by TradingStatus_discrete
    ℤ_discrete leb_text is_space Fingerprint_discrete VersionKey_discrete SignalEvent_discrete
    verify_strategy_frozen Datetime_discrete SlotKey_discrete
breakout_recorded = refl

-- a signal service whose clock stands at the start of the run
abbrev frozen : Surroundings
frozen = record around { service_now = λ t. utc 100 }

early_run_records_nothing_example :
    let o' = (run frozen first_part rising (orchestrator 100)).1 in
    (o'.signals ≡ new_repository) × (o'.signal_ids ≡ [])
early_run_records_nothing_example =
    early_run_records_nothing frozen first_part rising (orchestrator 100)
      (λ t. omega arith, (λ t. omega arith, (λ t. omega arith, tt)))

-- The run over the same bars, which records a signal, raises with the frozen clock.
frozen_run_raises : is_ok (run frozen first_part rising (orchestrator 100)).0 ≡ false
unfolding run resolve require_aware_utc stable_sort_bars sort Bar.validate require_texts is_blank
    require_all_utc check_times require_all_non_negative require_non_negative check_range advance_to
    Dict.get is_empty Dict.put Dict.set_default validate_event validate_candidate check_event
    check_regime snapshot_visible_at mul_dec div_dec ◌+ℤ◌ ◌-ℤ◌ sort_by TradingStatus_discrete
    ℤ_discrete leb_text is_space Fingerprint_discrete VersionKey_discrete SignalEvent_discrete
    verify_strategy_frozen Datetime_discrete SlotKey_discrete
frozen_run_raises = refl

differ : (s t : String) → same s t ≡ false → s ≢ t
unfolding String_discrete
differ s t h e = ground arith

abbrev another : SlotKey
another = ("b2", "600000")

process_binding-others_example :
    let o = orchestrator 100 in
    get_slot (process_binding around bar (utc 300) binding o).1.partition "b2" "600000"
    ≡ get_slot o.partition "b2" "600000"
unfolding String_discrete
process_binding-others_example =
    process_binding-others around bar binding another
      (λ e. differ "b1" "b2" refl (ap (λ (k : SlotKey). k.0) e)) (utc 300) (orchestrator 100)

early_service_raises_example :
    (is_ok (emit around (some candidate) (orchestrator 100)).0 ≡ false)
    × ((emit around (some candidate) (orchestrator 100)).1 ≡ orchestrator 100)
early_service_raises_example =
    early_service_raises around candidate (orchestrator 100) (omega arith)

-- an orchestrator that has begun with the first of the pools
abbrev begun : Orchestrator
begun = record (orchestrator 100) { universe_versions = ("b1", "1") ∷ [] }

check_universe-agrees_example :
    let needed = universe_needs_switch pools "hs300" "1" (utc 200) in
    ((check_universe around (utc 200) binding begun).0 ≡ ok tt)
    × (needed ≡ true
        → IsSwitched around binding announced begun
            (check_universe around (utc 200) binding begun).1)
    × (needed ≡ false → (check_universe around (utc 200) binding begun).1 ≡ begun)
unfolding resolve require_aware_utc Dict.get String_discrete is_empty
check_universe-agrees_example =
    check_universe-agrees around binding (utc 200) announced begun refl refl
