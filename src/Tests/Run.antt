-- ===== src/Tests/Run.antt =====
-- A run's scheduler on two bars in order, and on two that come late.
use invest_quant_system.Prelude.{ℕ, ◌≡◌, refl, none, some, [], ◌∷◌, arith}
use invest_quant_system.Prelude.Int.{ℤ_discrete}
use invest_quant_system.Prelude.Text.{is_blank, is_space}
use invest_quant_system.Contracts.Moment.{require_aware_utc, require_offset}
use invest_quant_system.Contracts.Checks.{
  require_texts, require_all_utc, require_non_negative, require_all_non_negative,
}
use invest_quant_system.Contracts.Market.Bar
use invest_quant_system.Contracts.Market.Bar.{MarketBar, check_times, check_range}
use invest_quant_system.Contracts.Market.Bar.Valid.{IsWellFormed, validate-IsWellFormed_iff}
use invest_quant_system.Clock.Monotone.{IsConsistent}
use invest_quant_system.Backtest.Scheduler.{BacktestScheduler, advance_bars}
use invest_quant_system.Backtest.Scheduler.Late.{IsBefore, advance_bars-IsRising}
use invest_quant_system.Tests.Data.{utc, bar}

-- a bar of 100 seconds that ends at a time
abbrev bar_to : ℕ → ℕ → MarketBar
bar_to start end = record bar {
  bar_start_time = utc start;
  bar_end_time = utc end;
  market_data_time = utc end;
  bar_close_time = utc end;
  ingest_time = utc end;
}

abbrev scheduler : BacktestScheduler
scheduler = record {
  clock = record { current_time = utc 100; history = [] };
  last_time = none;
  out_of_order_count = 0;
  last_warning_code = "";
}

abbrev at_1000 : BacktestScheduler
at_1000 = record scheduler {
  clock = record { current_time = utc 1000; history = utc 1000 ∷ [] };
  last_time = some (utc 1000);
}

bar_500-IsWellFormed : IsWellFormed (bar_to 400 500)
unfolding Bar.validate require_texts is_blank is_space require_all_utc require_aware_utc
    require_offset ℤ_discrete check_times require_all_non_negative require_non_negative check_range
bar_500-IsWellFormed = (validate-IsWellFormed_iff (bar_to 400 500)).0 refl

bar_700-IsWellFormed : IsWellFormed (bar_to 600 700)
unfolding Bar.validate require_texts is_blank is_space require_all_utc require_aware_utc
    require_offset ℤ_discrete check_times require_all_non_negative require_non_negative check_range
bar_700-IsWellFormed = (validate-IsWellFormed_iff (bar_to 600 700)).0 refl

scheduler-IsBefore : IsBefore scheduler 100000000
scheduler-IsBefore = record { clock = omega arith; last = λ l h. cc }

scheduler-IsConsistent : IsConsistent scheduler.clock
scheduler-IsConsistent = record { ascending = tt; reached = tt }

advance_bars-IsRising_example :
    let s' = advance_bars scheduler (bar_to 400 500 ∷ bar_to 600 700 ∷ []) in
    (s'.out_of_order_count ≡ 0) × (s'.clock.current_time.instant ≡ 700000000)
advance_bars-IsRising_example =
    advance_bars-IsRising scheduler 100000000 (bar_to 400 500) (bar_to 600 700 ∷ [])
      scheduler-IsBefore
      (omega arith, bar_500-IsWellFormed, (omega arith, bar_700-IsWellFormed, tt))
