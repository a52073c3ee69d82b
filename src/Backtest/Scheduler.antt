-- ===== src/Backtest/Scheduler.antt =====
-- backtest/scheduler.py: the clock of a run and the order of its bars.
pub mod Sorted
pub mod Late
pub mod Monotone
use invest_quant_system.Prelude.{
  ℕ, ◌+◌, String, Bool, true, false, Option, none, some, List, [], ◌∷◌, ◌≡◌,
}
use invest_quant_system.Prelude.Tests.{ltb, if◌then◌else◌}
use invest_quant_system.Prelude.Text.{leb_text}
use invest_quant_system.Prelude.Sort.{sort}
use invest_quant_system.Prelude.Result.{Result, ok, err, ◌>>=◌}
use invest_quant_system.Contracts.Moment.{Datetime, ltb_time}
use invest_quant_system.Contracts.Market.Bar
use invest_quant_system.Contracts.Market.Bar.{MarketBar}
use invest_quant_system.Clock.{VirtualClock, advance_to}

pub record BacktestScheduler : Type 0 where
  pub clock : VirtualClock
  pub last_time : Option Datetime
  pub out_of_order_count : ℕ
  pub last_warning_code : String

-- What a call returned or raised, and the scheduler that it leaves.
abbrev pub Outcome : Type 0
Outcome = Result Datetime × BacktestScheduler

-- `_last_time is not None and bar.market_data_time < _last_time`
abbrev pub is_late : Option Datetime → Datetime → Bool
is_late none t = false
is_late (some last) t = ltb_time t last

abbrev pub count_late : BacktestScheduler → Datetime → BacktestScheduler
count_late s t = record s {
  out_of_order_count = s.out_of_order_count + 1;
  last_warning_code = "OUT_OF_ORDER_BAR";
  last_time = some t;
}

-- behind `clock.advance_to`
abbrev pub arrive : Result VirtualClock → BacktestScheduler → Outcome
arrive (err e) s = (err e, s)
arrive (ok c) s = (ok c.current_time, record s { clock = c; last_time = some c.current_time })

-- behind the validation of the bar
abbrev pub advance_checked : Result (Unit {0}) → BacktestScheduler → Datetime → Outcome
advance_checked (err e) s t = (err e, s)
advance_checked (ok _) s t =
    if is_late s.last_time t
    then (ok s.clock.current_time, count_late s t)
    else arrive (advance_to s.clock t) s

unfoldable pub advance_to_bar : BacktestScheduler → MarketBar → Outcome
advance_to_bar s bar = advance_checked (Bar.validate bar true) s bar.market_data_time

-- on to the rest of the bars, unless the last raised
abbrev pub proceed : Outcome → BacktestScheduler → BacktestScheduler
proceed (err e, s) rest = s
proceed (ok t, s) rest = rest

-- the bars of a run one after another, up to the first that raises
unfoldable pub advance_bars : BacktestScheduler → List MarketBar → BacktestScheduler
unfolding advance_to_bar
advance_bars s [] = s
advance_bars s (b ∷ bs) =
    let outcome = advance_to_bar s b in let rest = advance_bars outcome.1 bs in proceed outcome rest

-- `(market_data_time, symbol)` of one bar is not after that of the other
unfoldable pub key_le : MarketBar → MarketBar → Bool
key_le a b =
    if ltb_time a.market_data_time b.market_data_time
    then true
    else if ltb_time b.market_data_time a.market_data_time
    then false
    else leb_text a.symbol b.symbol

unfoldable pub stable_sort_bars : List MarketBar → List MarketBar
unfolding key_le
stable_sort_bars = sort key_le
