-- ===== src/Backtest/Scheduler/Monotone.antt =====
-- The clock of a run.
use invest_quant_system.Prelude.{◌≤◌, inl, inr, true, List, [], ◌∷◌, arith}
use invest_quant_system.Prelude.Tests.{Bool-cases}
use invest_quant_system.Prelude.Result.{Result, ok, err}
use invest_quant_system.Contracts.Moment.{Datetime}
use invest_quant_system.Contracts.Market.Bar
use invest_quant_system.Contracts.Market.Bar.{MarketBar}
use invest_quant_system.Clock.{VirtualClock, advance_to, call, jump_to, settle_call}
use invest_quant_system.Clock.Monotone.{IsConsistent, call-IsConsistent}
use invest_quant_system.Backtest.Scheduler.{
  BacktestScheduler, is_late, arrive, advance_checked, advance_to_bar, advance_bars, proceed,
  Outcome,
}

arrive-IsConsistent :
    (r : Result VirtualClock) (s : BacktestScheduler)
    → IsConsistent s.clock
    → IsConsistent (settle_call s.clock r)
      × (s.clock.current_time.instant ≤ (settle_call s.clock r).current_time.instant)
    → let s' = (arrive r s).1 in
      IsConsistent s'.clock × (s.clock.current_time.instant ≤ s'.clock.current_time.instant)
arrive-IsConsistent (err e) s h k = (h, omega arith)
arrive-IsConsistent (ok c) s h k = k

step-IsConsistent :
    (r : Result (Unit {0})) (s : BacktestScheduler) (t : Datetime)
    → IsConsistent s.clock
    → let s' = (advance_checked r s t).1 in
      IsConsistent s'.clock × (s.clock.current_time.instant ≤ s'.clock.current_time.instant)
step-IsConsistent (err e) s t h = (h, omega arith)
step-IsConsistent (ok u) s t h = elim (Bool-cases (is_late s.last_time t)) [
  | inl late ↦ rw late (h, omega arith)
  | inr early ↦ rw early (
      arrive-IsConsistent (advance_to s.clock t) s h
        (unfold call in call-IsConsistent s.clock (jump_to t) h))
]

abbrev pub IsOnward : BacktestScheduler → BacktestScheduler → Type 0
IsOnward s s' =
    IsConsistent s'.clock × (s.clock.current_time.instant ≤ s'.clock.current_time.instant)

proceed-IsOnward :
    (s : BacktestScheduler) (o : Outcome) (rest : BacktestScheduler)
    → IsOnward s o.1
    → IsOnward s rest
    → IsOnward s (proceed o rest)
proceed-IsOnward s (err e, s') rest x y = x
proceed-IsOnward s (ok t, s') rest x y = y

bar-IsOnward :
    (s : BacktestScheduler) (b : MarketBar)
    → IsConsistent s.clock
    → IsOnward s (advance_to_bar s b).1
unfolding advance_to_bar
bar-IsOnward s b h = step-IsConsistent (Bar.validate b true) s b.market_data_time h

IsOnward-trans : (a b c : BacktestScheduler) → IsOnward a b → IsOnward b c → IsOnward a c
IsOnward-trans a b c x y = (y.0, omega arith)

-- Whatever the bars of a run, valid or not, late or not, the history of its clock ascends up to the
-- current time, which is not before where it started.
advance_bars-IsOnward :
    (s : BacktestScheduler) (bs : List MarketBar)
    → IsConsistent s.clock
    → IsOnward s (advance_bars s bs)
unfolding advance_bars
advance_bars-IsOnward s [] h = (h, omega arith)
advance_bars-IsOnward s (b ∷ bs) h =
    let s' = (advance_to_bar s b).1 in
    let x = bar-IsOnward s b h in
    proceed-IsOnward s (advance_to_bar s b) (advance_bars s' bs) x
      (IsOnward-trans s s' (advance_bars s' bs) x (advance_bars-IsOnward s' bs x.0))
