-- ===== src/Backtest/Scheduler/Late.antt =====
-- Bars that come in order and bars that come late.
use invest_quant_system.Prelude.{
  ℕ, ◌<◌, ◌≤◌, ◌≡◌, refl, ap, ◌∙◌, Option, none, some, true, false, List, [], ◌∷◌, arith,
}
use invest_quant_system.Prelude.Result.{Result, ok, err, market_data_validation}
use invest_quant_system.Contracts.Moment.{Datetime, IsUtc, require_aware_utc_of_IsUtc}
use invest_quant_system.Contracts.Market.Bar.{MarketBar}
use invest_quant_system.Contracts.Market.Bar.Valid.{IsWellFormed, validate-IsWellFormed_iff}
use invest_quant_system.Clock.{VirtualClock, advance_to, visit}
use invest_quant_system.MarketData.Repository.{bar_instant}
use invest_quant_system.MarketData.Replay.Order.{IsRising}
use invest_quant_system.Backtest.Scheduler.{
  BacktestScheduler, is_late, count_late, arrive, advance_to_bar, advance_bars, proceed, Outcome,
}

-- A well-formed bar is dated in UTC.
bar-IsUtc : (b : MarketBar) → IsWellFormed b → IsUtc b.market_data_time
bar-IsUtc b w = w.times.1.1.0

-- `advance_to` a UTC time that is behind the clock, and one that is ahead of it.
jump_back :
    (c : VirtualClock) (t : Datetime)
    → IsUtc t
    → t.instant < c.current_time.instant
    → advance_to c t ≡ err (market_data_validation "VirtualClock cannot jump backwards")
unfolding advance_to
jump_back c t u h = rw (require_aware_utc_of_IsUtc t "target" u) (ground arith)

jump_ahead :
    (c : VirtualClock) (t : Datetime)
    → IsUtc t
    → c.current_time.instant < t.instant
    → advance_to c t ≡ ok (visit c t)
unfolding advance_to
jump_ahead c t u h = rw (require_aware_utc_of_IsUtc t "target" u) (ground arith)

advance_late :
    (s : BacktestScheduler) (b : MarketBar)
    → IsWellFormed b
    → is_late s.last_time b.market_data_time ≡ true
    → advance_to_bar s b ≡ (ok s.clock.current_time, count_late s b.market_data_time)
unfolding advance_to_bar
advance_late s b w late = rw ((validate-IsWellFormed_iff b).1 w, late) refl

advance_in_order :
    (s : BacktestScheduler) (b : MarketBar)
    → IsWellFormed b
    → is_late s.last_time b.market_data_time ≡ false
    → advance_to_bar s b ≡ arrive (advance_to s.clock b.market_data_time) s
unfolding advance_to_bar
advance_in_order s b w early = rw ((validate-IsWellFormed_iff b).1 w, early) refl

-- A late bar lowers the time that later bars are compared with, and leaves the clock: a further
-- well-formed bar that is not before the late one, but before the clock, is not counted as late and
-- raises.
late_bar_raises :
    (s : BacktestScheduler) (last : Datetime) (b b' : MarketBar)
    → IsWellFormed b
    → IsWellFormed b'
    → s.last_time ≡ some last
    → b.market_data_time.instant < last.instant
    → b.market_data_time.instant ≤ b'.market_data_time.instant
    → b'.market_data_time.instant < s.clock.current_time.instant
    → let s' = (advance_to_bar s b).1 in
      advance_to_bar s' b' ≡ (err (market_data_validation "VirtualClock cannot jump backwards"), s')
late_bar_raises s last b b' w w' held late next before =
    let counted = count_late s b.market_data_time in
    let is_late_b : is_late s.last_time b.market_data_time ≡ true = rw held (ground arith) in
    rw
      (
        advance_late s b w is_late_b,
        advance_in_order counted b' w' (ground arith),
        jump_back s.clock b'.market_data_time (bar-IsUtc b' w') before,
      )
      refl

-- The clock and the time of the last bar are both at or before a time.
pub record IsBefore (s : BacktestScheduler) (t : ℕ) : Type 0 where
  pub clock : s.clock.current_time.instant ≤ t
  pub last : (l : Datetime) → s.last_time ≡ some l → l.instant ≤ t

abbrev pub last_instant : ℕ → List MarketBar → ℕ
last_instant t [] = t
last_instant t (b ∷ bs) = last_instant (bar_instant b) bs

not_late :
    (o : Option Datetime) (t : Datetime) (p : ℕ)
    → ((l : Datetime) → o ≡ some l → l.instant ≤ p)
    → p < t.instant
    → is_late o t ≡ false
not_late none t p h later = refl
not_late (some l) t p h later = ground (arith, h l refl)

ahead : {a b c : ℕ} → a ≤ b → b < c → a < c
ahead p q = omega arith

-- What one bar ahead of the clock leaves.
abbrev arrived : BacktestScheduler → MarketBar → BacktestScheduler
arrived s b = record s {
  clock = visit s.clock b.market_data_time;
  last_time = some b.market_data_time;
}

advance_ahead :
    (s : BacktestScheduler) (b : MarketBar) (p : ℕ)
    → IsWellFormed b
    → IsBefore s p
    → p < bar_instant b
    → advance_to_bar s b ≡ (ok b.market_data_time, arrived s b)
advance_ahead s b p w before later =
    advance_in_order s b w (not_late s.last_time b.market_data_time p before.last later)
    ∙ ap (λ (r : Result VirtualClock). arrive r s)
        (jump_ahead s.clock b.market_data_time (bar-IsUtc b w) (ahead before.clock later))

advance_bars-cons :
    (s : BacktestScheduler) (b : MarketBar) (bs : List MarketBar) (p : ℕ)
    → IsWellFormed b
    → IsBefore s p
    → p < bar_instant b
    → advance_bars s (b ∷ bs) ≡ advance_bars (arrived s b) bs
unfolding advance_bars
advance_bars-cons s b bs p w before later =
    ap (λ (o : Outcome). proceed o (advance_bars o.1 bs)) (advance_ahead s b p w before later)

arrived-IsBefore : (s : BacktestScheduler) (b : MarketBar) → IsBefore (arrived s b) (bar_instant b)
arrived-IsBefore s b = record { clock = omega arith; last = λ l h. ground arith }

-- Well-formed bars of strictly rising times, all after the clock and the last bar, are all taken:
-- none is counted as late, and in the end the clock shows the time of the last.
pub advance_bars-IsRising :
    (s : BacktestScheduler) (p : ℕ) (b : MarketBar) (bs : List MarketBar)
    → IsBefore s p
    → IsRising (some p) (b ∷ bs)
    → ((advance_bars s (b ∷ bs)).out_of_order_count ≡ s.out_of_order_count)
      × ((advance_bars s (b ∷ bs)).clock.current_time.instant ≡ last_instant (bar_instant b) bs)
unfolding advance_bars
advance_bars-IsRising s p b [] before (later, w, rest) =
    rw (advance_ahead s b p w before later) (refl, refl)
advance_bars-IsRising s p b (c ∷ cs) before (later, w, rest) =
    rw (advance_bars-cons s b (c ∷ cs) p w before later)
      (advance_bars-IsRising (arrived s b) (bar_instant b) c cs (arrived-IsBefore s b) rest)
