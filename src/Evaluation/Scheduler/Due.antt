-- ===== src/Evaluation/Scheduler/Due.antt =====
-- The due times of the tasks: session times of the calendar, found where a trading day is near enough.
use invest_quant_system.Prelude.{ℕ, ◌+◌, ◌/◌, ◌<◌, ◌≡◌, refl, true, ap, ◌∙◌, Option, none, some}
use invest_quant_system.Prelude.Int.{ℤ, pos, negsuc}
use invest_quant_system.Prelude.Result.{ok, step-ok, bind-ok}
use invest_quant_system.Contracts.Moment.{
  Datetime, IsUtc, require_aware_utc, require_aware_utc_of_IsUtc,
}
use invest_quant_system.Calendar.{
  TradingCalendar, is_trading_day, local_time, shifted, next_evaluation_time,
}
use invest_quant_system.Calendar.Sessions.{IsOrdered}
use invest_quant_system.Calendar.Found.{
  IsNextSession, next_session_time_sound, next_session_time-IsNextSession,
}
use invest_quant_system.Evaluation.Scheduler.{within_rounds, due_time_of}

within-some : (o : Option Datetime) (r : Datetime) → within_rounds o ≡ ok r → o ≡ some r
within-some none r h = cc
within-some (some t) r h = cc

-- A trading day behind the local day of a time, within the rounds.
pub record Reaches (rounds : ℕ) (c : TradingCalendar) (t : Datetime) : Type 0 where
  pub day : ℕ
  pub trading : is_trading_day c day ≡ true
  pub later : local_time t / 86400000000 < day
  pub near : day < local_time t / 86400000000 + rounds

module _ (rounds : ℕ) (c : TradingCalendar) (o : IsOrdered c) where
  pub due_time_of-IsNextSession :
      (t r : Datetime) (h : ℤ) → due_time_of rounds c t h ≡ ok r → IsNextSession c o (shifted t h) r
  unfolding due_time_of next_evaluation_time
  due_time_of-IsNextSession t r h p =
      let (x, q, k) = bind-ok (next_evaluation_time rounds c t h) within_rounds r p in
      let (_, e) = step-ok (require_aware_utc t "event_time") _ x q in
      next_session_time_sound c o rounds (shifted t h) r (e ∙ ap ok (within-some x r k))

  shifted-IsUtc : (t : Datetime) (h : ℤ) → IsUtc t → IsUtc (shifted t h)
  shifted-IsUtc t (pos h) u = u
  shifted-IsUtc t (negsuc h) u = u

  pub due_time_of_found :
      (t : Datetime) (h : ℤ)
      → IsUtc t
      → Reaches rounds c (shifted t h)
      → (r : Datetime) × (due_time_of rounds c t h ≡ ok r)
  unfolding due_time_of next_evaluation_time
  due_time_of_found t h u n =
      let (r, e, i) =
        next_session_time-IsNextSession c o rounds (shifted t h) n.day (shifted-IsUtc t h u)
          n.trading n.later n.near in
      (r, rw (require_aware_utc_of_IsUtc t "event_time" u) (rw e refl))
