-- ===== src/Calendar/Found.antt =====
-- `next_session_time` answers the next session time, and does so if a trading day is near enough.
use invest_quant_system.Prelude.{
  ℕ, zero, suc, ◌+◌, ◌*◌, ◌/◌, ◌%◌, ◌≤◌, ◌<◌, ◌≡◌, refl, ap, sym, ◌∙◌, inl, inr, true, false,
  Option, none, some, arith,
}
use invest_quant_system.Prelude.Tests.{leb, Bool-cases, if◌then◌else◌}
use invest_quant_system.Prelude.Result.{ok, step-ok}
use invest_quant_system.Contracts.Moment.{
  Datetime, IsUtc, require_aware_utc, require_aware_utc_of_IsUtc,
}
use invest_quant_system.Calendar.{
  TradingCalendar, is_trading_day, in_session, next_from, local_time, utc_of_local, found_at,
  next_session_time,
}
use invest_quant_system.Calendar.Enough.{next_from-some}
use invest_quant_system.Calendar.Sessions.{
  IsOrdered, IsCandidate, IsNext, skip_day, closed_day, closed_hours, on_day, later_day,
  session_start, session_now, hours_before, hours_noon, hours_evening, hours_morning,
  hours_afternoon,
}

midnight-IsCandidate : (day : ℕ) → IsCandidate (day + 1) ((day + 1) * 86400000000)
midnight-IsCandidate day = inr (omega arith)

-- what is left of a trading day after its last session is closed
evening_closed :
    (c : TradingCalendar) (day local u : ℕ)
    → IsOrdered c
    → day * 86400000000 + c.afternoon_end < local
    → local ≤ u
    → u / 86400000000 ≡ day
    → in_session c u ≡ false
evening_closed c day local u o late p e =
    closed_hours c u (hours_evening c (u % 86400000000) o (omega arith))

-- on the same day, no earlier than a time past the morning
after_morning :
    {morning_end afternoon_start afternoon_end : ℕ} (day local u : ℕ)
    → local / 86400000000 ≡ day
    → leb (local % 86400000000) morning_end ≡ false
    → local ≤ u
    → day * 86400000000 ≤ u
    → u < day * 86400000000 + afternoon_start
    → morning_end < afternoon_start
    → afternoon_start ≤ afternoon_end
    → afternoon_end < 86400000000
    → morning_end < u % 86400000000
after_morning day local u d past p q r noon afternoon evening = ground arith

module _ (c : TradingCalendar) (o : IsOrdered c) where
  -- the trading day's part of the loop
  open_day :
      (day local next : ℕ) (rest : Option ℕ)
      → IsCandidate day local
      → is_trading_day c day ≡ true
      → (rest ≡ some next → IsNext c (day + 1) ((day + 1) * 86400000000) next)
      → (if leb local (day * 86400000000 + c.morning_start)
          then some (day * 86400000000 + c.morning_start)
          else if leb (local % 86400000000) c.morning_end
          then some local
          else if leb local (day * 86400000000 + c.afternoon_start)
          then some (day * 86400000000 + c.afternoon_start)
          else if leb local (day * 86400000000 + c.afternoon_end)
          then some local
          else rest)
        ≡ some next
      → IsNext c day local next
  open_day day local next rest cand trading ih h =
      elim (Bool-cases (leb local (day * 86400000000 + c.morning_start))) [
        | inl early ↦
            let e : day * 86400000000 + c.morning_start ≡ next = cc (rw early at h) in
            rw (sym e) (
              session_start c day local c.morning_start
                (omega (arith, o.morning, o.noon, o.afternoon, o.evening)) trading
                (hours_morning c c.morning_start (omega arith) o.morning) (ground arith)
                (λ u p q r.
                  hours_before c (u % 86400000000) o
                    (omega (arith, o.morning, o.noon, o.afternoon, o.evening))))
        | inr begun ↦
            let d = on_day day local cand (ground arith) in
            elim (Bool-cases (leb (local % 86400000000) c.morning_end)) [
              | inl now ↦
                  let e : local ≡ next = cc (rw (begun, now) at h) in
                  rw (sym e) (
                    session_now c day local d trading
                      (hours_morning c (local % 86400000000) (ground arith) (ground arith)))
              | inr past ↦ elim (Bool-cases (leb local (day * 86400000000 + c.afternoon_start))) [
                | inl noon ↦
                    let e : day * 86400000000 + c.afternoon_start ≡ next =
                      cc (rw (begun, past, noon) at h) in
                    rw (sym e) (
                      session_start c day local c.afternoon_start
                        (omega (arith, o.afternoon, o.evening)) trading
                        (hours_afternoon c c.afternoon_start (omega arith) o.afternoon)
                        (ground arith)
                        (λ u p q r.
                          hours_noon c (u % 86400000000) o
                            (after_morning day local u d past p q r o.noon o.afternoon o.evening)
                            (omega (arith, o.afternoon, o.evening))))
                | inr on ↦ elim (Bool-cases (leb local (day * 86400000000 + c.afternoon_end))) [
                  | inl now ↦
                      let e : local ≡ next = cc (rw (begun, past, on, now) at h) in
                      rw (sym e) (
                        session_now c day local d trading
                          (hours_afternoon c (local % 86400000000) (ground arith) (ground arith)))
                  | inr over ↦
                      later_day c day local ((day + 1) * 86400000000) next (omega arith)
                        (λ u p e. evening_closed c day local u o (ground arith) p e)
                        (λ u p l. omega arith) (ih (rw (begun, past, on, over) at h))
                ]
              ]
            ]
      ]

  next_from-IsNext :
      (n day local next : ℕ)
      → IsCandidate day local
      → next_from n c day local ≡ some next
      → IsNext c day local next
  unfolding next_from
  next_from-IsNext zero day local next cand h = cc
  next_from-IsNext (suc n) day local next cand h = elim (Bool-cases (is_trading_day c day)) [
    | inr closed ↦
        later_day c day local local next (omega arith) (λ u p e. closed_day c u day e closed)
          (λ u p l. p)
          (next_from-IsNext n (day + 1) local next (skip_day day local cand) (rw closed at h))
    | inl trading ↦
        open_day day local next (next_from n c (day + 1) ((day + 1) * 86400000000)) cand trading
          (λ k.
            next_from-IsNext n (day + 1) ((day + 1) * 86400000000) next (midnight-IsCandidate day)
              k)
          (rw trading at h)
  ]

  -- The time that `next_session_time` answers, and that it does.
  pub record IsNextSession (t r : Datetime) : Type 0 where
    pub in_utc : IsUtc r
    pub not_before : t.instant ≤ r.instant
    pub session : in_session c (local_time r) ≡ true
    pub nothing_between :
        (u : Datetime)
        → t.instant ≤ u.instant
        → u.instant < r.instant
        → in_session c (local_time u) ≡ false

  IsNext-IsNextSession :
      (t : Datetime) (next : ℕ)
      → IsNext c (local_time t / 86400000000) (local_time t) next
      → IsNextSession t (utc_of_local next)
  IsNext-IsNextSession t next i =
      let back : local_time (utc_of_local next) ≡ next = omega (arith, i.not_before) in
      record {
        in_utc = refl;
        not_before = omega (arith, i.not_before);
        session = ap (in_session c) back ∙ i.session;
        nothing_between = λ u p q.
            i.nothing_between (local_time u) (omega arith) (omega arith)
              (omega (arith, i.not_before));
      }

  found-IsNextSession :
      (t : Datetime) (o : Option ℕ) (r : Datetime)
      → ((next : ℕ) → o ≡ some next → IsNext c (local_time t / 86400000000) (local_time t) next)
      → found_at o ≡ some r
      → IsNextSession t r
  found-IsNextSession t none r i h = cc
  found-IsNextSession t (some next) r i h =
      let e : utc_of_local next ≡ r = cc in rw (sym e) (IsNext-IsNextSession t next (i next refl))

  -- Whatever the rounds, a time that `next_session_time` returns is the next session time.
  pub next_session_time_sound :
      (rounds : ℕ) (t r : Datetime) → next_session_time rounds c t ≡ ok (some r) → IsNextSession t r
  unfolding next_session_time
  next_session_time_sound rounds t r h =
      let day = local_time t / 86400000000 in
      let (_, e) = step-ok (require_aware_utc t "timestamp") _ (some r) h in
      found-IsNextSession t (next_from rounds c day (local_time t)) r
        (λ next k. next_from-IsNext rounds day (local_time t) next (inl refl) k) (cc)

  -- Of a calendar whose sessions follow one another, from a UTC time on, with a trading day later
  -- than the local day within the rounds: `next_session_time` returns a UTC time that is not before
  -- the given one, is a session time, and has no session time between.
  pub next_session_time-IsNextSession :
      (rounds : ℕ) (t : Datetime) (d : ℕ)
      → IsUtc t
      → is_trading_day c d ≡ true
      → local_time t / 86400000000 < d
      → d < local_time t / 86400000000 + rounds
      → (r : Datetime) × (next_session_time rounds c t ≡ ok (some r)) × IsNextSession t r
  unfolding next_session_time
  next_session_time-IsNextSession rounds t d u trading later near =
      let local = local_time t in
      let day = local / 86400000000 in
      let (next, e) =
        next_from-some c rounds day local d (omega arith) trading (omega arith) near in
      (
        utc_of_local next,
        rw (require_aware_utc_of_IsUtc t "timestamp" u, e) refl,
        IsNext-IsNextSession t next (next_from-IsNext rounds day local next (inl refl) e),
      )
