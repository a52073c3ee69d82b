-- ===== src/Calendar/Sessions.antt =====
-- What the loop of `next_session_time` finds: the next session time, or none within its rounds.
use invest_quant_system.Prelude.{
  ℕ, ◌+◌, ◌*◌, ◌/◌, ◌%◌, ◌≤◌, ◌<◌, ◌≡◌, refl, ◌⊎◌, inl, inr, Bool, true, false, ◌&&◌, arith,
}
use invest_quant_system.Prelude.Tests.{leb, Bool-cases}
use invest_quant_system.Calendar.{TradingCalendar, is_trading_day, in_hours, in_session}

-- The sessions follow one another within a day.
pub record IsOrdered (c : TradingCalendar) : Type 0 where
  pub morning : c.morning_start ≤ c.morning_end
  pub noon : c.morning_end < c.afternoon_start
  pub afternoon : c.afternoon_start ≤ c.afternoon_end
  pub evening : c.afternoon_end < 86400000000

-- The candidate day is that of the local time, or begins after it.
abbrev pub IsCandidate : ℕ → ℕ → Type 0
IsCandidate day local = (local / 86400000000 ≡ day) ⊎ (local ≤ day * 86400000000)

-- The next session time from `local` on, among the days from `day` on.
pub record IsNext (c : TradingCalendar) (day local next : ℕ) : Type 0 where
  pub not_before : local ≤ next
  pub session : in_session c next ≡ true
  pub nothing_between :
      (u : ℕ) → local ≤ u → day ≤ u / 86400000000 → u < next → in_session c u ≡ false

pub skip_day : (day local : ℕ) → IsCandidate day local → IsCandidate (day + 1) local
skip_day day local (inl e) = inr (omega arith)
skip_day day local (inr h) = inr (omega arith)

-- a time of a trading day, by its time of day
session_at :
    (c : TradingCalendar) (day time : ℕ)
    → time < 86400000000
    → is_trading_day c day ≡ true
    → in_hours c time ≡ true
    → in_session c (day * 86400000000 + time) ≡ true
unfolding in_session
session_at c day time small trading hours =
    let d : (day * 86400000000 + time) / 86400000000 ≡ day = omega arith in
    let t : (day * 86400000000 + time) % 86400000000 ≡ time = omega arith in
    rw (d, t, trading, hours) refl

pub closed_day :
    (c : TradingCalendar) (u day : ℕ)
    → u / 86400000000 ≡ day
    → is_trading_day c day ≡ false
    → in_session c u ≡ false
unfolding in_session
closed_day c u day e closed = rw (e, closed) refl

and_false : (a b : Bool) → b ≡ false → (a && b) ≡ false
and_false true b h = h
and_false false b h = refl

both_true : (a b : Bool) → a ≡ true → b ≡ true → (a && b) ≡ true
both_true true b p h = h
both_true false b p h = cc

pub closed_hours :
    (c : TradingCalendar) (u : ℕ) → in_hours c (u % 86400000000) ≡ false → in_session c u ≡ false
unfolding in_session
closed_hours c u h = and_false (is_trading_day c (u / 86400000000)) (in_hours c (u % 86400000000)) h

pub same_or_later : (d e : ℕ) → d ≤ e → (e ≡ d) ⊎ (d + 1 ≤ e)
same_or_later d e h = elim (Bool-cases (leb e d)) [
  | inl p ↦ inl (ground arith)
  | inr p ↦ inr (ground arith)
]

-- A local time after the beginning of the candidate day is on it.
pub on_day :
    (day local : ℕ) → IsCandidate day local → day * 86400000000 < local → local / 86400000000 ≡ day
on_day day local (inl e) h = e
on_day day local (inr b) h = absurd (omega arith)

-- The next session time from the next day on is the next from a day without what is left of it.
pub later_day :
    (c : TradingCalendar) (day local start next : ℕ)
    → local ≤ start
    → ((u : ℕ) → local ≤ u → u / 86400000000 ≡ day → in_session c u ≡ false)
    → ((u : ℕ) → local ≤ u → day + 1 ≤ u / 86400000000 → start ≤ u)
    → IsNext c (day + 1) start next
    → IsNext c day local next
later_day c day local start next le empty reach i = record {
  not_before = omega (arith, i.not_before);
  session = i.session;
  nothing_between = λ u p q r. elim (same_or_later day (u / 86400000000) q) [
    | inl e ↦ empty u p e
    | inr l ↦ i.nothing_between u (reach u p l) l r
  ];
}

-- the beginning of a session of the candidate day
pub session_start :
    (c : TradingCalendar) (day local time : ℕ)
    → time < 86400000000
    → is_trading_day c day ≡ true
    → in_hours c time ≡ true
    → local ≤ day * 86400000000 + time
    → ((u : ℕ)
        → local ≤ u
        → day * 86400000000 ≤ u
        → u < day * 86400000000 + time
        → in_hours c (u % 86400000000) ≡ false)
    → IsNext c day local (day * 86400000000 + time)
session_start c day local time small trading hours le empty = record {
  not_before = le;
  session = session_at c day time small trading hours;
  nothing_between = λ u p q r. closed_hours c u (empty u p (omega arith) r);
}

-- a local time that is in a session
pub session_now :
    (c : TradingCalendar) (day local : ℕ)
    → local / 86400000000 ≡ day
    → is_trading_day c day ≡ true
    → in_hours c (local % 86400000000) ≡ true
    → IsNext c day local local
unfolding in_session
session_now c day local e trading hours = record {
  not_before = omega arith;
  session =
      rw e (both_true (is_trading_day c day) (in_hours c (local % 86400000000)) trading hours);
  nothing_between = λ u p q r. absurd (omega arith);
}

-- The hours of a day, by where a time stands among the sessions.
pub hours_before :
    (c : TradingCalendar) (t : ℕ) → IsOrdered c → t < c.morning_start → in_hours c t ≡ false
hours_before c t o h = ground (arith, o.morning, o.noon, o.afternoon)

pub hours_noon :
    (c : TradingCalendar) (t : ℕ)
    → IsOrdered c
    → c.morning_end < t
    → t < c.afternoon_start
    → in_hours c t ≡ false
hours_noon c t o h k = ground (arith, o.morning, o.noon, o.afternoon)

pub hours_evening :
    (c : TradingCalendar) (t : ℕ) → IsOrdered c → c.afternoon_end < t → in_hours c t ≡ false
hours_evening c t o h = ground (arith, o.morning, o.noon, o.afternoon)

pub hours_morning :
    (c : TradingCalendar) (t : ℕ) → c.morning_start ≤ t → t ≤ c.morning_end → in_hours c t ≡ true
hours_morning c t h k = ground arith

pub hours_afternoon :
    (c : TradingCalendar) (t : ℕ)
    → c.afternoon_start ≤ t
    → t ≤ c.afternoon_end
    → in_hours c t ≡ true
hours_afternoon c t h k = ground arith
