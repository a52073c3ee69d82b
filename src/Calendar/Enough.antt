-- ===== src/Calendar/Enough.antt =====
-- How many rounds the search for a session takes at most.
use invest_quant_system.Prelude.{
  ℕ, zero, suc, ◌+◌, ◌*◌, ◌%◌, ◌≤◌, ◌<◌, ◌≡◌, refl, ap, sym, ◌∙◌, ◌⊎◌, inl, inr, true, Option, some,
  arith,
}
use invest_quant_system.Prelude.Tests.{leb, Bool-cases, if◌then◌else◌}
use invest_quant_system.Calendar.{TradingCalendar, is_trading_day, next_from}
use invest_quant_system.Calendar.Sessions.{same_or_later}

module _ (c : TradingCalendar) where
  -- the trading day's part of the loop, when its own rest finds one
  open_day-some :
      (day local : ℕ) (rest : Option ℕ)
      → (local ≤ day * 86400000000) ⊎ ((next : ℕ) × (rest ≡ some next))
      → (next : ℕ) × ((if leb local (day * 86400000000 + c.morning_start)
            then some (day * 86400000000 + c.morning_start)
            else if leb (local % 86400000000) c.morning_end
            then some local
            else if leb local (day * 86400000000 + c.afternoon_start)
            then some (day * 86400000000 + c.afternoon_start)
            else if leb local (day * 86400000000 + c.afternoon_end)
            then some local
            else rest)
          ≡ some next)
  open_day-some day local rest (inl early) =
      let e : leb local (day * 86400000000 + c.morning_start) ≡ true = ground arith in
      (day * 86400000000 + c.morning_start, rw e refl)
  open_day-some day local rest (inr (next, k)) =
      elim (Bool-cases (leb local (day * 86400000000 + c.morning_start))) [
        | inl e ↦ (day * 86400000000 + c.morning_start, rw e refl)
        | inr e ↦ elim (Bool-cases (leb (local % 86400000000) c.morning_end)) [
          | inl f ↦ (local, rw (e, f) refl)
          | inr f ↦ elim (Bool-cases (leb local (day * 86400000000 + c.afternoon_start))) [
            | inl g ↦ (day * 86400000000 + c.afternoon_start, rw (e, f, g) refl)
            | inr g ↦ elim (Bool-cases (leb local (day * 86400000000 + c.afternoon_end))) [
              | inl i ↦ (local, rw (e, f, g, i) refl)
              | inr i ↦ (next, rw (e, f, g, i) k)
            ]
          ]
        ]
      ]

  -- Rounds up to a trading day that the local time is not past are enough.
  pub next_from-some :
      (n day local d : ℕ)
      → local ≤ d * 86400000000
      → is_trading_day c d ≡ true
      → day ≤ d
      → d < day + n
      → (next : ℕ) × (next_from n c day local ≡ some next)
  unfolding next_from
  next_from-some zero day local d le trading p q = absurd (omega arith)
  next_from-some (suc n) day local d le trading p q = elim (same_or_later day d p) [
    | inl e ↦
        let t : is_trading_day c day ≡ true = ap (is_trading_day c) (sym e) ∙ trading in
        let b : local ≤ day * 86400000000 = omega (arith, e, le) in
        rw t (open_day-some day local (next_from n c (day + 1) ((day + 1) * 86400000000)) (inl b))
    | inr l ↦ elim (Bool-cases (is_trading_day c day)) [
      | inr closed ↦ rw closed (next_from-some n (day + 1) local d le trading l (omega arith))
      | inl open_ ↦ rw open_ (
          open_day-some day local (next_from n c (day + 1) ((day + 1) * 86400000000)) (
            inr (
              next_from-some n (day + 1) ((day + 1) * 86400000000) d (omega arith) trading l
                (omega arith))))
    ]
  ]
