-- ===== src/Prelude/Decimal.antt =====
-- Python's `Decimal`, read as a whole number of units of 10^-28, which is the number of digits of
-- the default context. Sums, differences and comparisons are exact; a product or a quotient is
-- rounded to the unit, half to even, as the context rounds.
use Prim.Native.Nat.{ℕ, zero, suc, ◌+◌, ◌*◌, ◌/◌, ◌%◌, ◌^◌}
use mathlib.Core.Path.{◌≡◌, refl}
use mathlib.Core.Bool.{Bool, true, false, xor}
use mathlib.Core.Option.{Option, none, some}
use native.Mathlib.Omega.{arith}
use invest_quant_system.Prelude.Tests.{ltb, ◌==◌, if◌then◌else◌}
use invest_quant_system.Prelude.Int.{ℤ, pos, negsuc, pos_part, neg_part, is_negative, ◌≤ℤ◌}

abbrev pub Decimal : Type 0
Decimal = ℤ

abbrev pub one_unit : ℕ
one_unit = 10 ^ 28

-- `Decimal(n)`, `Decimal("n")` for a whole number, and `Decimal("n.…")` with `k` digits behind the point
abbrev pub whole : ℕ → Decimal
whole n = pos (n * one_unit)

abbrev pub digits_behind : ℕ → ℕ → Decimal
digits_behind n k = pos (n * one_unit / 10 ^ k)

-- the nearest whole number to n / d, half to even
unfoldable pub round_half_even : ℕ → ℕ → ℕ
round_half_even n d =
    if ltb (2 * (n % d)) d
    then n / d
    else if ltb d (2 * (n % d))
    then n / d + 1
    else n / d + n / d % 2

abbrev pub magnitude : ℤ → ℕ
magnitude a = pos_part a + neg_part a

abbrev pub signed : Bool → ℕ → ℤ
signed true (suc n) = negsuc n
signed true zero = pos 0
signed false n = pos n

unfoldable pub mul_dec : Decimal → Decimal → Decimal
unfolding round_half_even xor
mul_dec a b =
    signed (xor (is_negative a) (is_negative b))
      (round_half_even (magnitude a * magnitude b) one_unit)

-- `a / b`; `none` where Python raises `DivisionByZero` or `InvalidOperation`
unfoldable pub div_dec : Decimal → Decimal → Option Decimal
unfolding round_half_even xor
div_dec a b =
    if magnitude b == 0
    then none
    else some (
        signed (xor (is_negative a) (is_negative b))
          (round_half_even (magnitude a * one_unit) (magnitude b)))

pub mul_dec_nonneg : (a b : Decimal) → pos 0 ≤ℤ a → pos 0 ≤ℤ b → pos 0 ≤ℤ mul_dec a b
unfolding mul_dec
mul_dec_nonneg (pos m) (pos n) ha hb = omega arith
mul_dec_nonneg (negsuc m) b ha hb = absurd (omega arith)
mul_dec_nonneg (pos m) (negsuc n) ha hb = absurd (omega arith)

price_times_lot : mul_dec (digits_behind 1025 2) (whole 100) ≡ whole 1025
unfolding mul_dec
price_times_lot = refl

third : div_dec (whole 1) (whole 3) ≡ some (pos 3333333333333333333333333333)
unfolding div_dec
third = refl
