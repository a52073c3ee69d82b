-- ===== src/Portfolio/Position/Laws.antt =====
-- What adding and subtracting do to each quantity.
use invest_quant_system.Prelude.{String, ◌≡◌, ite, arith}
use invest_quant_system.Prelude.Tests.{String_discrete}
use invest_quant_system.Prelude.Int.{pos, ◌+ℤ◌, ◌-ℤ◌, ◌≤ℤ◌, ◌<ℤ◌, int_laws}
use invest_quant_system.Prelude.Decimal.{Decimal}
use invest_quant_system.Prelude.Dict
use invest_quant_system.Prelude.Dict.{get-put, get-del}
use invest_quant_system.Prelude.Result.{ok, err, value_error}
use invest_quant_system.Portfolio.Position.{Positions, quantity_of, store, add, subtract}

-- A stored quantity is read back under its own symbol, zero included, and under no other.
pub quantity_of-store :
    (ps : Positions) (s t : String) (q : Decimal)
    → quantity_of (store ps s q) t ≡ ite (String_discrete s t) q (quantity_of ps t)
unfolding quantity_of store
quantity_of-store ps s t q = ground (
  arith,
  get-put String_discrete ps s t q,
  get-del String_discrete (Dict.put String_discrete ps s q) s t,
)

pub quantity_of-add :
    (ps : Positions) (s t : String) (q : Decimal)
    → quantity_of (add ps s q) t
      ≡ ite (String_discrete s t) (quantity_of ps s +ℤ q) (quantity_of ps t)
unfolding add
quantity_of-add ps s t q = quantity_of-store ps s t (quantity_of ps s +ℤ q)

-- A subtraction that goes through lowers one quantity, which covered it.
pub quantity_of-subtract :
    (ps : Positions) (s t : String) (q : Decimal) (ps' : Positions)
    → subtract ps s q ≡ ok ps'
    → quantity_of ps' t ≡ ite (String_discrete s t) (quantity_of ps s -ℤ q) (quantity_of ps t)
unfolding subtract
quantity_of-subtract ps s t q ps' h =
    ground (arith, quantity_of-store ps s t (quantity_of ps s -ℤ q))

-- A position is never negative.
abbrev pub IsLong : Positions → Type 0
IsLong ps = (s : String) → pos 0 ≤ℤ quantity_of ps s

pub add-IsLong :
    (ps : Positions) (s : String) (q : Decimal) → pos 0 ≤ℤ q → IsLong ps → IsLong (add ps s q)
add-IsLong ps s q nonneg h t = grind (int_laws, h s, h t, quantity_of-add ps s t q)

-- The guard keeps the position long, whatever the sign of the quantity.
pub subtract-IsLong :
    (ps : Positions) (s : String) (q : Decimal) (ps' : Positions)
    → subtract ps s q ≡ ok ps'
    → IsLong ps
    → IsLong ps'
unfolding subtract
subtract-IsLong ps s q ps' e h t =
    grind (int_laws, h s, h t, quantity_of-store ps s t (quantity_of ps s -ℤ q))

-- What is not covered is refused.
pub subtract_of_lt :
    (ps : Positions) (s : String) (q : Decimal)
    → quantity_of ps s <ℤ q
    → subtract ps s q ≡ err (value_error "cannot subtract from position")
unfolding subtract
subtract_of_lt ps s q h = ground arith

pub subtract_of_le :
    (ps : Positions) (s : String) (q : Decimal)
    → q ≤ℤ quantity_of ps s
    → subtract ps s q ≡ ok (store ps s (quantity_of ps s -ℤ q))
unfolding subtract
subtract_of_le ps s q h = ground arith
