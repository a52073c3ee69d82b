-- ===== src/Portfolio/Paper/Long.antt =====
-- The paper portfolio never opens a short position.
use invest_quant_system.Prelude.{String, inl, inr, Option, none, some, arith}
use invest_quant_system.Prelude.Tests.{String_discrete, Bool-cases, if◌then◌else◌}
use invest_quant_system.Prelude.Int.{pos, ◌≤ℤ◌, min_ℤ, leb_ℤ, int_laws}
use invest_quant_system.Prelude.Decimal.{Decimal}
use invest_quant_system.Prelude.Dict
use invest_quant_system.Prelude.Dict.{contains, get-put}
use invest_quant_system.Contracts.Signals.{SignalEvent, SignalAction}
use invest_quant_system.Contracts.Portfolio.{OrderSide}
use invest_quant_system.Portfolio.Position.{Positions, quantity_of}
use invest_quant_system.Portfolio.Position.Laws.{IsLong}
use invest_quant_system.Portfolio.Paper.{
  PaperPortfolio, size_for, held_after, execute, paper_id, apply_signal,
}

-- A size that keeps a position of `held` from going below zero.
abbrev IsCoveredSize : Decimal → Option (OrderSide × Decimal) → Type 0
IsCoveredSize held none = Unit
IsCoveredSize held (some (side, quantity)) = pos 0 ≤ℤ held_after side held quantity

sale-IsCoveredSize :
    (held default : Decimal)
    → pos 0 ≤ℤ held
    → IsCoveredSize held (
        if leb_ℤ (min_ℤ held default) (pos 0)
        then none
        else some (OrderSide.sell, min_ℤ held default))
sale-IsCoveredSize held default h = elim (Bool-cases (leb_ℤ (min_ℤ held default) (pos 0))) [
  | inl e ↦ rw e tt
  | inr e ↦ rw e (grind (int_laws, h))
]

size_for-IsCoveredSize :
    (a : SignalAction) (held default : Decimal)
    → pos 0 ≤ℤ held
    → pos 0 ≤ℤ default
    → IsCoveredSize held (size_for a held default)
unfolding size_for
size_for-IsCoveredSize SignalAction.hold held default h d = tt
size_for-IsCoveredSize SignalAction.buy held default h d = grind (int_laws, h, d)
size_for-IsCoveredSize SignalAction.reduce_long held default h d = sale-IsCoveredSize held default h
size_for-IsCoveredSize SignalAction.clear_long held default h d = sale-IsCoveredSize held default h
size_for-IsCoveredSize SignalAction.risk_avoid held default h d = sale-IsCoveredSize held default h

put-IsLong :
    (ps : Positions) (s : String) (q : Decimal)
    → pos 0 ≤ℤ q
    → IsLong ps
    → IsLong (Dict.put String_discrete ps s q)
unfolding quantity_of
put-IsLong ps s q nonneg h t = ground (arith, h t, get-put String_discrete ps s t q)

execute-IsLong :
    (digest : String → String → String → String) (o : Option (OrderSide × Decimal))
    (p : PaperPortfolio) (s : SignalEvent) (price : Decimal)
    → IsCoveredSize (quantity_of p.positions s.symbol) o
    → IsLong p.positions
    → IsLong (execute digest o p s price).1.positions
execute-IsLong digest none p s price c h = h
execute-IsLong digest (some (side, quantity)) p s price c h =
    elim (Bool-cases (contains String_discrete p.fills (paper_id digest p "fill" s.signal_id))) [
      | inl known ↦ rw known h
      | inr new ↦ rw new (
          put-IsLong p.positions s.symbol
            (held_after side (quantity_of p.positions s.symbol) quantity) c h)
    ]

-- With a default quantity that is not negative, `apply_signal` never leaves a negative position,
-- whatever the signal and the price.
pub apply_signal-IsLong :
    (digest : String → String → String → String) (p : PaperPortfolio) (s : SignalEvent)
    (price : Decimal)
    → pos 0 ≤ℤ p.default_quantity
    → IsLong p.positions
    → IsLong (apply_signal digest p s price).1.positions
unfolding apply_signal
apply_signal-IsLong digest p s price d h =
    execute-IsLong digest
      (size_for s.signal_action (quantity_of p.positions s.symbol) p.default_quantity) p s price
      (size_for-IsCoveredSize s.signal_action (quantity_of p.positions s.symbol) p.default_quantity
        (h s.symbol) d)
      h
