-- ===== src/Portfolio/Settlement.antt =====
-- portfolio/settlement.py: the lots that were bought, and when each settles.
pub mod Laws
use invest_quant_system.Prelude.{ℕ, String, Bool, ◌&&◌, ite, true, false, List, [], ◌∷◌, ◌++◌}
use invest_quant_system.Prelude.Tests.{if◌then◌else◌, String_discrete}
use invest_quant_system.Prelude.Lists.{length}
use invest_quant_system.Prelude.Int.{pos, ◌+ℤ◌}
use invest_quant_system.Prelude.Decimal.{Decimal}
use invest_quant_system.Prelude.Sort.{keep}
use invest_quant_system.Contracts.Moment.{Datetime, leb_time, ltb_time}

pub record SettlementRecord : Type 0 where
  pub symbol : String
  pub buy_date : Datetime
  pub settle_date : Datetime
  pub quantity : Decimal

-- `r.symbol == symbol and r.settle_date <= as_of`
abbrev pub is_settled : String → Datetime → SettlementRecord → Bool
is_settled symbol as_of r =
    ite (String_discrete r.symbol symbol) (leb_time r.settle_date as_of) false

-- the sum of the settled quantities of a symbol, from the left
unfoldable pub settled_from : Decimal → List SettlementRecord → String → Datetime → Decimal
settled_from total [] symbol as_of = total
settled_from total (r ∷ rs) symbol as_of =
    settled_from (if is_settled symbol as_of r then total +ℤ r.quantity else total) rs symbol as_of

unfoldable pub settled_in : List SettlementRecord → String → Datetime → Decimal
settled_in = settled_from (pos 0)

pub record Settlement : Type 0 where
  pub pending : List SettlementRecord

abbrev pub new_settlement : Settlement
new_settlement = record { pending = [] }

unfoldable pub add : Settlement → SettlementRecord → Settlement
add s r = record { pending = s.pending ++ r ∷ [] }

-- `Settlement.settle`: the lots that settle after `as_of` stay
unfoldable pub settle : Settlement → Datetime → Settlement
settle s as_of = record { pending = keep (λ r. ltb_time as_of r.settle_date) s.pending }

unfoldable pub sellable_quantity : Settlement → String → Datetime → Decimal
sellable_quantity s symbol as_of = settled_in s.pending symbol as_of

unfoldable pub pending_count : Settlement → ℕ
pending_count s = length s.pending
