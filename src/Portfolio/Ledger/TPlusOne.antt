-- ===== src/Portfolio/Ledger/TPlusOne.antt =====
-- When what was bought may be sold.
use invest_quant_system.Prelude.{◌<◌, String, ◌≡◌, refl, ◌∙◌, List, [], ◌∷◌, ◌++◌, arith}
use invest_quant_system.Prelude.Tests.{if◌then◌else◌}
use invest_quant_system.Prelude.Int.{pos, ◌+ℤ◌, ◌-ℤ◌, ◌≤ℤ◌, min_ℤ, eq_of_parts, int_laws}
use invest_quant_system.Prelude.Decimal.{Decimal}
use invest_quant_system.Prelude.Result.{ok}
use invest_quant_system.Contracts.Moment.{Datetime, leb_time}
use invest_quant_system.Contracts.Portfolio.{OrderSide, PaperFill}
use invest_quant_system.Portfolio.Position.{quantity_of}
use invest_quant_system.Portfolio.Settlement.{SettlementRecord, settled_in}
use invest_quant_system.Portfolio.Settlement.Laws.{settled_in-snoc}
use invest_quant_system.Portfolio.Ledger.{
  PortfolioLedger, lot, day_after, apply_fill, settled_quantity, get_sellable_quantity,
  get_position,
}
use invest_quant_system.Portfolio.Ledger.Accounting.{lots_after, apply_fill-IsAccounted}

-- The lot of a purchase at `t` counts from one day after `t` on, and for its symbol alone.
settled_in-lot :
    (rs : List SettlementRecord) (s : String) (t u : Datetime) (q : Decimal)
    → settled_in (rs ++ lot s t q ∷ []) s u
      ≡ (if leb_time (day_after t) u then settled_in rs s u +ℤ q else settled_in rs s u)
settled_in-lot rs s t u q = ground (arith, settled_in-snoc rs (lot s t q) s u)

-- What a fill adds to the settled quantity of its symbol.
abbrev pub settled_after : OrderSide → Decimal → Decimal → Datetime → Datetime → Decimal
settled_after OrderSide.buy settled quantity t u =
    if leb_time (day_after t) u then settled +ℤ quantity else settled
settled_after OrderSide.sell settled quantity t u = settled

settled_in-lots_after :
    (side : OrderSide) (rs : List SettlementRecord) (s : String) (t u : Datetime) (q : Decimal)
    → settled_in (lots_after side rs s t q) s u ≡ settled_after side (settled_in rs s u) q t u
settled_in-lots_after OrderSide.buy rs s t u q = settled_in-lot rs s t u q
settled_in-lots_after OrderSide.sell rs s t u q = refl

-- A purchase at `t` that goes through adds its quantity to the settled quantity of its symbol from one day after `t`
-- on and not before; a sale that goes through takes nothing off it at any time.
pub settled_quantity-apply_fill :
    (l : PortfolioLedger) (fill : PaperFill) (side : OrderSide) (s : String) (t u : Datetime)
    → (apply_fill fill side s t l).0 ≡ ok tt
    → settled_quantity (apply_fill fill side s t l).1 s u
      ≡ settled_after side (settled_quantity l s u) fill.quantity t u
unfolding settled_quantity
settled_quantity-apply_fill l fill side s t u h =
    rw (apply_fill-IsAccounted l fill side s t h).lots
      (settled_in-lots_after side l.settlement s t u fill.quantity)

-- What is sellable is held, and has settled.
pub get_sellable_quantity-le :
    (l : PortfolioLedger) (s : String) (u : Datetime)
    → (get_sellable_quantity l s u ≤ℤ quantity_of l.positions s)
      × (get_sellable_quantity l s u ≤ℤ settled_quantity l s u)
unfolding get_sellable_quantity
get_sellable_quantity-le l s u = ground arith

pub get_sellable_quantity-le-get_position :
    (l : PortfolioLedger) (s : String) (u : Datetime)
    → get_sellable_quantity l s u ≤ℤ get_position l s
unfolding get_position
get_sellable_quantity-le-get_position l s u = (get_sellable_quantity-le l s u).0

position-buy :
    (l : PortfolioLedger) (fill : PaperFill) (s : String) (t : Datetime)
    → (apply_fill fill OrderSide.buy s t l).0 ≡ ok tt
    → quantity_of (apply_fill fill OrderSide.buy s t l).1.positions s
      ≡ quantity_of l.positions s +ℤ fill.quantity
position-buy l fill s t h =
    ground (arith, (apply_fill-IsAccounted l fill OrderSide.buy s t h).position s)

position-sell :
    (l : PortfolioLedger) (fill : PaperFill) (s : String) (t : Datetime)
    → (apply_fill fill OrderSide.sell s t l).0 ≡ ok tt
    → quantity_of (apply_fill fill OrderSide.sell s t l).1.positions s
      ≡ quantity_of l.positions s -ℤ fill.quantity
position-sell l fill s t h =
    ground (arith, (apply_fill-IsAccounted l fill OrderSide.sell s t h).position s)

-- Where no lot of the symbol has settled by a time less than one day after a purchase that goes
-- through, nothing of it is sellable at that time.
pub bought_not_sellable :
    (l : PortfolioLedger) (fill : PaperFill) (s : String) (t u : Datetime)
    → (apply_fill fill OrderSide.buy s t l).0 ≡ ok tt
    → settled_quantity l s u ≡ pos 0
    → u.instant < (day_after t).instant
    → get_sellable_quantity (apply_fill fill OrderSide.buy s t l).1 s u ≤ℤ pos 0
bought_not_sellable l fill s t u h none_settled early = grind (
  arith,
  get_sellable_quantity-le (apply_fill fill OrderSide.buy s t l).1 s u,
  settled_quantity-apply_fill l fill OrderSide.buy s t u h,
)

not_the_same_day :
    (settled q : Decimal) (t : Datetime) → settled_after OrderSide.buy settled q t t ≡ settled
not_the_same_day settled q t = ground arith

min_ℤ_of_le : (a b : Decimal) → b ≤ℤ a → min_ℤ a b ≡ b
min_ℤ_of_le a b h = ground (arith, eq_of_parts a b)

sold_and_bought :
    (l : PortfolioLedger) (sale purchase : PaperFill) (s : String) (t : Datetime)
    → sale.quantity ≡ quantity_of l.positions s
    → purchase.quantity ≡ quantity_of l.positions s
    → (apply_fill sale OrderSide.sell s t l).0 ≡ ok tt
    → quantity_of (apply_fill sale OrderSide.sell s t l).1.positions s +ℤ purchase.quantity
      ≡ purchase.quantity
sold_and_bought l sale purchase s t all same h =
    rw (position-sell l sale s t h, all, same) (omega int_laws)

-- When a position, as much of which has settled as is held, is sold in full and the same quantity
-- is bought back at the same time, and both fills go through, all of it is sellable at that time.
rebought_sellable :
    (l : PortfolioLedger) (sale purchase : PaperFill) (s : String) (t : Datetime)
    → sale.quantity ≡ quantity_of l.positions s
    → purchase.quantity ≡ quantity_of l.positions s
    → quantity_of l.positions s ≤ℤ settled_quantity l s t
    → let (r, l') = apply_fill sale OrderSide.sell s t l in
      r ≡ ok tt
      → let (r', l'') = apply_fill purchase OrderSide.buy s t l' in
        r' ≡ ok tt → get_sellable_quantity l'' s t ≡ purchase.quantity
unfolding get_sellable_quantity
rebought_sellable l sale purchase s t all same settled h k =
    let l' = (apply_fill sale OrderSide.sell s t l).1 in
    rw
      (
        settled_quantity-apply_fill l' purchase OrderSide.buy s t t k
            ∙ not_the_same_day (settled_quantity l' s t) purchase.quantity t
            ∙ settled_quantity-apply_fill l sale OrderSide.sell s t t h,
        position-buy l' purchase s t k ∙ sold_and_bought l sale purchase s t all same h,
      )
      (min_ℤ_of_le (settled_quantity l s t) purchase.quantity (rw same settled))
