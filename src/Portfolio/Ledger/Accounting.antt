-- ===== src/Portfolio/Ledger/Accounting.antt =====
-- What `apply_fill` does to the cash, the positions and the lots, when it goes through.
use invest_quant_system.Prelude.{String, ◌≡◌, refl, ite, inl, inr, List, [], ◌∷◌, ◌++◌}
use invest_quant_system.Prelude.Tests.{String_discrete, Bool-cases}
use invest_quant_system.Prelude.Int.{pos, ◌+ℤ◌, ◌-ℤ◌, ◌≤ℤ◌, int_laws}
use invest_quant_system.Prelude.Decimal.{Decimal, mul_dec}
use invest_quant_system.Prelude.Dict.{contains}
use invest_quant_system.Prelude.Result.{Result, ok, err}
use invest_quant_system.Contracts.Moment.{Datetime}
use invest_quant_system.Contracts.Portfolio.{OrderSide, PaperFill}
use invest_quant_system.Portfolio.Cash.{CashLedger, credit, debit, debit-ok}
use invest_quant_system.Portfolio.Position
use invest_quant_system.Portfolio.Position.{Positions, quantity_of}
use invest_quant_system.Portfolio.Position.Laws.{
  IsLong, quantity_of-add, quantity_of-subtract, add-IsLong, subtract-IsLong,
}
use invest_quant_system.Portfolio.Settlement.{SettlementRecord}
use invest_quant_system.Portfolio.Ledger.{
  PortfolioLedger, lot, record_fill, finish_sell, pay_fee, finish_buy, settle_side, apply_fill,
}

-- What a purchase or a sale of `value` for `fee` leaves of the cash.
abbrev pub cash_after : OrderSide → Decimal → Decimal → Decimal → Decimal
cash_after OrderSide.buy cash value fee = cash -ℤ value -ℤ fee
cash_after OrderSide.sell cash value fee = cash +ℤ value -ℤ fee

abbrev pub position_after : OrderSide → Decimal → Decimal → Decimal
position_after OrderSide.buy position quantity = position +ℤ quantity
position_after OrderSide.sell position quantity = position -ℤ quantity

abbrev pub lots_after :
    OrderSide → List SettlementRecord → String → Datetime → Decimal → List SettlementRecord
lots_after OrderSide.buy lots symbol as_of quantity = lots ++ lot symbol as_of quantity ∷ []
lots_after OrderSide.sell lots symbol as_of quantity = lots

pub record IsAccounted (side : OrderSide) (fill : PaperFill) (s : String) (t : Datetime)
    (l l' : PortfolioLedger) : Type 0 where
  pub cash :
      l'.cash.cash ≡ cash_after side l.cash.cash (mul_dec fill.fill_price fill.quantity) fill.fee
  pub initial : l'.cash.initial_cash ≡ l.cash.initial_cash
  pub position :
      (u : String)
      → quantity_of l'.positions u
        ≡ ite
            (String_discrete s u)
            (position_after side (quantity_of l.positions s) fill.quantity)
            (quantity_of l.positions u)
  pub lots : l'.settlement ≡ lots_after side l.settlement s t fill.quantity
  pub fills : l'.fills ≡ (record_fill l fill).fills

buy-IsAccounted :
    (l : PortfolioLedger) (fill : PaperFill) (s : String) (t : Datetime) (r : Result CashLedger)
    → debit l.cash (mul_dec fill.fill_price fill.quantity) ≡ r
    → let o = finish_buy (record_fill l fill) fill s t r in
      o.0 ≡ ok tt → IsAccounted OrderSide.buy fill s t l o.1
unfolding credit
buy-IsAccounted l fill s t (err e) d h = cc
buy-IsAccounted l fill s t (ok c) d h =
    let (_, e) = debit-ok l.cash c (mul_dec fill.fill_price fill.quantity) d in
    record {
      cash = rw e (omega int_laws);
      initial = rw e;
      position = λ u. quantity_of-add l.positions s u fill.quantity;
      lots = refl;
      fills = refl;
    }

finish_sell-IsAccounted :
    (l : PortfolioLedger) (fill : PaperFill) (s : String) (t : Datetime) (c : CashLedger)
    (r : Result Positions)
    → c ≡ record l.cash { cash = l.cash.cash +ℤ mul_dec fill.fill_price fill.quantity -ℤ fill.fee }
    → Position.subtract l.positions s fill.quantity ≡ r
    → let o = finish_sell (record (record_fill l fill) { cash = c }) r in
      o.0 ≡ ok tt → IsAccounted OrderSide.sell fill s t l o.1
finish_sell-IsAccounted l fill s t c (err e) p q h = cc
finish_sell-IsAccounted l fill s t c (ok ps) p q h = record {
  cash = rw p refl;
  initial = rw p refl;
  position = λ u. quantity_of-subtract l.positions s u fill.quantity ps q;
  lots = refl;
  fills = refl;
}

sell-IsAccounted :
    (l : PortfolioLedger) (fill : PaperFill) (s : String) (t : Datetime) (r : Result CashLedger)
    → debit (credit l.cash (mul_dec fill.fill_price fill.quantity)) fill.fee ≡ r
    → let o =
        pay_fee
          (record (record_fill l fill) {
            cash = credit l.cash (mul_dec fill.fill_price fill.quantity);
          })
          fill
          s
          r in
      o.0 ≡ ok tt → IsAccounted OrderSide.sell fill s t l o.1
sell-IsAccounted l fill s t (err e) d h = cc
sell-IsAccounted l fill s t (ok c) d h =
    let (_, e) = debit-ok (credit l.cash (mul_dec fill.fill_price fill.quantity)) c fill.fee d in
    finish_sell-IsAccounted l fill s t c (Position.subtract l.positions s fill.quantity)
      (unfold credit in e) refl h

settle_side-IsAccounted :
    (l : PortfolioLedger) (fill : PaperFill) (side : OrderSide) (s : String) (t : Datetime)
    → (settle_side side (record_fill l fill) fill s t).0 ≡ ok tt
    → IsAccounted side fill s t l (settle_side side (record_fill l fill) fill s t).1
unfolding settle_side
settle_side-IsAccounted l fill OrderSide.buy s t h =
    buy-IsAccounted l fill s t (debit l.cash (mul_dec fill.fill_price fill.quantity)) refl h
settle_side-IsAccounted l fill OrderSide.sell s t h =
    sell-IsAccounted l fill s t
      (debit (credit l.cash (mul_dec fill.fill_price fill.quantity)) fill.fee) refl h

-- When `apply_fill` returns, the cash has moved by the value and the fee of the fill, the position
-- of its symbol by its quantity, no other position has moved, a purchase has added its lot and a
-- sale none, and the fill is on record.
pub apply_fill-IsAccounted :
    (l : PortfolioLedger) (fill : PaperFill) (side : OrderSide) (s : String) (t : Datetime)
    → (apply_fill fill side s t l).0 ≡ ok tt
    → IsAccounted side fill s t l (apply_fill fill side s t l).1
unfolding apply_fill
apply_fill-IsAccounted l fill side s t h =
    elim (Bool-cases (contains String_discrete l.fills fill.paper_fill_id)) [
      | inl known ↦ cc (rw known at h)
      | inr new ↦ rw new (settle_side-IsAccounted l fill side s t (rw new at h))
    ]

finish_buy-IsLong :
    (l : PortfolioLedger) (fill : PaperFill) (s : String) (t : Datetime) (r : Result CashLedger)
    → pos 0 ≤ℤ fill.quantity
    → IsLong l.positions
    → IsLong (finish_buy l fill s t r).1.positions
finish_buy-IsLong l fill s t (err e) q h = h
finish_buy-IsLong l fill s t (ok c) q h = add-IsLong l.positions s fill.quantity q h

finish_sell-IsLong :
    (l : PortfolioLedger) (s : String) (q : Decimal) (r : Result Positions)
    → Position.subtract l.positions s q ≡ r
    → IsLong l.positions
    → IsLong (finish_sell l r).1.positions
finish_sell-IsLong l s q (err e) p h = h
finish_sell-IsLong l s q (ok ps) p h = subtract-IsLong l.positions s q ps p h

pay_fee-IsLong :
    (l : PortfolioLedger) (fill : PaperFill) (s : String) (r : Result CashLedger)
    → IsLong l.positions
    → IsLong (pay_fee l fill s r).1.positions
pay_fee-IsLong l fill s (err e) h = h
pay_fee-IsLong l fill s (ok c) h =
    finish_sell-IsLong (record l { cash = c }) s fill.quantity
      (Position.subtract l.positions s fill.quantity) refl h

settle_side-IsLong :
    (l : PortfolioLedger) (fill : PaperFill) (side : OrderSide) (s : String) (t : Datetime)
    → pos 0 ≤ℤ fill.quantity
    → IsLong l.positions
    → IsLong (settle_side side l fill s t).1.positions
unfolding settle_side
settle_side-IsLong l fill OrderSide.buy s t q h =
    finish_buy-IsLong l fill s t (debit l.cash (mul_dec fill.fill_price fill.quantity)) q h
settle_side-IsLong l fill OrderSide.sell s t q h =
    let paid = credit l.cash (mul_dec fill.fill_price fill.quantity) in
    pay_fee-IsLong (record l { cash = paid }) fill s (debit paid fill.fee) h

-- A fill of a quantity that is not negative never leaves a negative position, whether `apply_fill`
-- returns or raises.
pub apply_fill-IsLong :
    (l : PortfolioLedger) (fill : PaperFill) (side : OrderSide) (s : String) (t : Datetime)
    → pos 0 ≤ℤ fill.quantity
    → IsLong l.positions
    → IsLong (apply_fill fill side s t l).1.positions
unfolding apply_fill
apply_fill-IsLong l fill side s t q h =
    elim (Bool-cases (contains String_discrete l.fills fill.paper_fill_id)) [
      | inl known ↦ rw known h
      | inr new ↦ rw new (settle_side-IsLong (record_fill l fill) fill side s t q h)
    ]
