-- ===== src/Execution/Rules/Orders.antt =====
-- An accepted order against the ledger: the fill that executes it goes through.
use invest_quant_system.Prelude.{◌≡◌, ◌≢◌, false, arith}
use invest_quant_system.Prelude.Tests.{String_discrete}
use invest_quant_system.Prelude.Int.{◌+ℤ◌, ◌≤ℤ◌}
use invest_quant_system.Prelude.Decimal.{Decimal, mul_dec}
use invest_quant_system.Prelude.Dict.{contains}
use invest_quant_system.Prelude.Result.{ok}
use invest_quant_system.Contracts.Market.Bar.{MarketBar}
use invest_quant_system.Contracts.Signals.{Direction}
use invest_quant_system.Contracts.Portfolio.{OrderSide, PaperFill}
use invest_quant_system.Portfolio.Cash.{credit, debit_of_le}
use invest_quant_system.Portfolio.Position.{quantity_of}
use invest_quant_system.Portfolio.Position.Laws.{subtract_of_le}
use invest_quant_system.Portfolio.Ledger.{PortfolioLedger, apply_fill, get_sellable_quantity}
use invest_quant_system.Portfolio.Ledger.TPlusOne.{get_sellable_quantity-le}
use invest_quant_system.Backtest.OrderIntent.{OrderIntent}
use invest_quant_system.Execution.Rules.{MarketRulesEngine, accept, of_int, validate}
use invest_quant_system.Execution.Rules.Admission.{validate_iff}

-- The fill that executes an intent: its quantity, at its reference price, under a new id.
pub record IsExecution (i : OrderIntent) (f : PaperFill) (l : PortfolioLedger) : Type 0 where
  pub quantity : f.quantity ≡ of_int i.quantity
  pub price : f.fill_price ≡ i.reference_price
  pub fresh : contains String_discrete l.fills f.paper_fill_id ≡ false

-- An accepted BUY that is filled at its reference price, in full and under a new id, goes through the ledger, whatever the fee.
pub accepted_buy_fills :
    (e : MarketRulesEngine) (i : OrderIntent) (b : MarketBar) (l : PortfolioLedger) (f : PaperFill)
    → e.lot_size ≢ 0
    → validate e i b l ≡ ok accept
    → i.direction ≡ Direction.buy
    → IsExecution i f l
    → (apply_fill f OrderSide.buy i.symbol b.market_data_time l).0 ≡ ok tt
unfolding apply_fill
accepted_buy_fills e i b l f nonzero h d x =
    let a = (validate_iff e i b l nonzero).0 h in
    rw (
      x.fresh,
      x.quantity,
      x.price,
      debit_of_le l.cash (mul_dec i.reference_price (of_int i.quantity)) (a.affordable d),
    )

held_of_sellable :
    (filled asked sellable held : Decimal)
    → filled ≡ asked
    → asked ≤ℤ sellable
    → sellable ≤ℤ held
    → filled ≤ℤ held
held_of_sellable filled asked sellable held e p q = rw e (omega arith)

-- An accepted SELL that is filled in full, under a new id, goes through the ledger at any price, if
-- the cash and the proceeds together
-- cover the fee.
pub accepted_sell_fills :
    (e : MarketRulesEngine) (i : OrderIntent) (b : MarketBar) (l : PortfolioLedger) (f : PaperFill)
    → e.lot_size ≢ 0
    → validate e i b l ≡ ok accept
    → i.direction ≡ Direction.sell
    → f.quantity ≡ of_int i.quantity
    → contains String_discrete l.fills f.paper_fill_id ≡ false
    → f.fee ≤ℤ l.cash.cash +ℤ mul_dec f.fill_price f.quantity
    → (apply_fill f OrderSide.sell i.symbol b.market_data_time l).0 ≡ ok tt
unfolding apply_fill credit
accepted_sell_fills e i b l f nonzero h d q fresh covered =
    let a = (validate_iff e i b l nonzero).0 h in
    let held : f.quantity ≤ℤ quantity_of l.positions i.symbol =
      held_of_sellable f.quantity (of_int i.quantity)
        (get_sellable_quantity l i.symbol b.market_data_time) (quantity_of l.positions i.symbol) q
        (a.sellable d) (get_sellable_quantity-le l i.symbol b.market_data_time).0 in
    rw (
      fresh,
      debit_of_le (credit l.cash (mul_dec f.fill_price f.quantity)) f.fee covered,
      subtract_of_le l.positions i.symbol f.quantity held,
    )
