-- ===== src/Portfolio/Ledger/Failures.antt =====
-- What `apply_fill` leaves behind when it raises.
use invest_quant_system.Prelude.{String, ◌≡◌, false}
use invest_quant_system.Prelude.Tests.{String_discrete}
use invest_quant_system.Prelude.Int.{◌+ℤ◌, ◌-ℤ◌, ◌≤ℤ◌, ◌<ℤ◌}
use invest_quant_system.Prelude.Decimal.{mul_dec}
use invest_quant_system.Prelude.Dict.{contains}
use invest_quant_system.Prelude.Result.{Result, err, value_error}
use invest_quant_system.Contracts.Moment.{Datetime}
use invest_quant_system.Contracts.Portfolio.{OrderSide, PaperFill}
use invest_quant_system.Portfolio.Cash.{credit, debit_of_le}
use invest_quant_system.Portfolio.Position
use invest_quant_system.Portfolio.Position.{quantity_of}
use invest_quant_system.Portfolio.Position.Laws.{subtract_of_lt}
use invest_quant_system.Portfolio.Ledger.{PortfolioLedger, record_fill, apply_fill}

-- A sale of more than is held, of a fill that is new and whose fee the cash and the proceeds cover,
-- raises, and yet the cash has the proceeds, less the fee; the positions and the lots are as before,
-- and the fill is on record.
pub oversell_keeps_proceeds :
    (l : PortfolioLedger) (fill : PaperFill) (s : String) (t : Datetime)
    → contains String_discrete l.fills fill.paper_fill_id ≡ false
    → fill.fee ≤ℤ l.cash.cash +ℤ mul_dec fill.fill_price fill.quantity
    → quantity_of l.positions s <ℤ fill.quantity
    → apply_fill fill OrderSide.sell s t l ≡ (
      err (value_error "cannot subtract from position"),
      record (record_fill l fill) {
        cash = record l.cash {
          cash = l.cash.cash +ℤ mul_dec fill.fill_price fill.quantity -ℤ fill.fee;
        };
      },
    )
unfolding apply_fill credit
oversell_keeps_proceeds l fill s t new covered short = rw (
  new,
  debit_of_le (credit l.cash (mul_dec fill.fill_price fill.quantity)) fill.fee covered,
  subtract_of_lt l.positions s fill.quantity short,
)
