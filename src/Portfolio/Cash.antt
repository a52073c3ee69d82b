-- ===== src/Portfolio/Cash.antt =====
-- portfolio/cash.py: the cash of a ledger.
use invest_quant_system.Prelude.{◌≡◌, arith}
use invest_quant_system.Prelude.Tests.{if◌then◌else◌}
use invest_quant_system.Prelude.Int.{◌+ℤ◌, ◌-ℤ◌, ◌≤ℤ◌, ◌<ℤ◌, ltb_ℤ}
use invest_quant_system.Prelude.Decimal.{Decimal}
use invest_quant_system.Prelude.Result.{Result, ok, err, value_error}

pub record CashLedger : Type 0 where
  pub initial_cash : Decimal
  pub cash : Decimal

unfoldable pub new_cash : Decimal → CashLedger
new_cash initial_cash = record { initial_cash = initial_cash; cash = initial_cash }

unfoldable pub credit : CashLedger → Decimal → CashLedger
credit c amount = record c { cash = c.cash +ℤ amount }

unfoldable pub debit : CashLedger → Decimal → Result CashLedger
debit c amount =
    if ltb_ℤ c.cash amount
    then err (value_error "insufficient cash")
    else ok (record c { cash = c.cash -ℤ amount })

unfoldable pub realized_pnl : CashLedger → Decimal
realized_pnl c = c.cash -ℤ c.initial_cash

-- A debit that goes through was covered, and lowers the cash by its amount.
pub debit-ok :
    (c c' : CashLedger) (amount : Decimal)
    → debit c amount ≡ ok c'
    → (amount ≤ℤ c.cash) × (c' ≡ record c { cash = c.cash -ℤ amount })
unfolding debit
debit-ok c c' amount h = ground arith

-- A covered debit goes through.
pub debit_of_le :
    (c : CashLedger) (amount : Decimal)
    → amount ≤ℤ c.cash
    → debit c amount ≡ ok (record c { cash = c.cash -ℤ amount })
unfolding debit
debit_of_le c amount h = ground arith

pub debit_of_lt :
    (c : CashLedger) (amount : Decimal)
    → c.cash <ℤ amount
    → debit c amount ≡ err (value_error "insufficient cash")
unfolding debit
debit_of_lt c amount h = ground arith
