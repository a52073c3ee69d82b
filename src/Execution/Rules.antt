-- ===== src/Execution/Rules.antt =====
-- execution/market_rules.py: the checks of an order intent against the A-share rules.
pub mod Rejections
pub mod Admission
pub mod Orders
use invest_quant_system.Prelude.{
  ℕ, zero, suc, ◌%◌, ◌*◌, ◌+◌, String, Bool, true, false, not, ◌&&◌, Option, none, some,
}
use invest_quant_system.Prelude.Tests.{◌==◌, if◌then◌else◌}
use invest_quant_system.Prelude.Int.{ℤ, pos, negsuc, leb_ℤ, ltb_ℤ}
use invest_quant_system.Prelude.Decimal.{Decimal, mul_dec, signed, one_unit, magnitude}
use invest_quant_system.Prelude.Result.{Result, ok, err, value_error, invalid_operation, ◌>>=◌}
use invest_quant_system.Contracts.Market.{TradingStatus}
use invest_quant_system.Contracts.Market.Bar.{MarketBar}
use invest_quant_system.Contracts.Signals.{Direction, is_buy, is_sell}
use invest_quant_system.Portfolio.Ledger.{PortfolioLedger, get_position, get_sellable_quantity}
use invest_quant_system.Backtest.OrderIntent.{OrderIntent}

pub data OrderRejectionReason : Type 0 where
  t1_sell_restricted limit_up limit_down suspended insufficient_volume : OrderRejectionReason
  lot_size_violation insufficient_cash insufficient_position : OrderRejectionReason

-- The detail of a rejection: a fixed text, or the values that the message is formatted from.
pub data Detail : Type 0 where
  text : String → Detail
  not_multiple : ℤ → ℕ → Detail
  status : TradingStatus → Detail
  exceeds_volume : ℤ → Decimal → Detail
  required_cash : Decimal → Decimal → Detail
  exceeds_sellable exceeds_position : ℤ → Decimal → String → Detail

pub record OrderValidationResult : Type 0 where
  pub accepted : Bool
  pub rejection_reason : Option OrderRejectionReason
  pub rejection_detail : Detail

abbrev pub accept : OrderValidationResult
accept = record { accepted = true; rejection_reason = none; rejection_detail = text "" }

abbrev pub reject : OrderRejectionReason → Detail → OrderValidationResult
reject reason detail = record {
  accepted = false;
  rejection_reason = some reason;
  rejection_detail = detail;
}

pub record MarketRulesEngine : Type 0 where
  pub lot_size : ℕ
  pub min_volume_ratio : Decimal

-- `Decimal(n)` of an integer
abbrev pub of_int : ℤ → Decimal
of_int (pos n) = pos (n * one_unit)
of_int (negsuc n) = signed true (suc n * one_unit)

-- Each stage either rejects or leaves the rest to decide.
abbrev pub Verdict : Type 0
Verdict = Option OrderValidationResult

abbrev pub reject_if : Bool → OrderRejectionReason → Detail → Verdict
reject_if b reason detail = if b then some (reject reason detail) else none

infixr 20 ◌orelse◌
abbrev pub ◌orelse◌ : Verdict → Verdict → Verdict
none orelse v = v
some r orelse v = some r

-- the trading status of the bar
unfoldable pub check_status : TradingStatus → Direction → Verdict
check_status TradingStatus.halted d = some (reject suspended (status TradingStatus.halted))
check_status TradingStatus.unknown d = some (reject suspended (status TradingStatus.unknown))
check_status TradingStatus.limit_up d =
    reject_if (is_buy d) limit_up (text "cannot buy at limit up")
check_status TradingStatus.limit_down d =
    reject_if (is_sell d) limit_down (text "cannot sell at limit down")
check_status TradingStatus.trading d = none
check_status TradingStatus.closed d = none

-- the volume of the bar, if it has one
unfoldable pub check_volume : ℤ → Option Decimal → Verdict
check_volume quantity none = none
check_volume quantity (some volume) =
    reject_if (ltb_ℤ (pos 0) volume && ltb_ℤ volume (of_int quantity)) insufficient_volume
      (exceeds_volume quantity volume)

-- the cash that a purchase needs; the fee is not in it
unfoldable pub check_cash : OrderIntent → PortfolioLedger → Verdict
check_cash i l =
    reject_if
      (is_buy i.direction && ltb_ℤ l.cash.cash (mul_dec i.reference_price (of_int i.quantity)))
      insufficient_cash (required_cash (mul_dec i.reference_price (of_int i.quantity)) l.cash.cash)

-- what a sale needs
unfoldable pub check_holding : OrderIntent → MarketBar → PortfolioLedger → Verdict
check_holding i b l =
    let sellable = get_sellable_quantity l i.symbol b.market_data_time in
    let position = get_position l i.symbol in
    reject_if (is_sell i.direction && ltb_ℤ sellable (of_int i.quantity)) t1_sell_restricted
      (exceeds_sellable i.quantity sellable i.symbol)
    orelse reject_if (is_sell i.direction && ltb_ℤ position (of_int i.quantity))
        insufficient_position (exceeds_position i.quantity position i.symbol)

-- the checks behind those of the quantity
unfoldable pub check_market : OrderIntent → MarketBar → PortfolioLedger → Verdict
check_market i b l =
    check_status b.trading_status i.direction
    orelse check_volume i.quantity b.volume
    orelse check_cash i l
    orelse check_holding i b l

abbrev pub verdict : Verdict → OrderValidationResult
verdict none = accept
verdict (some r) = r

-- `Decimal(quantity) % Decimal(lot_size)`, which raises InvalidOperation at a lot of zero
unfoldable pub validate :
    MarketRulesEngine → OrderIntent → MarketBar → PortfolioLedger → Result OrderValidationResult
validate e i b l =
    if leb_ℤ i.quantity (pos 0)
    then ok (reject lot_size_violation (text "quantity must be positive"))
    else if e.lot_size == 0
    then err invalid_operation
    else if not (magnitude i.quantity % e.lot_size == 0)
    then ok (reject lot_size_violation (not_multiple i.quantity e.lot_size))
    else ok (verdict (check_market i b l))
