-- ===== src/Execution/Rules/Rejections.antt =====
-- With which reasons `validate` rejects.
use invest_quant_system.Prelude.{
  ◌%◌, ◌≡◌, ◌≢◌, refl, Bool, true, false, not, ◌&&◌, Option, none, some, inl, inr, arith,
}
use invest_quant_system.Prelude.Tests.{Bool-cases, ◌==◌}
use invest_quant_system.Prelude.Int.{ℤ, pos, ltb_ℤ, leb_ℤ}
use invest_quant_system.Prelude.Decimal.{Decimal, magnitude}
use invest_quant_system.Prelude.Result.{ok}
use invest_quant_system.Contracts.Market.{TradingStatus}
use invest_quant_system.Contracts.Market.Bar.{MarketBar}
use invest_quant_system.Contracts.Signals.{Direction, is_buy, is_sell}
use invest_quant_system.Portfolio.Ledger.{PortfolioLedger, get_position, get_sellable_quantity}
use invest_quant_system.Portfolio.Ledger.TPlusOne.{get_sellable_quantity-le-get_position}
use invest_quant_system.Backtest.OrderIntent.{OrderIntent}
use invest_quant_system.Execution.Rules.{
  MarketRulesEngine, OrderValidationResult, Verdict, ◌orelse◌, reject_if, Detail,
  OrderRejectionReason, insufficient_position, lot_size_violation, accept, reject, text,
  not_multiple, of_int, check_status, check_volume, check_cash, check_holding, check_market,
  verdict, validate,
}

-- No stage answers with an acceptance: `accept` stands for the end of all checks.
abbrev pub IsRejection : Verdict → Type 0
IsRejection none = Unit
IsRejection (some r) = (r.accepted ≡ false) × (r.rejection_reason ≢ some insufficient_position)

IsRejection-orelse : (v w : Verdict) → IsRejection v → IsRejection w → IsRejection (v orelse w)
IsRejection-orelse none w hv hw = hw
IsRejection-orelse (some r) w hv hw = hv

reject_if-IsRejection :
    (c : Bool) (reason : OrderRejectionReason) (detail : Detail)
    → reason ≢ insufficient_position
    → IsRejection (reject_if c reason detail)
reject_if-IsRejection true reason detail h = (refl, λ e. h (ground arith))
reject_if-IsRejection false reason detail h = tt

check_status-IsRejection : (s : TradingStatus) (d : Direction) → IsRejection (check_status s d)
unfolding check_status
check_status-IsRejection TradingStatus.halted d = (refl, λ e. cc)
check_status-IsRejection TradingStatus.unknown d = (refl, λ e. cc)
check_status-IsRejection TradingStatus.limit_up d = reject_if-IsRejection (is_buy d) _ _ (λ e. cc)
check_status-IsRejection TradingStatus.limit_down d =
    reject_if-IsRejection (is_sell d) _ _ (λ e. cc)
check_status-IsRejection TradingStatus.trading d = tt
check_status-IsRejection TradingStatus.closed d = tt

check_volume-IsRejection : (q : ℤ) (v : Option Decimal) → IsRejection (check_volume q v)
unfolding check_volume
check_volume-IsRejection q none = tt
check_volume-IsRejection q (some v) = reject_if-IsRejection _ _ _ (λ e. cc)

check_cash-IsRejection : (i : OrderIntent) (l : PortfolioLedger) → IsRejection (check_cash i l)
unfolding check_cash
check_cash-IsRejection i l = reject_if-IsRejection _ _ _ (λ e. cc)

-- What is not sellable is refused as such before the position is looked at.
check_holding-IsRejection :
    (i : OrderIntent) (b : MarketBar) (l : PortfolioLedger) → IsRejection (check_holding i b l)
unfolding check_holding
check_holding-IsRejection i b l =
    let sellable = get_sellable_quantity l i.symbol b.market_data_time in
    elim (Bool-cases (is_sell i.direction && ltb_ℤ sellable (of_int i.quantity))) [
      | inl short ↦ rw short (refl, λ e. cc)
      | inr enough ↦
          let position : (is_sell i.direction
                && ltb_ℤ (get_position l i.symbol) (of_int i.quantity))
              ≡ false =
            ground (arith, get_sellable_quantity-le-get_position l i.symbol b.market_data_time) in
          rw (enough, position) tt
    ]

pub check_market-IsRejection :
    (i : OrderIntent) (b : MarketBar) (l : PortfolioLedger) → IsRejection (check_market i b l)
unfolding check_market
check_market-IsRejection i b l =
    IsRejection-orelse (check_status b.trading_status i.direction) _
      (check_status-IsRejection b.trading_status i.direction)
      (IsRejection-orelse (check_volume i.quantity b.volume) _
        (check_volume-IsRejection i.quantity b.volume)
        (IsRejection-orelse (check_cash i l) _ (check_cash-IsRejection i l)
          (check_holding-IsRejection i b l)))

pub verdict-accept : (v : Verdict) → IsRejection v → verdict v ≡ accept → v ≡ none
verdict-accept none h e = refl
verdict-accept (some r) h e = ground arith

verdict-reason :
    (v : Verdict) → IsRejection v → (verdict v).rejection_reason ≢ some insufficient_position
verdict-reason none h e = cc
verdict-reason (some r) h e = h.1 e

-- With a lot that is not zero `validate` never raises, and never answers INSUFFICIENT_POSITION: a
-- sale that is not covered has been refused as T1_SELL_RESTRICTED before.
pub validate_reason :
    (e : MarketRulesEngine) (i : OrderIntent) (b : MarketBar) (l : PortfolioLedger)
    → e.lot_size ≢ 0
    → (r : OrderValidationResult) × (validate e i b l ≡ ok r)
      × (r.rejection_reason ≢ some insufficient_position)
unfolding validate
validate_reason e i b l nonzero = elim (Bool-cases (leb_ℤ i.quantity (pos 0))) [
  | inl p ↦ (reject lot_size_violation (text "quantity must be positive"), rw p, λ e. cc)
  | inr p ↦
      let lot : (e.lot_size == 0) ≡ false = ground arith in
      elim (Bool-cases (not (magnitude i.quantity % e.lot_size == 0))) [
        | inl q ↦ (
          reject lot_size_violation (not_multiple i.quantity e.lot_size),
          rw (p, lot, q),
          λ e. cc,
        )
        | inr q ↦ (
          verdict (check_market i b l),
          rw (p, lot, q),
          verdict-reason (check_market i b l) (check_market-IsRejection i b l),
        )
      ]
]
