-- ===== src/Execution/Rules/Admission.antt =====
-- Which orders `validate` accepts.
use invest_quant_system.Prelude.{◌%◌, ◌≡◌, ◌≢◌, ◌↔◌, refl, Option, none, some, arith}
use invest_quant_system.Prelude.Int.{ℤ, pos, ◌≤ℤ◌, ◌<ℤ◌}
use invest_quant_system.Prelude.Decimal.{Decimal, mul_dec, magnitude}
use invest_quant_system.Prelude.Result.{ok}
use invest_quant_system.Contracts.Market.{TradingStatus}
use invest_quant_system.Contracts.Market.Bar.{MarketBar}
use invest_quant_system.Contracts.Signals.{Direction}
use invest_quant_system.Portfolio.Ledger.{PortfolioLedger, get_sellable_quantity}
use invest_quant_system.Portfolio.Ledger.TPlusOne.{get_sellable_quantity-le-get_position}
use invest_quant_system.Backtest.OrderIntent.{OrderIntent}
use invest_quant_system.Execution.Rules.Rejections.{verdict-accept, check_market-IsRejection}
use invest_quant_system.Execution.Rules.{
  MarketRulesEngine, Verdict, ◌orelse◌, accept, of_int, check_status, check_volume, check_cash,
  check_holding, check_market, validate,
}

-- The status lets an order of the direction through.
abbrev pub IsTradable : TradingStatus → Direction → Type 0
IsTradable TradingStatus.halted d = ⊥
IsTradable TradingStatus.unknown d = ⊥
IsTradable TradingStatus.limit_up d = d ≢ Direction.buy
IsTradable TradingStatus.limit_down d = d ≢ Direction.sell
IsTradable TradingStatus.trading d = Unit
IsTradable TradingStatus.closed d = Unit

-- A volume that is known and positive covers the order.
abbrev pub IsCovered : ℤ → Option Decimal → Type 0
IsCovered quantity none = Unit
IsCovered quantity (some volume) = pos 0 <ℤ volume → of_int quantity ≤ℤ volume

pub record IsAdmissible (e : MarketRulesEngine) (i : OrderIntent) (b : MarketBar)
    (l : PortfolioLedger) : Type 0 where
  pub positive : pos 0 <ℤ i.quantity
  pub lots : magnitude i.quantity % e.lot_size ≡ 0
  pub tradable : IsTradable b.trading_status i.direction
  pub covered : IsCovered i.quantity b.volume
  pub affordable :
      i.direction ≡ Direction.buy → mul_dec i.reference_price (of_int i.quantity) ≤ℤ l.cash.cash
  pub sellable :
      i.direction ≡ Direction.sell
      → of_int i.quantity ≤ℤ get_sellable_quantity l i.symbol b.market_data_time

check_status-none : (s : TradingStatus) (d : Direction) → (check_status s d ≡ none) ↔ IsTradable s d
unfolding check_status
check_status-none TradingStatus.halted d = (λ h. cc, λ h. absurd h)
check_status-none TradingStatus.unknown d = (λ h. cc, λ h. absurd h)
check_status-none TradingStatus.limit_up d = (λ h e. ground arith, λ h. ground arith)
check_status-none TradingStatus.limit_down d = (λ h e. ground arith, λ h. ground arith)
check_status-none TradingStatus.trading d = (λ h. tt, λ h. refl)
check_status-none TradingStatus.closed d = (λ h. tt, λ h. refl)

check_volume-none : (q : ℤ) (v : Option Decimal) → (check_volume q v ≡ none) ↔ IsCovered q v
unfolding check_volume
check_volume-none q none = (λ h. tt, λ h. refl)
check_volume-none q (some v) = (λ h p. ground arith, λ h. ground arith)

check_cash-none :
    (i : OrderIntent) (l : PortfolioLedger)
    → (check_cash i l ≡ none)
      ↔ (i.direction ≡ Direction.buy → mul_dec i.reference_price (of_int i.quantity) ≤ℤ l.cash.cash)
unfolding check_cash
check_cash-none i l = (λ h e. ground arith, λ h. ground arith)

check_holding-none :
    (i : OrderIntent) (b : MarketBar) (l : PortfolioLedger)
    → (check_holding i b l ≡ none) ↔ (
        i.direction ≡ Direction.sell
        → of_int i.quantity ≤ℤ get_sellable_quantity l i.symbol b.market_data_time)
unfolding check_holding
check_holding-none i b l = (
  λ h e. ground arith,
  λ h. ground (arith, get_sellable_quantity-le-get_position l i.symbol b.market_data_time),
)

orelse-none : (v w : Verdict) → (v orelse w ≡ none) ↔ ((v ≡ none) × (w ≡ none))
orelse-none none w = (λ h. (refl, h), λ h. h.1)
orelse-none (some r) w = (λ h. cc, λ h. h.0)

check_market-none :
    (i : OrderIntent) (b : MarketBar) (l : PortfolioLedger)
    → (check_market i b l ≡ none) ↔ (
        (check_status b.trading_status i.direction ≡ none)
        × (check_volume i.quantity b.volume ≡ none)
        × (check_cash i l ≡ none)
        × (check_holding i b l ≡ none))
unfolding check_market
check_market-none i b l = (
  λ h.
      let (p, q) = (orelse-none (check_status b.trading_status i.direction) _).0 h in
      let (r, s) = (orelse-none (check_volume i.quantity b.volume) _).0 q in
      let (t, u) = (orelse-none (check_cash i l) _).0 s in (p, r, t, u),
  λ (p, r, t, u). rw (p, r, t) u,
)

validate-stages :
    (e : MarketRulesEngine) (i : OrderIntent) (b : MarketBar) (l : PortfolioLedger)
    → e.lot_size ≢ 0
    → validate e i b l ≡ ok accept
    → (pos 0 <ℤ i.quantity) × (magnitude i.quantity % e.lot_size ≡ 0) × (check_market i b l ≡ none)
unfolding validate
validate-stages e i b l nonzero h = (
  ground arith,
  ground arith,
  verdict-accept (check_market i b l) (check_market-IsRejection i b l) (ground arith),
)

validate-IsAdmissible :
    (e : MarketRulesEngine) (i : OrderIntent) (b : MarketBar) (l : PortfolioLedger)
    → e.lot_size ≢ 0
    → validate e i b l ≡ ok accept
    → IsAdmissible e i b l
validate-IsAdmissible e i b l nonzero h =
    let (positive, lots, market) = validate-stages e i b l nonzero h in
    let (p, q, r, s) = (check_market-none i b l).0 market in
    record {
      positive = positive;
      lots = lots;
      tradable = (check_status-none b.trading_status i.direction).0 p;
      covered = (check_volume-none i.quantity b.volume).0 q;
      affordable = (check_cash-none i l).0 r;
      sellable = (check_holding-none i b l).0 s;
    }

IsAdmissible-validate :
    (e : MarketRulesEngine) (i : OrderIntent) (b : MarketBar) (l : PortfolioLedger)
    → e.lot_size ≢ 0
    → IsAdmissible e i b l
    → validate e i b l ≡ ok accept
unfolding validate
IsAdmissible-validate e i b l nonzero a =
    let market = (check_market-none i b l).1 (
      (check_status-none b.trading_status i.direction).1 a.tradable,
      (check_volume-none i.quantity b.volume).1 a.covered,
      (check_cash-none i l).1 a.affordable,
      (check_holding-none i b l).1 a.sellable,
    ) in
    ground (arith, market, a.positive, a.lots)

-- With a lot that is not zero, `validate` accepts an order exactly when its quantity is a positive number of lots, the trading
-- status lets its direction through, a known positive volume covers it, the cash covers the
-- reference price of a purchase, and the sellable quantity covers a sale.
pub validate_iff :
    (e : MarketRulesEngine) (i : OrderIntent) (b : MarketBar) (l : PortfolioLedger)
    → e.lot_size ≢ 0
    → (validate e i b l ≡ ok accept) ↔ IsAdmissible e i b l
validate_iff e i b l nonzero =
    (validate-IsAdmissible e i b l nonzero, IsAdmissible-validate e i b l nonzero)
