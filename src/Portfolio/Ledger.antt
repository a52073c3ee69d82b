-- ===== src/Portfolio/Ledger.antt =====
-- portfolio/ledger.py and portfolio/policy.py: the portfolio state with T+1 settlement.
pub mod Accounting
pub mod Failures
pub mod TPlusOne
use invest_quant_system.Prelude.{ℕ, String, List, [], ◌∷◌, ◌++◌}
use invest_quant_system.Prelude.Tests.{if◌then◌else◌, String_discrete}
use invest_quant_system.Prelude.Lists.{length}
use invest_quant_system.Prelude.Int.{◌+ℤ◌, neg_ℤ, min_ℤ}
use invest_quant_system.Prelude.Decimal.{Decimal, mul_dec, whole, digits_behind}
use invest_quant_system.Prelude.Dict
use invest_quant_system.Prelude.Dict.{Dict, contains}
use invest_quant_system.Prelude.Result.{Result, ok, err, value_error}
use invest_quant_system.Contracts.Moment.{Datetime, add_seconds}
use invest_quant_system.Contracts.Portfolio.{OrderSide, PaperFill}
use invest_quant_system.Portfolio.Cash
use invest_quant_system.Portfolio.Cash.{CashLedger, credit, debit}
use invest_quant_system.Portfolio.Position
use invest_quant_system.Portfolio.Position.{Positions, quantity_of}
use invest_quant_system.Portfolio.Settlement.{SettlementRecord, settled_in}

pub record PortfolioPolicy : Type 0 where
  pub max_single_position_ratio : Decimal
  pub max_total_position_ratio : Decimal
  pub min_cash_ratio : Decimal
  pub max_turnover_per_bar : Decimal

abbrev pub default_policy : PortfolioPolicy
default_policy = record {
  max_single_position_ratio = digits_behind 1 1;
  max_total_position_ratio = digits_behind 95 2;
  min_cash_ratio = digits_behind 5 2;
  max_turnover_per_bar = whole 1;
}

pub record PortfolioLedger : Type 0 where
  pub portfolio_id : String
  pub paper_run_id : String
  pub policy : PortfolioPolicy
  pub lot_size : ℕ
  pub cash : CashLedger
  pub positions : Positions
  pub settlement : List SettlementRecord
  pub fills : Dict String PaperFill

unfoldable pub new_ledger : Decimal → String → String → PortfolioPolicy → ℕ → PortfolioLedger
unfolding Cash.new_cash
new_ledger initial_cash portfolio_id paper_run_id policy lot_size = record {
  portfolio_id = portfolio_id;
  paper_run_id = paper_run_id;
  policy = policy;
  lot_size = lot_size;
  cash = Cash.new_cash initial_cash;
  positions = [];
  settlement = [];
  fills = [];
}

unfoldable pub get_position : PortfolioLedger → String → Decimal
get_position l symbol = quantity_of l.positions symbol

unfoldable pub settled_quantity : PortfolioLedger → String → Datetime → Decimal
settled_quantity l symbol as_of = settled_in l.settlement symbol as_of

unfoldable pub get_sellable_quantity : PortfolioLedger → String → Datetime → Decimal
unfolding settled_quantity
get_sellable_quantity l symbol as_of =
    min_ℤ (settled_quantity l symbol as_of) (quantity_of l.positions symbol)

-- `as_of + timedelta(days=1)`
abbrev pub day_after : Datetime → Datetime
day_after t = add_seconds t 86400

-- the lot of a purchase
abbrev pub lot : String → Datetime → Decimal → SettlementRecord
lot symbol as_of quantity = record {
  symbol = symbol;
  buy_date = as_of;
  settle_date = day_after as_of;
  quantity = quantity;
}

-- What a call leaves, and the error that it raised, if it did.
abbrev pub Outcome : Type 0
Outcome = Result (Unit {0}) × PortfolioLedger

-- the BUY branch, behind the debit of the price
abbrev finish_buy : PortfolioLedger → PaperFill → String → Datetime → Result CashLedger → Outcome
finish_buy l fill symbol as_of (err e) = (err e, l)
finish_buy l fill symbol as_of (ok cash) = (
  ok tt,
  record l {
    cash = credit cash (neg_ℤ fill.fee);
    positions = Position.add l.positions symbol fill.quantity;
    settlement = l.settlement ++ lot symbol as_of fill.quantity ∷ [];
  },
)

-- the SELL branch, behind the subtraction of the position
abbrev finish_sell : PortfolioLedger → Result Positions → Outcome
finish_sell l (err e) = (err e, l)
finish_sell l (ok positions) = (ok tt, record l { positions = positions })

-- the SELL branch, behind the debit of the fee
abbrev pay_fee : PortfolioLedger → PaperFill → String → Result CashLedger → Outcome
pay_fee l fill symbol (err e) = (err e, l)
pay_fee l fill symbol (ok cash) =
    finish_sell (record l { cash = cash }) (Position.subtract l.positions symbol fill.quantity)

-- the two branches on the side of the order, over a ledger that has recorded the fill
unfoldable pub settle_side : OrderSide → PortfolioLedger → PaperFill → String → Datetime → Outcome
settle_side OrderSide.buy l fill symbol as_of =
    finish_buy l fill symbol as_of (debit l.cash (mul_dec fill.fill_price fill.quantity))
settle_side OrderSide.sell l fill symbol as_of =
    let paid = credit l.cash (mul_dec fill.fill_price fill.quantity) in
    pay_fee (record l { cash = paid }) fill symbol (debit paid fill.fee)

abbrev pub record_fill : PortfolioLedger → PaperFill → PortfolioLedger
record_fill l fill = record l { fills = Dict.put String_discrete l.fills fill.paper_fill_id fill }

unfoldable pub apply_fill : PaperFill → OrderSide → String → Datetime → PortfolioLedger → Outcome
unfolding settle_side
apply_fill fill side symbol as_of l =
    if contains String_discrete l.fills fill.paper_fill_id
    then (err (value_error "duplicate fill"), l)
    else settle_side side (record_fill l fill) fill symbol as_of

unfoldable pub total_value : PortfolioLedger → Dict String Decimal → Decimal
total_value l prices = l.cash.cash +ℤ Position.total_value l.positions prices

unfoldable pub realized_pnl : PortfolioLedger → Decimal
unfolding Cash.realized_pnl
realized_pnl l = Cash.realized_pnl l.cash

unfoldable pub pending_settlement_count : PortfolioLedger → ℕ
pending_settlement_count l = length l.settlement
