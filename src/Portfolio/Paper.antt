-- ===== src/Portfolio/Paper.antt =====
-- portfolio/paper.py: the paper portfolio that executes signals. The digest of the ids and the time
-- of the system clock are arguments.
pub mod Long
pub mod Once
use invest_quant_system.Prelude.{String, Bool, ite, ◌≡◌, Option, none, some, List, []}
use invest_quant_system.Prelude.Tests.{String_discrete, if◌then◌else◌}
use invest_quant_system.Prelude.Int.{pos, ◌+ℤ◌, ◌-ℤ◌, min_ℤ, leb_ℤ}
use invest_quant_system.Prelude.Decimal.{Decimal, mul_dec}
use invest_quant_system.Prelude.Dict
use invest_quant_system.Prelude.Dict.{Dict, contains}
use invest_quant_system.Contracts.Moment.{Datetime}
use invest_quant_system.Contracts.Signals.{SignalEvent, SignalAction}
use invest_quant_system.Contracts.Portfolio.{
  OrderSide, PaperOrder, filled, PaperFill, PaperPosition,
}
use invest_quant_system.Portfolio.Position.{Positions, or_zero, quantity_of}
use invest_quant_system.Evaluation.Costs.{FixedBpsCostModel, fixed_cost_rate}

pub record PaperPortfolio : Type 0 where
  pub portfolio_id : String
  pub paper_run_id : String
  pub cost_model : FixedBpsCostModel
  pub default_quantity : Decimal
  pub positions : Positions
  pub fills : Dict String PaperFill

-- the side and the quantity of an action, `none` where nothing is done
unfoldable pub size_for : SignalAction → Decimal → Decimal → Option (OrderSide × Decimal)
size_for SignalAction.hold held default = none
size_for SignalAction.buy held default = some (OrderSide.buy, default)
size_for SignalAction.reduce_long held default =
    if leb_ℤ (min_ℤ held default) (pos 0) then none else some (OrderSide.sell, min_ℤ held default)
size_for SignalAction.clear_long held default =
    if leb_ℤ (min_ℤ held default) (pos 0) then none else some (OrderSide.sell, min_ℤ held default)
size_for SignalAction.risk_avoid held default =
    if leb_ℤ (min_ℤ held default) (pos 0) then none else some (OrderSide.sell, min_ℤ held default)

abbrev pub held_after : OrderSide → Decimal → Decimal → Decimal
held_after OrderSide.buy held quantity = held +ℤ quantity
held_after OrderSide.sell held quantity = held -ℤ quantity

-- the two parts of the list that `apply_signal` returns, if it is not empty
abbrev pub Executed : Type 0
Executed = Option (PaperOrder × PaperFill)

module _ (digest : String → String → String → String) where
  -- `_id`
  abbrev pub paper_id : PaperPortfolio → String → String → String
  paper_id p prefix signal_id = digest p.paper_run_id prefix signal_id

  abbrev pub order_for : PaperPortfolio → SignalEvent → OrderSide → Decimal → PaperOrder
  order_for p s side quantity = record {
    paper_order_id = paper_id p "order" s.signal_id;
    paper_run_id = p.paper_run_id;
    signal_id = s.signal_id;
    strategy_version = s.strategy_version;
    cost_model_version = p.cost_model.cost_model_version;
    fill_model_version = "manual-fill-v1";
    symbol = s.symbol;
    side = side;
    quantity = quantity;
    order_time = s.executable_time;
    assumed_order_type = "MARKET_NEXT_AVAILABLE";
    status = filled;
  }

  abbrev pub fill_for : PaperPortfolio → SignalEvent → Decimal → Decimal → PaperFill
  fill_for p s price quantity = record {
    paper_fill_id = paper_id p "fill" s.signal_id;
    paper_run_id = p.paper_run_id;
    paper_order_id = paper_id p "order" s.signal_id;
    signal_id = s.signal_id;
    cost_model_version = p.cost_model.cost_model_version;
    fill_model_version = "manual-fill-v1";
    fill_time = s.executable_time;
    fill_price = price;
    quantity = quantity;
    fee = mul_dec (mul_dec price quantity) (fixed_cost_rate p.cost_model s.direction);
    tax = pos 0;
    slippage = pos 0;
  }

  -- the portfolio with the position and the fill of an execution
  abbrev pub executed :
      PaperPortfolio → SignalEvent → Decimal → OrderSide → Decimal → PaperPortfolio
  executed p s price side quantity = record p {
    positions =
        Dict.put String_discrete p.positions s.symbol
          (held_after side (quantity_of p.positions s.symbol) quantity);
    fills =
        Dict.put String_discrete p.fills (paper_id p "fill" s.signal_id)
          (fill_for p s price quantity);
  }

  -- the rest of `apply_signal`, behind the choice of the side and the quantity
  abbrev pub execute :
      Option (OrderSide × Decimal)
      → PaperPortfolio
      → SignalEvent
      → Decimal
      → Executed × PaperPortfolio
  execute none p s price = (none, p)
  execute (some (side, quantity)) p s price =
      if contains String_discrete p.fills (paper_id p "fill" s.signal_id) then (none, p) else (
        some (order_for p s side quantity, fill_for p s price quantity),
        executed p s price side quantity,
      )

  unfoldable pub apply_signal : PaperPortfolio → SignalEvent → Decimal → Executed × PaperPortfolio
  unfolding size_for
  apply_signal p s price =
      execute (size_for s.signal_action (quantity_of p.positions s.symbol) p.default_quantity) p s
        price

-- `position`
unfoldable pub position : PaperPortfolio → String → Decimal → Datetime → PaperPosition
position p symbol price now = record {
  portfolio_id = p.portfolio_id;
  paper_run_id = p.paper_run_id;
  symbol = symbol;
  as_of_time = now;
  strategy_version = "mixed";
  cost_model_version = p.cost_model.cost_model_version;
  fill_model_version = "manual-fill-v1";
  quantity = quantity_of p.positions symbol;
  average_cost = pos 0;
  market_value = mul_dec (quantity_of p.positions symbol) price;
  realized_pnl = pos 0;
  unrealized_pnl = pos 0;
}
