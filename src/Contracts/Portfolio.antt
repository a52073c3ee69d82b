-- ===== src/Contracts/Portfolio.antt =====
-- contracts/portfolio.py: paper orders, fills and positions.
use invest_quant_system.Prelude.{String}
use invest_quant_system.Prelude.Int.{pos, ltb_ℤ}
use invest_quant_system.Prelude.Decimal.{Decimal}
use invest_quant_system.Prelude.Result.{Result, ◌>>◌}
use invest_quant_system.Contracts.Moment.{Datetime, require_aware_utc}
use invest_quant_system.Contracts.Checks.{invalid_if}

pub data OrderSide : Type 0 where
  buy sell : OrderSide

pub data PaperOrderStatus : Type 0 where
  created filled partially_filled rejected cancelled : PaperOrderStatus

pub record PaperOrder : Type 0 where
  pub paper_order_id : String
  pub paper_run_id : String
  pub signal_id : String
  pub strategy_version : String
  pub cost_model_version : String
  pub fill_model_version : String
  pub symbol : String
  pub side : OrderSide
  pub quantity : Decimal
  pub order_time : Datetime
  pub assumed_order_type : String
  pub status : PaperOrderStatus

-- `PaperOrder.validate`
unfoldable pub validate_order : PaperOrder → Result (Unit {0})
validate_order o =
    require_aware_utc o.order_time "order_time"
    >> invalid_if (ltb_ℤ o.quantity (pos 0)) "order quantity cannot be negative"

pub record PaperFill : Type 0 where
  pub paper_fill_id : String
  pub paper_run_id : String
  pub paper_order_id : String
  pub signal_id : String
  pub cost_model_version : String
  pub fill_model_version : String
  pub fill_time : Datetime
  pub fill_price : Decimal
  pub quantity : Decimal
  pub fee : Decimal
  pub tax : Decimal
  pub slippage : Decimal

pub record PaperPosition : Type 0 where
  pub portfolio_id : String
  pub paper_run_id : String
  pub symbol : String
  pub as_of_time : Datetime
  pub strategy_version : String
  pub cost_model_version : String
  pub fill_model_version : String
  pub quantity : Decimal
  pub average_cost : Decimal
  pub market_value : Decimal
  pub realized_pnl : Decimal
  pub unrealized_pnl : Decimal
