-- ===== src/Tests/Paper.antt =====
-- A paper portfolio that buys on a signal.
use invest_quant_system.Prelude.{String, ◌≡◌, refl, some, [], arith}
use invest_quant_system.Prelude.Decimal.{whole}
use invest_quant_system.Prelude.Text.{text_append}
use invest_quant_system.Prelude.Dict.{get}
use invest_quant_system.Contracts.Portfolio.{OrderSide, PaperOrder, PaperFill}
use invest_quant_system.Portfolio.Position.{quantity_of}
use invest_quant_system.Portfolio.Position.Laws.{IsLong}
use invest_quant_system.Evaluation.Costs.{default_fixed_bps}
use invest_quant_system.Portfolio.Paper.{
  PaperPortfolio, size_for, order_for, fill_for, apply_signal,
}
use invest_quant_system.Portfolio.Paper.Long.{apply_signal-IsLong}
use invest_quant_system.Tests.Data.{signal}

abbrev joined : String → String → String → String
joined run prefix id = text_append run (text_append prefix id)

abbrev paper : PaperPortfolio
paper = record {
  portfolio_id = "portfolio";
  paper_run_id = "run";
  cost_model = default_fixed_bps;
  default_quantity = whole 100;
  positions = [];
  fills = [];
}

abbrev paper_execution : PaperOrder × PaperFill
paper_execution = (
  order_for joined paper signal OrderSide.buy (whole 100),
  fill_for joined paper signal (whole 10) (whole 100),
)

signal_executes : (apply_signal joined paper signal (whole 10)).0 ≡ some paper_execution
unfolding apply_signal size_for get
signal_executes = refl

paper-IsLong : IsLong paper.positions
unfolding quantity_of get
paper-IsLong s = omega arith

apply_signal-IsLong_example : IsLong (apply_signal joined paper signal (whole 10)).1.positions
apply_signal-IsLong_example =
    apply_signal-IsLong joined paper signal (whole 10) (omega arith) paper-IsLong
