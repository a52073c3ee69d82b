-- ===== src/Tests/Execution.antt =====
-- The market rules on an order for one lot, and the fills of what they accept.
use invest_quant_system.Prelude.{◌≡◌, ◌≢◌, refl, ◌↔◌, false, some, arith}
use invest_quant_system.Prelude.Tests.{String_discrete}
use invest_quant_system.Prelude.Int.{◌+ℤ◌, ◌≤ℤ◌}
use invest_quant_system.Prelude.Decimal.{whole, mul_dec, round_half_even}
use invest_quant_system.Prelude.Dict.{get, contains}
use invest_quant_system.Prelude.Result.{ok}
use invest_quant_system.Contracts.Market.Bar.{MarketBar}
use invest_quant_system.Contracts.Signals.{Direction, SignalAction}
use invest_quant_system.Contracts.Portfolio.{OrderSide}
use invest_quant_system.Portfolio.Position.{quantity_of}
use invest_quant_system.Portfolio.Settlement.{settled_in, settled_from}
use invest_quant_system.Portfolio.Ledger.{
  apply_fill, get_sellable_quantity, settled_quantity, get_position,
}
use invest_quant_system.Backtest.OrderIntent.{OrderIntent}
use invest_quant_system.Execution.Rules.{
  MarketRulesEngine, OrderValidationResult, insufficient_position, accept, validate, check_status,
  check_volume, check_cash, check_holding, check_market,
}
use invest_quant_system.Execution.Rules.Rejections.{validate_reason}
use invest_quant_system.Execution.Rules.Admission.{IsAdmissible, validate_iff}
use invest_quant_system.Execution.Rules.Orders.{
  IsExecution, accepted_buy_fills, accepted_sell_fills,
}
use invest_quant_system.Tests.Data.{utc, fill, ledger, holding, bar, intent}

abbrev engine : MarketRulesEngine
engine = record { lot_size = 100; min_volume_ratio = whole 0 }

abbrev buy_intent : OrderIntent
buy_intent = intent Direction.buy SignalAction.buy

abbrev sell_intent : OrderIntent
sell_intent = intent Direction.sell SignalAction.clear_long

abbrev next_day : MarketBar
next_day = record bar { market_data_time = utc 90000 }

lot_is_not_zero : engine.lot_size ≢ 0
lot_is_not_zero = λ p. omega arith

buy_accepted : validate engine buy_intent bar ledger ≡ ok accept
unfolding validate check_market check_status check_volume check_cash check_holding mul_dec
    round_half_even
buy_accepted = refl

sell_accepted : validate engine sell_intent next_day holding ≡ ok accept
unfolding validate check_market check_status check_volume check_cash check_holding mul_dec
    round_half_even get_sellable_quantity settled_quantity settled_in settled_from quantity_of get
    String_discrete get_position ◌+ℤ◌
sell_accepted = refl

validate_iff_example :
    (validate engine buy_intent bar ledger ≡ ok accept) ↔ IsAdmissible engine buy_intent bar ledger
validate_iff_example = validate_iff engine buy_intent bar ledger lot_is_not_zero

validate_reason_example :
    (r : OrderValidationResult) × (validate engine sell_intent bar ledger ≡ ok r)
    × (r.rejection_reason ≢ some insufficient_position)
validate_reason_example = validate_reason engine sell_intent bar ledger lot_is_not_zero

buy-IsExecution : IsExecution buy_intent (fill "f1" 10 100) ledger
unfolding get
buy-IsExecution = record { quantity = refl; price = refl; fresh = refl }

accepted_buy_fills_example :
    (apply_fill (fill "f1" 10 100) OrderSide.buy "600000" (utc 300) ledger).0 ≡ ok tt
accepted_buy_fills_example =
    accepted_buy_fills engine buy_intent bar ledger (fill "f1" 10 100) lot_is_not_zero buy_accepted
      refl buy-IsExecution

fee_covered : whole 5 ≤ℤ holding.cash.cash +ℤ mul_dec (whole 11) (whole 100)
unfolding mul_dec round_half_even ◌+ℤ◌
fee_covered = omega arith

new_sale : contains String_discrete holding.fills "f2" ≡ false
unfolding get
new_sale = refl

accepted_sell_fills_example :
    (apply_fill (fill "f2" 11 100) OrderSide.sell "600000" (utc 90000) holding).0 ≡ ok tt
accepted_sell_fills_example =
    accepted_sell_fills engine sell_intent next_day holding (fill "f2" 11 100) lot_is_not_zero
      sell_accepted refl refl new_sale fee_covered
