-- ===== src/Tests/Portfolio.antt =====
-- The portfolio ledger on a purchase, a sale and a sale of too much.
use invest_quant_system.Prelude.{String, ◌≡◌, refl, false, arith}
use invest_quant_system.Prelude.Tests.{String_discrete}
use invest_quant_system.Prelude.Int.{pos, ◌<ℤ◌, ◌≤ℤ◌, ◌+ℤ◌, ◌-ℤ◌}
use invest_quant_system.Prelude.Decimal.{whole, mul_dec, round_half_even}
use invest_quant_system.Prelude.Dict.{get, put, del, contains}
use invest_quant_system.Prelude.Result.{ok, err, value_error}
use invest_quant_system.Contracts.Portfolio.{OrderSide, PaperFill}
use invest_quant_system.Portfolio.Cash.{credit, debit}
use invest_quant_system.Portfolio.Position
use invest_quant_system.Portfolio.Position.{quantity_of}
use invest_quant_system.Portfolio.Position.Laws.{IsLong}
use invest_quant_system.Portfolio.Settlement.{settled_in, settled_from}
use invest_quant_system.Portfolio.Ledger.TPlusOne.{settled_quantity-apply_fill}
use invest_quant_system.Portfolio.Ledger.{
  settled_quantity, PortfolioLedger, apply_fill, settle_side, record_fill,
}
use invest_quant_system.Portfolio.Ledger.Accounting.{
  IsAccounted, apply_fill-IsAccounted, apply_fill-IsLong,
}
use invest_quant_system.Portfolio.Ledger.Failures.{oversell_keeps_proceeds}
use invest_quant_system.Tests.Data.{utc, fill, ledger, holding}

abbrev purchase : PaperFill
purchase = fill "f1" 10 100

abbrev sale : PaperFill
sale = fill "f2" 11 100

abbrev bought : PortfolioLedger
bought = (apply_fill purchase OrderSide.buy "600000" (utc 300) ledger).1

abbrev sold : PortfolioLedger
sold = (apply_fill sale OrderSide.sell "600000" (utc 90000) holding).1

purchase_goes_through : (apply_fill purchase OrderSide.buy "600000" (utc 300) ledger).0 ≡ ok tt
unfolding apply_fill settle_side credit debit mul_dec Position.add Position.subtract Position.store
    quantity_of get put del String_discrete round_half_even ◌+ℤ◌ ◌-ℤ◌
purchase_goes_through = refl

cash_bought : bought.cash.cash ≡ whole 98995
unfolding apply_fill settle_side credit debit mul_dec Position.add Position.subtract Position.store
    quantity_of get put del String_discrete round_half_even ◌+ℤ◌ ◌-ℤ◌
cash_bought = refl

sale_goes_through : (apply_fill sale OrderSide.sell "600000" (utc 90000) holding).0 ≡ ok tt
unfolding apply_fill settle_side credit debit mul_dec Position.add Position.subtract Position.store
    quantity_of get put del String_discrete round_half_even ◌+ℤ◌ ◌-ℤ◌
sale_goes_through = refl

purchase_back_goes_through : (apply_fill purchase OrderSide.buy "600000" (utc 90000) sold).0 ≡ ok tt
unfolding apply_fill settle_side credit debit mul_dec Position.add Position.subtract Position.store
    quantity_of get put del String_discrete round_half_even ◌+ℤ◌ ◌-ℤ◌
purchase_back_goes_through = refl

held : quantity_of holding.positions "600000" ≡ whole 100
unfolding quantity_of get String_discrete
held = refl

settled : quantity_of holding.positions "600000" ≤ℤ settled_quantity holding "600000" (utc 90000)
unfolding quantity_of get String_discrete settled_quantity settled_in settled_from ◌+ℤ◌
settled = omega arith

none_settled : settled_quantity ledger "600000" (utc 400) ≡ pos 0
unfolding settled_quantity settled_in settled_from
none_settled = refl

new_fill : (id : String) → contains String_discrete holding.fills id ≡ false
unfolding get
new_fill id = refl

short : quantity_of holding.positions "600000" <ℤ whole 200
unfolding quantity_of get String_discrete
short = omega arith

covered : (fill "f3" 11 200).fee ≤ℤ holding.cash.cash +ℤ mul_dec (whole 11) (whole 200)
unfolding mul_dec round_half_even ◌+ℤ◌ ◌-ℤ◌
covered = omega arith

apply_fill-IsAccounted_example : IsAccounted OrderSide.buy purchase "600000" (utc 300) ledger bought
apply_fill-IsAccounted_example =
    apply_fill-IsAccounted ledger purchase OrderSide.buy "600000" (utc 300) purchase_goes_through

nothing-IsLong : IsLong ledger.positions
unfolding quantity_of get
nothing-IsLong s = omega arith

apply_fill-IsLong_example : IsLong bought.positions
apply_fill-IsLong_example =
    apply_fill-IsLong ledger purchase OrderSide.buy "600000" (utc 300) (omega arith) nothing-IsLong

oversell_keeps_proceeds_example :
    apply_fill (fill "f3" 11 200) OrderSide.sell "600000" (utc 90000) holding ≡ (
      err (value_error "cannot subtract from position"),
      record (record_fill holding (fill "f3" 11 200)) {
        cash = record holding.cash {
          cash = holding.cash.cash +ℤ mul_dec (whole 11) (whole 200) -ℤ whole 5;
        };
      },
    )
oversell_keeps_proceeds_example =
    oversell_keeps_proceeds holding (fill "f3" 11 200) "600000" (utc 90000) (new_fill "f3") covered
      short

settled_quantity-apply_fill_example :
    settled_quantity bought "600000" (utc 90000)
    ≡ settled_quantity ledger "600000" (utc 90000) +ℤ whole 100
settled_quantity-apply_fill_example =
    settled_quantity-apply_fill ledger purchase OrderSide.buy "600000" (utc 300) (utc 90000)
      purchase_goes_through
