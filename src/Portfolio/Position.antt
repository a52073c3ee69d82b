-- ===== src/Portfolio/Position.antt =====
-- portfolio/position.py: the quantity held of each symbol. A quantity of zero is not kept.
pub mod Laws
use invest_quant_system.Prelude.{String, ite, Option, none, some, List, [], ◌∷◌}
use invest_quant_system.Prelude.Tests.{if◌then◌else◌, String_discrete}
use invest_quant_system.Prelude.Int.{pos, ◌+ℤ◌, ◌-ℤ◌, ltb_ℤ, ℤ_discrete}
use invest_quant_system.Prelude.Decimal.{Decimal, mul_dec}
use invest_quant_system.Prelude.Dict
use invest_quant_system.Prelude.Dict.{Dict, keys}
use invest_quant_system.Prelude.Result.{Result, ok, err, value_error}

abbrev pub Positions : Type 0
Positions = Dict String Decimal

abbrev pub or_zero : Option Decimal → Decimal
or_zero none = pos 0
or_zero (some quantity) = quantity

-- `PositionLedger.get`
unfoldable pub quantity_of : Positions → String → Decimal
quantity_of ps symbol = or_zero (Dict.get String_discrete ps symbol)

-- `self._positions[symbol] = quantity`, and the deletion of a zero
unfoldable pub store : Positions → String → Decimal → Positions
store ps symbol quantity =
    let stored = Dict.put String_discrete ps symbol quantity in
    ite (ℤ_discrete quantity (pos 0)) (Dict.del String_discrete stored symbol) stored

unfoldable pub add : Positions → String → Decimal → Positions
add ps symbol quantity = store ps symbol (quantity_of ps symbol +ℤ quantity)

unfoldable pub subtract : Positions → String → Decimal → Result Positions
subtract ps symbol quantity =
    if ltb_ℤ (quantity_of ps symbol) quantity
    then err (value_error "cannot subtract from position")
    else ok (store ps symbol (quantity_of ps symbol -ℤ quantity))

abbrev pub symbols : Positions → List String
symbols = keys

-- the sum in `total_value`, over the keys
value_of : Positions → Dict String Decimal → List String → Decimal
value_of ps prices [] = pos 0
value_of ps prices (s ∷ rest) =
    mul_dec (quantity_of ps s) (or_zero (Dict.get String_discrete prices s))
    +ℤ value_of ps prices rest

unfoldable pub total_value : Positions → Dict String Decimal → Decimal
unfolding value_of
total_value ps prices = value_of ps prices (symbols ps)
