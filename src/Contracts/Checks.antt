-- ===== src/Contracts/Checks.antt =====
-- The loops over field names that the `validate` methods share, over pairs of a value and its name.
use invest_quant_system.Prelude.{
  String, ◌≡◌, refl, Bool, false, Option, none, some, List, [], ◌∷◌, arith,
}
use invest_quant_system.Prelude.Lists.{All}
use invest_quant_system.Prelude.Int.{pos, ltb_ℤ, ◌≤ℤ◌}
use invest_quant_system.Prelude.Decimal.{Decimal}
use invest_quant_system.Prelude.Text.{is_blank, text_append}
use invest_quant_system.Prelude.Result.{
  Result, ok, market_data_validation, ◌>>◌, raise_if, raise_if-ok, >>-ok,
}
use invest_quant_system.Contracts.Moment.{
  Datetime, IsUtc, require_aware_utc, require_aware_utc-ok, require_aware_utc_of_IsUtc,
}

-- `raise MarketDataValidationError(message)`
abbrev pub invalid_if : Bool → String → Result (Unit {0})
invalid_if b message = raise_if b (market_data_validation message)

pub invalid_if-ok :
    (b : Bool) (message : String) (m : Result (Unit {0}))
    → (invalid_if b message >> m) ≡ ok tt
    → (b ≡ false) × (m ≡ ok tt)
invalid_if-ok b message m h = raise_if-ok b (market_data_validation message) m h

-- `for field_name in (…): if not str(getattr(self, field_name)).strip(): raise …`
unfoldable pub require_texts : List (String × String) → Result (Unit {0})
require_texts [] = ok tt
require_texts ((value, field_name) ∷ rest) =
    invalid_if (is_blank value) (text_append field_name " is required") >> require_texts rest

-- `for field_name in (…): require_aware_utc(getattr(self, field_name), field_name)`
unfoldable pub require_all_utc : List (Datetime × String) → Result (Unit {0})
require_all_utc [] = ok tt
require_all_utc ((value, field_name) ∷ rest) =
    require_aware_utc value field_name >> require_all_utc rest

unfoldable pub require_non_negative : Option Decimal → String → Result (Unit {0})
require_non_negative none field_name = ok tt
require_non_negative (some value) field_name =
    invalid_if (ltb_ℤ value (pos 0)) (text_append field_name " must be non-negative")

-- `for field_name in (…): require_non_negative(getattr(self, field_name), field_name)`
unfoldable pub require_all_non_negative : List (Option Decimal × String) → Result (Unit {0})
require_all_non_negative [] = ok tt
require_all_non_negative ((value, field_name) ∷ rest) =
    require_non_negative value field_name >> require_all_non_negative rest

abbrev pub IsNonNegative : Option Decimal → Type 0
IsNonNegative none = Unit
IsNonNegative (some value) = pos 0 ≤ℤ value

pub require_texts-ok :
    (fields : List (String × String))
    → require_texts fields ≡ ok tt
    → All (λ f. is_blank f.0 ≡ false) fields
unfolding require_texts
require_texts-ok [] h = tt
require_texts-ok ((value, name) ∷ rest) h =
    let (p, q) =
      invalid_if-ok (is_blank value) (text_append name " is required") (require_texts rest) h in
    (p, require_texts-ok rest q)

pub require_all_utc-ok :
    (fields : List (Datetime × String))
    → require_all_utc fields ≡ ok tt
    → All (λ f. IsUtc f.0) fields
unfolding require_all_utc
require_all_utc-ok [] h = tt
require_all_utc-ok ((value, name) ∷ rest) h =
    let (p, q) = >>-ok (require_aware_utc value name) (require_all_utc rest) h in
    (require_aware_utc-ok value name p, require_all_utc-ok rest q)

require_non_negative-ok :
    (value : Option Decimal) (name : String)
    → require_non_negative value name ≡ ok tt
    → IsNonNegative value
unfolding require_non_negative
require_non_negative-ok none name h = tt
require_non_negative-ok (some value) name h = ground arith

pub require_all_non_negative-ok :
    (fields : List (Option Decimal × String))
    → require_all_non_negative fields ≡ ok tt
    → All (λ f. IsNonNegative f.0) fields
unfolding require_all_non_negative
require_all_non_negative-ok [] h = tt
require_all_non_negative-ok ((value, name) ∷ rest) h =
    let (p, q) = >>-ok (require_non_negative value name) (require_all_non_negative rest) h in
    (require_non_negative-ok value name p, require_all_non_negative-ok rest q)

pub require_texts_of_All :
    (fields : List (String × String))
    → All (λ f. is_blank f.0 ≡ false) fields
    → require_texts fields ≡ ok tt
unfolding require_texts
require_texts_of_All [] h = refl
require_texts_of_All (f ∷ rest) (p, q) = rw p (require_texts_of_All rest q)

pub require_all_utc_of_All :
    (fields : List (Datetime × String))
    → All (λ f. IsUtc f.0) fields
    → require_all_utc fields ≡ ok tt
unfolding require_all_utc
require_all_utc_of_All [] h = refl
require_all_utc_of_All ((value, name) ∷ rest) (p, q) =
    rw (require_aware_utc_of_IsUtc value name p) (require_all_utc_of_All rest q)

require_non_negative_of :
    (value : Option Decimal) (name : String)
    → IsNonNegative value
    → require_non_negative value name ≡ ok tt
unfolding require_non_negative
require_non_negative_of none name h = refl
require_non_negative_of (some value) name h = ground arith

pub require_all_non_negative_of_All :
    (fields : List (Option Decimal × String))
    → All (λ f. IsNonNegative f.0) fields
    → require_all_non_negative fields ≡ ok tt
unfolding require_all_non_negative
require_all_non_negative_of_All [] h = refl
require_all_non_negative_of_All ((value, name) ∷ rest) (p, q) =
    rw (require_non_negative_of value name p) (require_all_non_negative_of_All rest q)
