-- ===== src/Signals/Sqlite/Json.antt =====
-- signals/sqlite_repository.py: the JSON values of a payload, and how one is read back. A payload is
-- the value that its text says: the text of `isoformat` is the datetime that `fromisoformat` reads
-- from it, and that of a Decimal the Decimal. The order of an object's keys, which `sort_keys`
-- changes in the text, is that of the fields: no reader goes by it.
use invest_quant_system.Prelude.{String, ◌≡◌, refl, ite, Option, none, some, List, [], ◌∷◌}
use invest_quant_system.Prelude.Tests.{String_discrete}
use invest_quant_system.Prelude.Int.{ℤ}
use invest_quant_system.Prelude.Decimal.{Decimal}
use invest_quant_system.Prelude.Dict
use invest_quant_system.Prelude.Dict.{Dict}
use invest_quant_system.Prelude.Result.{
  Result, ok, err, ◌>>=◌, or_raise, key_error, type_error, value_error,
}
use invest_quant_system.Contracts.Moment.{Datetime}

mutual
  pub data Json : Type 0 where
    null : Json
    number : Decimal → Json
    integer : ℤ → Json
    text : String → Json
    time_text : Datetime → Json
    decimal_text : Decimal → Json
    array : List String → Json
    object : Fields → Json

  pub data Fields : Type 0 where
    no_fields : Fields
    field : String → Json → Fields → Fields

-- `asdict`, from the names of the fields and their values
abbrev pub fields_of : List (String × Json) → Fields
fields_of [] = no_fields
fields_of ((name, value) ∷ rest) = field name value (fields_of rest)

unfoldable pub lookup : Fields → String → Option Json
unfolding String_discrete
lookup no_fields name = none
lookup (field k value rest) name = ite (String_discrete k name) (some value) (lookup rest name)

abbrev pub option_json : {A : Type 0} → (A → Json) → Option A → Json
option_json write none = null
option_json write (some a) = write a

-- `payload[name]`, read as a value of the field's type; a payload that the repository has not
-- written may hold another
unfoldable pub at : {A : Type 0} → Fields → String → (Json → Result A) → Result A
unfolding lookup
at payload name read = or_raise (lookup payload name) key_error >>= read

abbrev wrong_type : {A : Type 0} → Result A
wrong_type = err (type_error "the value has another type than the field")

abbrev pub as_text : Json → Result String
as_text (text s) = ok s
as_text _ = wrong_type

abbrev pub as_integer : Json → Result ℤ
as_integer (integer n) = ok n
as_integer _ = wrong_type

abbrev pub as_number : Json → Result Decimal
as_number (number x) = ok x
as_number _ = wrong_type

-- `tuple(…)`
abbrev pub as_texts : Json → Result (List String)
as_texts (array texts) = ok texts
as_texts _ = wrong_type

abbrev pub as_object : Json → Result Fields
as_object (object payload) = ok payload
as_object _ = wrong_type

abbrev texts_or_empty : Option Json → Result (List String)
texts_or_empty none = ok []
texts_or_empty (some v) = as_texts v

-- `tuple(payload.get(name, ()))`
unfoldable pub texts_at : Fields → String → Result (List String)
unfolding lookup
texts_at payload name = texts_or_empty (lookup payload name)

-- `_datetime`
unfoldable pub as_time : Json → Result Datetime
as_time (time_text t) = ok t
as_time (text s) = err (value_error "Invalid isoformat string")
as_time _ = err (type_error "fromisoformat: argument must be str")

-- `Decimal(…)`
unfoldable pub as_decimal : Json → Result Decimal
as_decimal (decimal_text d) = ok d
as_decimal (text s) = err (value_error "InvalidOperation")
as_decimal _ = wrong_type

-- `None if value is None else …`, as `_decimal` has it
unfoldable pub as_option : {A : Type 0} → (Json → Result A) → Json → Result (Option A)
as_option read null = ok none
as_option read value = read value >>= λ a. ok (some a)

pub as_option-text : (o : Option String) → as_option as_text (option_json text o) ≡ ok o
unfolding as_option
as_option-text none = refl
as_option-text (some s) = refl

pub as_option-integer : (o : Option ℤ) → as_option as_integer (option_json integer o) ≡ ok o
unfolding as_option
as_option-integer none = refl
as_option-integer (some n) = refl

pub as_option-number : (o : Option Decimal) → as_option as_number (option_json number o) ≡ ok o
unfolding as_option
as_option-number none = refl
as_option-number (some x) = refl

pub as_option-time_text : (o : Option Datetime) → as_option as_time (option_json time_text o) ≡ ok o
unfolding as_option as_time
as_option-time_text none = refl
as_option-time_text (some t) = refl

pub as_option-decimal_text :
    (o : Option Decimal) → as_option as_decimal (option_json decimal_text o) ≡ ok o
unfolding as_option as_decimal
as_option-decimal_text none = refl
as_option-decimal_text (some d) = refl

-- `Enum(value)`: the member with a value
abbrev pub member : {A : Type 0} → Dict String A → Json → Result A
member members (text s) =
    or_raise (Dict.get String_discrete members s) (value_error "not a valid member")
member members _ = err (value_error "not a valid member")
