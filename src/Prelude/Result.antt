-- ===== src/Prelude/Result.antt =====
-- Errors as values, and methods that change an object and may raise. What was written before a
-- raise stays written, so the state comes back beside the error too.
use Prim.Native.String.{String}
use mathlib.Core.Path.{◌≡◌, refl}
use mathlib.Core.Logic.{◌⊎◌, inl, inr}
use mathlib.Core.Bool.{Bool, true, false}
use mathlib.Core.Option.{Option, none, some}

-- the exception classes that the modelled code raises
pub data Error : Type 0 where
  market_data_validation value_error type_error signal_conflict version_conflict : String → Error
  duplicate_freeze duplicate_universe universe_not_found universe_unavailable : String → Error
  composer_conflict decision_conflict : String → Error
  key_error division_by_zero invalid_operation : Error

-- what a call returned, or the exception that it raised
pub data Result {ℓ} (A : Type ℓ) : Type ℓ where
  err : Error → Result A
  ok : A → Result A

-- `if b: raise e`
abbrev pub raise_if : Bool → Error → Result (Unit {0})
raise_if true e = err e
raise_if false e = ok tt

infixl 5 ◌>>=◌ ◌>>◌
abbrev pub ◌>>=◌ {ℓ κ} : {A : Type ℓ} {B : Type κ} → Result A → (A → Result B) → Result B
err raised >>= next = err raised
ok value >>= next = next value

-- a statement, and the statements behind it
abbrev pub ◌>>◌ {ℓ} : {B : Type ℓ} → Result (Unit {0}) → Result B → Result B
first >> rest = first >>= λ _. rest

abbrev pub or_raise {ℓ} : {A : Type ℓ} → Option A → Error → Result A
or_raise none e = err e
or_raise (some a) e = ok a

abbrev pub is_ok {ℓ} : {A : Type ℓ} → Result A → Bool
is_ok (ok a) = true
is_ok (err e) = false

-- A guarded sequence succeeds exactly when the guard is off and the rest succeeds.
pub raise_if-ok :
    (b : Bool) (e : Error) (m : Result (Unit {0}))
    → (raise_if b e >> m) ≡ ok tt
    → (b ≡ false) × (m ≡ ok tt)
raise_if-ok false e m h = (refl, h)
raise_if-ok true e m h = cc

pub >>-ok : (m k : Result (Unit {0})) → (m >> k) ≡ ok tt → (m ≡ ok tt) × (k ≡ ok tt)
>>-ok (ok tt) k h = (refl, h)
>>-ok (err e) k h = cc

-- What a chain returned came from both of its steps.
pub step-ok {ℓ} :
    {B : Type ℓ} (m : Result (Unit {0})) (next : Unit {0} → Result B) (value : B)
    → (m >>= next) ≡ ok value
    → (m ≡ ok tt) × (next tt ≡ ok value)
step-ok (ok u) next value h = (refl, h)
step-ok (err raised) next value h = cc

pub bind-ok {ℓ κ} :
    {A : Type ℓ} {B : Type κ} (m : Result A) (next : A → Result B) (value : B)
    → (m >>= next) ≡ ok value
    → (a : A) × (m ≡ ok a) × (next a ≡ ok value)
bind-ok (ok a) next value h = (a, refl, h)
bind-ok (err raised) next value h = cc

pub Result-cases {ℓ} :
    {A : Type ℓ} (m : Result A)
    → ((value : A) × (m ≡ ok value)) ⊎ ((raised : Error) × (m ≡ err raised))
Result-cases (err raised) = inr (raised, refl)
Result-cases (ok value) = inl (value, refl)
