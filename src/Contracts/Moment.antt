-- ===== src/Contracts/Moment.antt =====
-- Python's `datetime`: the instant, in microseconds since the first of January of the year 1, UTC,
-- and the offset of its zone in seconds, which a naive datetime does not have. Comparisons are
-- between aware datetimes and go by the instant.
use invest_quant_system.Prelude.{
  ℕ, ◌+◌, ◌*◌, String, ◌≡◌, ite, Bool, Option, none, some, arith, ℕ_discrete,
}
use invest_quant_system.Prelude.Tests.{ltb, leb}
use invest_quant_system.Prelude.Int.{ℤ, pos, ℤ_discrete}
use invest_quant_system.Prelude.Text.{text_append}
use invest_quant_system.Prelude.Result.{Result, ok, err, market_data_validation}

pub record Datetime : Type 0 where
  pub instant : ℕ
  pub utc_offset : Option ℤ

unfoldable pub Datetime_discrete : Discrete Datetime
unfolding ℕ_discrete ℤ_discrete
Datetime_discrete = hlevel (ℕ_discrete, ℤ_discrete)

abbrev pub leb_time : Datetime → Datetime → Bool
leb_time a b = leb a.instant b.instant

abbrev pub ltb_time : Datetime → Datetime → Bool
ltb_time a b = ltb a.instant b.instant

abbrev pub microseconds : ℕ → ℕ
microseconds seconds = seconds * 1000000

-- `t + timedelta(seconds=s)`
abbrev pub add_seconds : Datetime → ℕ → Datetime
add_seconds t s = record t { instant = t.instant + microseconds s }

abbrev pub IsUtc : Datetime → Type 0
IsUtc t = t.utc_offset ≡ some (pos 0)

unfoldable pub require_offset : Option ℤ → String → Result (Unit {0})
require_offset none field_name =
    err (market_data_validation (text_append field_name " must be timezone-aware"))
require_offset (some offset) field_name =
    ite (ℤ_discrete offset (pos 0)) (ok tt)
      (err (market_data_validation (text_append field_name " must be stored in UTC")))

unfoldable pub require_aware_utc : Datetime → String → Result (Unit {0})
unfolding require_offset ℤ_discrete
require_aware_utc value field_name = require_offset value.utc_offset field_name

-- The check passes exactly the aware datetimes whose offset is zero.
pub require_aware_utc-ok :
    (t : Datetime) (name : String) → require_aware_utc t name ≡ ok tt → IsUtc t
unfolding require_aware_utc
require_aware_utc-ok t name h = ground arith

pub require_aware_utc_of_IsUtc :
    (t : Datetime) (name : String) → IsUtc t → require_aware_utc t name ≡ ok tt
unfolding require_aware_utc
require_aware_utc_of_IsUtc t name h = ground arith
