-- ===== src/Clock.antt =====
-- time/clock.py: the clocks of tests and backtests. A `timedelta` is a number of microseconds.
pub mod Monotone
use invest_quant_system.Prelude.{◌+◌, List, [], ◌∷◌, ◌++◌, Bool}
use invest_quant_system.Prelude.Tests.{if◌then◌else◌}
use invest_quant_system.Prelude.Int.{ℤ, pos_part, is_negative}
use invest_quant_system.Prelude.Result.{Result, ok, err, market_data_validation, ◌>>=◌, ◌>>◌}
use invest_quant_system.Contracts.Moment.{Datetime, ltb_time, require_aware_utc}

pub record FrozenClock : Type 0 where
  pub current_time : Datetime

unfoldable pub new_frozen : Datetime → Result FrozenClock
new_frozen t = do require_aware_utc t "current_time"; ok (record { current_time = t })

-- `t + delta`, for a `delta` that is not negative
abbrev pub shift : Datetime → ℤ → Datetime
shift t delta = record t { instant = t.instant + pos_part delta }

-- `FrozenClock.advance`
unfoldable pub advance_frozen : FrozenClock → ℤ → Result FrozenClock
advance_frozen c delta =
    if is_negative delta
    then err (market_data_validation "FrozenClock cannot move backwards")
    else ok (record { current_time = shift c.current_time delta })

pub record VirtualClock : Type 0 where
  pub current_time : Datetime
  pub history : List Datetime

unfoldable pub new_virtual : Datetime → Result VirtualClock
new_virtual t = do
  require_aware_utc t "current_time"
  ok (record { current_time = t; history = [] })

-- the clock at a new time, which its history records
abbrev pub visit : VirtualClock → Datetime → VirtualClock
visit c t = record { current_time = t; history = c.history ++ t ∷ [] }

-- `VirtualClock.advance`
unfoldable pub advance : VirtualClock → ℤ → Result VirtualClock
advance c delta =
    if is_negative delta
    then err (market_data_validation "VirtualClock cannot move backwards")
    else ok (visit c (shift c.current_time delta))

-- `VirtualClock.advance_to`
unfoldable pub advance_to : VirtualClock → Datetime → Result VirtualClock
advance_to c target = do
  require_aware_utc target "target"
  if ltb_time target c.current_time
      then err (market_data_validation "VirtualClock cannot jump backwards")
      else ok (if ltb_time c.current_time target then visit c target else c)

pub data ClockCall : Type 0 where
  advance_by : ℤ → ClockCall
  jump_to : Datetime → ClockCall

-- A call that raises leaves the clock as it was.
abbrev pub settle_call : VirtualClock → Result VirtualClock → VirtualClock
settle_call c (ok c') = c'
settle_call c (err e) = c

unfoldable pub call : VirtualClock → ClockCall → VirtualClock
unfolding advance advance_to
call c (advance_by delta) = settle_call c (advance c delta)
call c (jump_to target) = settle_call c (advance_to c target)

unfoldable pub run_calls : VirtualClock → List ClockCall → VirtualClock
unfolding call
run_calls c [] = c
run_calls c (m ∷ ms) = run_calls (call c m) ms
