-- ===== src/Tests/Clock.antt =====
-- A virtual clock that is advanced, sent back and sent on.
use invest_quant_system.Prelude.{◌≤◌, List, [], ◌∷◌}
use invest_quant_system.Prelude.Int.{pos, negsuc}
use invest_quant_system.Clock.{VirtualClock, ClockCall, advance_by, jump_to, run_calls}
use invest_quant_system.Clock.Monotone.{IsConsistent, run_calls-IsConsistent}
use invest_quant_system.Tests.Data.{utc}

abbrev clock : VirtualClock
clock = record { current_time = utc 100; history = [] }

abbrev clock_calls : List ClockCall
clock_calls =
    advance_by (pos 5000000) ∷ advance_by (negsuc 0) ∷ jump_to (utc 90) ∷ jump_to (utc 200) ∷ []

clock-IsConsistent : IsConsistent clock
clock-IsConsistent = record { ascending = tt; reached = tt }

run_calls-IsConsistent_example :
    IsConsistent (run_calls clock clock_calls)
    × (clock.current_time.instant ≤ (run_calls clock clock_calls).current_time.instant)
run_calls-IsConsistent_example = run_calls-IsConsistent clock clock_calls clock-IsConsistent
