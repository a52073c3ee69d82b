-- ===== src/Clock/Monotone.antt =====
-- A virtual clock never moves back, and its history is an ascending record of where it was.
use invest_quant_system.Prelude.{◌≤◌, ◌≡◌, refl, ◌↔◌, List, [], ◌∷◌, arith, inl, inr}
use invest_quant_system.Prelude.Tests.{Bool-cases, if◌then◌else◌}
use invest_quant_system.Prelude.Int.{pos, negsuc}
use invest_quant_system.Prelude.Lists.{All, All-append, All-map, IsAscending, IsAscending-snoc}
use invest_quant_system.Prelude.Result.{ok, err, market_data_validation, Result-cases}
use invest_quant_system.Contracts.Moment.{
  Datetime, IsUtc, ltb_time, require_aware_utc, require_aware_utc_of_IsUtc,
}
use invest_quant_system.Clock.{
  VirtualClock, ClockCall, advance_by, jump_to, visit, shift, advance_to, call, run_calls,
  settle_call,
}

pub record IsConsistent (c : VirtualClock) : Type 0 where
  pub ascending : IsAscending (λ t. t.instant) c.history
  pub reached : All (λ t. t.instant ≤ c.current_time.instant) c.history

visit-IsConsistent :
    (c : VirtualClock) (t : Datetime)
    → c.current_time.instant ≤ t.instant
    → IsConsistent c
    → IsConsistent (visit c t)
visit-IsConsistent c t later h =
    let below =
      All-map (λ x. x.instant ≤ c.current_time.instant) (λ x. x.instant ≤ t.instant)
        (λ x p. omega arith) c.history h.reached in
    record {
      ascending = IsAscending-snoc (λ t. t.instant) c.history t h.ascending below;
      reached = All-append (λ x. x.instant ≤ t.instant) c.history (t ∷ []) below (omega arith, tt);
    }

-- The rest of `advance_to`, behind the check of the zone.
jump :
    (c : VirtualClock) (t : Datetime)
    → IsConsistent c
    → let c' = settle_call c (
        if ltb_time t c.current_time
        then err (market_data_validation "VirtualClock cannot jump backwards")
        else ok (if ltb_time c.current_time t then visit c t else c)) in
      IsConsistent c' × (c.current_time.instant ≤ c'.current_time.instant)
jump c t h = elim (Bool-cases (ltb_time t c.current_time)) [
  | inl back ↦ rw back (h, omega arith)
  | inr ahead ↦ rw ahead (elim (Bool-cases (ltb_time c.current_time t)) [
    | inl later ↦ rw later (visit-IsConsistent c t (ground arith) h, ground arith)
    | inr same ↦ rw same (h, omega arith)
  ])
]

-- One call moves the clock forward or leaves it, and keeps it consistent.
pub call-IsConsistent :
    (c : VirtualClock) (m : ClockCall)
    → IsConsistent c
    → IsConsistent (call c m) × (c.current_time.instant ≤ (call c m).current_time.instant)
unfolding call
call-IsConsistent c (advance_by (pos d)) h =
    (visit-IsConsistent c (shift c.current_time (pos d)) (omega arith) h, omega arith)
call-IsConsistent c (advance_by (negsuc d)) h = (h, omega arith)
call-IsConsistent c (jump_to t) h = elim (Result-cases (require_aware_utc t "target")) [
  | inr (e, p) ↦ rw p (h, omega arith)
  | inl (_, p) ↦ rw p (jump c t h)
]

-- From a consistent clock, after any calls, those that raise included, the clock is not before where it started, its
-- history ascends, and no time in the history is past the current time.
pub run_calls-IsConsistent :
    (c : VirtualClock) (ms : List ClockCall)
    → IsConsistent c
    → IsConsistent (run_calls c ms)
      × (c.current_time.instant ≤ (run_calls c ms).current_time.instant)
unfolding run_calls
run_calls-IsConsistent c [] h = (h, omega arith)
run_calls-IsConsistent c (m ∷ ms) h =
    let (k, p) = call-IsConsistent c m h in
    let (l, q) = run_calls-IsConsistent (call c m) ms k in (l, omega arith)

-- `advance_to` a UTC time succeeds exactly when the time is not before the clock, and then the
-- clock shows that time.
pub advance_to_iff :
    (c : VirtualClock) (t : Datetime)
    → IsUtc t
    → ((c' : VirtualClock) × (advance_to c t ≡ ok c') × (c'.current_time.instant ≡ t.instant))
      ↔ (c.current_time.instant ≤ t.instant)
unfolding advance_to
advance_to_iff c t u = rw (require_aware_utc_of_IsUtc t "target" u) (
  (λ (c', e, p). ground arith),
  λ h. elim (Bool-cases (ltb_time c.current_time t)) [
    | inl later ↦ (visit c t, ground arith, refl)
    | inr same ↦ (c, ground arith, ground arith)
  ],
)
