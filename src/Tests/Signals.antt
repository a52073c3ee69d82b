-- ===== src/Tests/Signals.antt =====
-- A signal that is recorded and validated, and its evaluation task that two workers want.
use invest_quant_system.Prelude.{◌+◌, ◌<◌, ◌≤◌, ◌≡◌, ◌≢◌, refl, ap, some, [], ◌∷◌, arith}
use invest_quant_system.Prelude.Tests.{String_discrete}
use invest_quant_system.Prelude.Int.{ℤ_discrete}
use invest_quant_system.Prelude.Decimal.{whole}
use invest_quant_system.Prelude.Text.{is_empty}
use invest_quant_system.Prelude.Dict.{get}
use invest_quant_system.Prelude.Result.{ok, err, signal_conflict}
use invest_quant_system.Contracts.Moment.{require_aware_utc, require_offset, microseconds}
use invest_quant_system.Contracts.Checks.{require_all_utc}
use invest_quant_system.Contracts.Features.{snapshot_visible_at}
use invest_quant_system.Contracts.Signals.{SignalEvent, validate_event, check_event, check_regime}
use invest_quant_system.Contracts.Evaluation.{task_key, TaskKey_discrete}
use invest_quant_system.Signals.Repository.{SignalRepository, claim, claimed}
use invest_quant_system.Signals.Repository.AppendOnly.{stored}
use invest_quant_system.Signals.Repository.Leases.{claim_exclusive}
use invest_quant_system.Tests.Data.{utc, signal, task}

abbrev repository : SignalRepository
repository = record {
  signals = ("signal", signal) ∷ [];
  tasks = (task_key task, task) ∷ [];
  evaluations = [];
}

abbrev other_signal : SignalEvent
other_signal = record signal { signal_id = "other" }

abbrev changed : SignalEvent
changed = record signal { reference_price = whole 11 }

signal_validates : validate_event signal ≡ ok tt
unfolding validate_event require_all_utc require_aware_utc require_offset ℤ_discrete check_event
    snapshot_visible_at check_regime is_empty
signal_validates = refl

changed_validates : validate_event changed ≡ ok tt
unfolding validate_event require_all_utc require_aware_utc require_offset ℤ_discrete check_event
    snapshot_visible_at check_regime is_empty
changed_validates = refl

stored_signal : stored repository "signal" ≡ some signal
unfolding get String_discrete
stored_signal = refl

changed_differs : signal ≢ changed
changed_differs p = ground (arith, ap (λ (s : SignalEvent). s.reference_price) p)

first_claim :
    (claim (task_key task) "w1" (utc 4000) 60 repository).0 ≡ ok (claimed task "w1" (utc 4000) 60)
unfolding claim get TaskKey_discrete String_discrete ℤ_discrete
first_claim = refl

claim_exclusive_example :
    let r' = (claim (task_key task) "w1" (utc 4000) 60 repository).1 in
    ((utc 4030).instant < (utc 4000).instant + microseconds 60
      → claim (task_key task) "w2" (utc 4030) 60 r'
        ≡ (err (signal_conflict "task lease is still active"), r'))
    × ((utc 4000).instant + microseconds 60 ≤ (utc 4030).instant
        → (claim (task_key task) "w2" (utc 4030) 60 r').0
          ≡ ok (claimed (claimed task "w1" (utc 4000) 60) "w2" (utc 4030) 60))
claim_exclusive_example =
    claim_exclusive (task_key task) "w1" "w2" (utc 4000) (utc 4030) 60 60 repository
      (claimed task "w1" (utc 4000) 60) first_claim
