-- ===== src/Signals/Repository.antt =====
-- signals/repository.py: the append-only store of signals, evaluation tasks and evaluations.
pub mod AppendOnly
pub mod Leases
pub mod Due
pub mod Evaluations
use invest_quant_system.Prelude.{
  ℕ, ◌+◌, String, Bool, true, false, ◌&&◌, ◌||◌, ite, Option, none, some, List, [],
}
use invest_quant_system.Prelude.Tests.{ltb, leb, String_discrete, if◌then◌else◌}
use invest_quant_system.Prelude.Dict
use invest_quant_system.Prelude.Dict.{Dict, values, set_default}
use invest_quant_system.Prelude.Sort.{keep, sort_by}
use invest_quant_system.Prelude.Result.{Result, ok, err, signal_conflict, type_error, key_error}
use invest_quant_system.Contracts.Moment.{Datetime, add_seconds, leb_time, ltb_time}
use invest_quant_system.Contracts.Signals.{SignalEvent, SignalEvent_discrete, validate_event}
use invest_quant_system.Contracts.Evaluation.{
  EvaluationTask, EvaluationTaskStatus, pending, running, completed, postponed, TaskKey,
  TaskKey_discrete, task_key, validate_task, SignalEvaluation, SignalEvaluation_discrete,
  EvaluationKey, EvaluationKey_discrete, evaluation_key, validate_evaluation,
}

pub record SignalRepository : Type 0 where
  pub signals : Dict String SignalEvent
  pub tasks : Dict TaskKey EvaluationTask
  pub evaluations : Dict EvaluationKey SignalEvaluation

abbrev pub new_repository : SignalRepository
new_repository = record { signals = []; tasks = []; evaluations = [] }

-- What a call leaves, and what it returned or raised.
abbrev pub Outcome : Type 0 → Type 0
Outcome A = Result A × SignalRepository

-- a valid event, against what its id holds
unfoldable pub append_checked : Option SignalEvent → SignalEvent → SignalRepository → Outcome String
append_checked none event r = (
  ok event.signal_id,
  record r { signals = Dict.put String_discrete r.signals event.signal_id event },
)
append_checked (some existing) event r =
    ite (SignalEvent_discrete existing event) (ok event.signal_id, r)
      (err (signal_conflict "SignalEvent append-only conflict"), r)

abbrev pub append_behind : Result (Unit {0}) → SignalEvent → SignalRepository → Outcome String
append_behind (err e) event r = (err e, r)
append_behind (ok _) event r =
    append_checked (Dict.get String_discrete r.signals event.signal_id) event r

-- `append_signal`
unfoldable pub append_signal : SignalEvent → SignalRepository → Outcome String
unfolding append_checked
append_signal event r = append_behind (validate_event event) event r

-- `self._signals[signal_id]`
unfoldable pub get_signal : SignalRepository → String → Result SignalEvent
get_signal r signal_id = elim (Dict.get String_discrete r.signals signal_id) [
  | none ↦ err key_error
  | some event ↦ ok event
]

unfoldable pub list_signals : SignalRepository → List SignalEvent
list_signals r = sort_by (λ (s : SignalEvent). s.event_time.instant) (values r.signals)

abbrev pub upsert_task_behind :
    Result (Unit {0}) → EvaluationTask → SignalRepository → Outcome (Unit {0})
upsert_task_behind (err e) task r = (err e, r)
upsert_task_behind (ok _) task r =
    (ok tt, record r { tasks = set_default TaskKey_discrete r.tasks (task_key task) task })

-- `upsert_task`: a task that is there is left as it is
unfoldable pub upsert_task : EvaluationTask → SignalRepository → Outcome (Unit {0})
upsert_task task r = upsert_task_behind (validate_task task) task r

-- `status in {PENDING, POSTPONED}`
abbrev pub is_open : EvaluationTaskStatus → Bool
is_open pending = true
is_open postponed = true
is_open _ = false

abbrev pub is_running : EvaluationTaskStatus → Bool
is_running running = true
is_running _ = false

-- `next_retry_at is None or next_retry_at <= now`
abbrev pub is_retry_due : Option Datetime → Datetime → Bool
is_retry_due none now = true
is_retry_due (some t) now = leb_time t now

abbrev pub is_due : Datetime → EvaluationTask → Bool
is_due now task =
    leb_time task.due_time now && (is_open task.status && is_retry_due task.next_retry_at now)

unfoldable pub find_due_tasks : SignalRepository → Datetime → List EvaluationTask
find_due_tasks r now =
    sort_by (λ (t : EvaluationTask). t.due_time.instant) (keep (is_due now) (values r.tasks))

-- `lease_expires_at is not None and lease_expires_at <= now`
abbrev pub is_lease_over : Option Datetime → Datetime → Bool
is_lease_over none now = false
is_lease_over (some t) now = leb_time t now

abbrev pub is_expired : Datetime → EvaluationTask → Bool
is_expired now task = is_running task.status && is_lease_over task.lease_expires_at now

unfoldable pub find_expired_leases : SignalRepository → Datetime → List EvaluationTask
find_expired_leases r now = keep (is_expired now) (values r.tasks)

-- `replace(task, status=RUNNING, …)`
abbrev pub claimed : EvaluationTask → String → Datetime → ℕ → EvaluationTask
claimed task worker_id now lease_seconds = record task {
  status = running;
  claimed_at = some now;
  lease_expires_at = some (add_seconds now lease_seconds);
  worker_id = some worker_id;
  attempts = task.attempts + 1;
}

abbrev pub put_task : SignalRepository → TaskKey → EvaluationTask → SignalRepository
put_task r key task = record r { tasks = Dict.put TaskKey_discrete r.tasks key task }

abbrev grant : TaskKey → EvaluationTask → SignalRepository → Outcome EvaluationTask
grant key task r = (ok task, put_task r key task)

-- `lease_expires_at > now`; comparing no lease with a time raises
abbrev pub claim_running :
    Option Datetime
    → TaskKey
    → EvaluationTask
    → String
    → Datetime
    → ℕ
    → SignalRepository
    → Outcome EvaluationTask
claim_running none key task worker_id now lease_seconds r =
    (err (type_error "'>' not supported between 'NoneType' and 'datetime'"), r)
claim_running (some expiry) key task worker_id now lease_seconds r =
    if ltb_time now expiry
    then (err (signal_conflict "task lease is still active"), r)
    else grant key (claimed task worker_id now lease_seconds) r

abbrev pub claim_task :
    Option EvaluationTask
    → TaskKey
    → String
    → Datetime
    → ℕ
    → SignalRepository
    → Outcome EvaluationTask
claim_task none key worker_id now lease_seconds r = (err key_error, r)
claim_task (some task) key worker_id now lease_seconds r =
    if is_running task.status
    then claim_running task.lease_expires_at key task worker_id now lease_seconds r
    else grant key (claimed task worker_id now lease_seconds) r

-- `claim`
unfoldable pub claim : TaskKey → String → Datetime → ℕ → SignalRepository → Outcome EvaluationTask
claim key worker_id now lease_seconds r =
    claim_task (Dict.get TaskKey_discrete r.tasks key) key worker_id now lease_seconds r

-- `task = self._tasks[key]; self._tasks[key] = replace(task, …)`
abbrev pub replace_task :
    Option EvaluationTask
    → (EvaluationTask → EvaluationTask)
    → TaskKey
    → SignalRepository
    → Outcome (Unit {0})
replace_task none f key r = (err key_error, r)
replace_task (some task) f key r = (ok tt, put_task r key (f task))

unfoldable pub complete_task : TaskKey → SignalRepository → Outcome (Unit {0})
complete_task key r =
    replace_task (Dict.get TaskKey_discrete r.tasks key) (λ t. record t { status = completed }) key
      r

unfoldable pub postpone_task : TaskKey → Datetime → String → SignalRepository → Outcome (Unit {0})
postpone_task key next_retry_at reason r =
    replace_task (Dict.get TaskKey_discrete r.tasks key)
      (λ t. record t {
        status = postponed;
        next_retry_at = some next_retry_at;
        last_error = some reason;
      })
      key r

-- the text that `upsert_evaluation` returns
pub data Upserted : Type 0 where
  inserted duplicate : Upserted

unfoldable pub upsert_checked :
    Option SignalEvaluation → SignalEvaluation → SignalRepository → Outcome Upserted
upsert_checked none e r = (
  ok inserted,
  record r { evaluations = Dict.put EvaluationKey_discrete r.evaluations (evaluation_key e) e },
)
upsert_checked (some existing) e r =
    ite (SignalEvaluation_discrete existing e) (ok duplicate, r)
      (err (signal_conflict "SignalEvaluation idempotency conflict"), r)

abbrev pub upsert_behind :
    Result (Unit {0}) → SignalEvaluation → SignalRepository → Outcome Upserted
upsert_behind (err x) e r = (err x, r)
upsert_behind (ok _) e r =
    upsert_checked (Dict.get EvaluationKey_discrete r.evaluations (evaluation_key e)) e r

unfoldable pub upsert_evaluation : SignalEvaluation → SignalRepository → Outcome Upserted
unfolding upsert_checked
upsert_evaluation e r = upsert_behind (validate_evaluation e) e r

unfoldable pub list_evaluations : SignalRepository → List SignalEvaluation
list_evaluations r =
    sort_by (λ (e : SignalEvaluation). e.evaluation_time.instant) (values r.evaluations)
