-- ===== src/Signals/Sqlite/Filed.antt =====
-- The tasks of the store in memory stay filed, as the SQLite store needs them.
use invest_quant_system.Prelude.{
  ℕ, String, ◌≡◌, refl, true, false, Option, none, some, inl, inr, ite,
}
use invest_quant_system.Prelude.Tests.{Bool-cases}
use invest_quant_system.Prelude.Dict
use invest_quant_system.Prelude.Dict.{Entries, Entries-put, Entries-set_default, Entries-get}
use invest_quant_system.Prelude.Result.{ok, err, Result-cases, signal_conflict}
use invest_quant_system.Contracts.Moment.{Datetime, ltb_time}
use invest_quant_system.Prelude.Tests.{String_discrete}
use invest_quant_system.Contracts.Signals.{SignalEvent, SignalEvent_discrete, validate_event}
use invest_quant_system.Contracts.Evaluation.{
  SignalEvaluation, SignalEvaluation_discrete, EvaluationKey_discrete, evaluation_key,
  validate_evaluation, EvaluationTask, TaskKey, TaskKey_discrete, task_key, validate_task,
}
use invest_quant_system.Signals.Repository
use invest_quant_system.Signals.Repository.{
  SignalRepository, append_checked, upsert_checked, Upserted, duplicate, claimed, claim_running,
  claim_task, is_running, put_task,
}
use invest_quant_system.Signals.Sqlite.Store.{is_naive}
use invest_quant_system.Signals.Sqlite.Tasks.{
  IsFiled, AreFiled, is_leased, completed_task, postponed_task, completed_task-IsFiled,
  postponed_task-IsFiled,
}

put_task-AreFiled :
    (r : SignalRepository) (key : TaskKey) (t : EvaluationTask)
    → AreFiled r
    → IsFiled key t
    → AreFiled (put_task r key t)
put_task-AreFiled r key t h f = Entries-put TaskKey_discrete IsFiled r.tasks key t h f

-- what a task that is upserted has, beside what its validation checks
abbrev pub IsFresh : EvaluationTask → Type 0
IsFresh t = (is_naive t.next_retry_at ≡ false) × (is_leased t ≡ true)

pub upsert_task-AreFiled :
    (t : EvaluationTask) (r : SignalRepository)
    → AreFiled r
    → IsFresh t
    → AreFiled (Repository.upsert_task t r).1
unfolding Repository.upsert_task
upsert_task-AreFiled t r h f = elim (Result-cases (validate_task t)) [
  | inl (u, e) ↦ rw e (
      Entries-set_default TaskKey_discrete IsFiled r.tasks (task_key t) t h
        (refl, rw e (rw (f.0) refl), f.1))
  | inr (x, e) ↦ rw e h
]

running-AreFiled :
    (expiry : Option Datetime) (key : TaskKey) (t : EvaluationTask) (worker_id : String)
    (now : Datetime) (lease_seconds : ℕ) (r : SignalRepository)
    → AreFiled r
    → IsFiled key t
    → AreFiled (claim_running expiry key t worker_id now lease_seconds r).1
unfolding validate_task
running-AreFiled none key t worker_id now lease_seconds r h f = h
running-AreFiled (some expiry) key t worker_id now lease_seconds r h f =
    elim (Bool-cases (ltb_time now expiry)) [
      | inl e ↦ rw e h
      | inr e ↦
          rw e (put_task-AreFiled r key (claimed t worker_id now lease_seconds) h (f.0, f.1, refl))
    ]

found-AreFiled :
    (o : Option EvaluationTask) (key : TaskKey) (worker_id : String) (now : Datetime)
    (lease_seconds : ℕ) (r : SignalRepository)
    → AreFiled r
    → Dict.get TaskKey_discrete r.tasks key ≡ o
    → AreFiled (claim_task o key worker_id now lease_seconds r).1
unfolding validate_task
found-AreFiled none key worker_id now lease_seconds r h g = h
found-AreFiled (some t) key worker_id now lease_seconds r h g =
    let f = Entries-get TaskKey_discrete IsFiled r.tasks key t h g in
    elim (Bool-cases (is_running t.status)) [
      | inl e ↦ rw e (running-AreFiled t.lease_expires_at key t worker_id now lease_seconds r h f)
      | inr e ↦
          rw e (put_task-AreFiled r key (claimed t worker_id now lease_seconds) h (f.0, f.1, refl))
    ]

pub claim-AreFiled :
    (key : TaskKey) (worker_id : String) (now : Datetime) (lease_seconds : ℕ) (r : SignalRepository)
    → AreFiled r
    → AreFiled (Repository.claim key worker_id now lease_seconds r).1
unfolding Repository.claim
claim-AreFiled key worker_id now lease_seconds r h =
    found-AreFiled (Dict.get TaskKey_discrete r.tasks key) key worker_id now lease_seconds r h refl

replaced-AreFiled :
    (o : Option EvaluationTask) (f : EvaluationTask → EvaluationTask) (key : TaskKey)
    (r : SignalRepository)
    → AreFiled r
    → ((t : EvaluationTask) → IsFiled key t → IsFiled key (f t))
    → Dict.get TaskKey_discrete r.tasks key ≡ o
    → AreFiled (Repository.replace_task o f key r).1
replaced-AreFiled none f key r h k g = h
replaced-AreFiled (some t) f key r h k g =
    put_task-AreFiled r key (f t) h (k t (Entries-get TaskKey_discrete IsFiled r.tasks key t h g))

pub complete_task-AreFiled :
    (key : TaskKey) (r : SignalRepository)
    → AreFiled r
    → AreFiled (Repository.complete_task key r).1
unfolding Repository.complete_task
complete_task-AreFiled key r h =
    replaced-AreFiled (Dict.get TaskKey_discrete r.tasks key) completed_task key r h
      (completed_task-IsFiled key) refl

pub postpone_task-AreFiled :
    (key : TaskKey) (next_retry_at : Datetime) (reason : String) (r : SignalRepository)
    → AreFiled r
    → is_naive (some next_retry_at) ≡ false
    → AreFiled (Repository.postpone_task key next_retry_at reason r).1
unfolding Repository.postpone_task
postpone_task-AreFiled key next_retry_at reason r h n =
    replaced-AreFiled (Dict.get TaskKey_discrete r.tasks key) (postponed_task next_retry_at reason)
      key r h (λ t. postponed_task-IsFiled next_retry_at reason key t n) refl

append_checked-tasks :
    (o : Option SignalEvent) (event : SignalEvent) (r : SignalRepository)
    → (append_checked o event r).1.tasks ≡ r.tasks
unfolding append_checked
append_checked-tasks none event r = refl
append_checked-tasks (some existing) event r =
    elim (SignalEvent_discrete existing event)
      as (λ t.
        (ite {C = Repository.Outcome String} t (ok event.signal_id, r)
          (err (signal_conflict "SignalEvent append-only conflict"), r)).1.tasks
        ≡ r.tasks) [ yes e ↦ refl | no n ↦ refl ]

pub append_signal-AreFiled :
    (event : SignalEvent) (r : SignalRepository)
    → AreFiled r
    → AreFiled (Repository.append_signal event r).1
unfolding Repository.append_signal
append_signal-AreFiled event r h = elim (Result-cases (validate_event event)) [
  | inl (u, e) ↦
      rw e
        (rw (append_checked-tasks (Dict.get String_discrete r.signals event.signal_id) event r) h)
  | inr (x, e) ↦ rw e h
]

upsert_checked-tasks :
    (o : Option SignalEvaluation) (e : SignalEvaluation) (r : SignalRepository)
    → (upsert_checked o e r).1.tasks ≡ r.tasks
unfolding upsert_checked
upsert_checked-tasks none e r = refl
upsert_checked-tasks (some existing) e r =
    elim (SignalEvaluation_discrete existing e)
      as (λ t.
        (ite {C = Repository.Outcome Upserted} t (ok duplicate, r)
          (err (signal_conflict "SignalEvaluation idempotency conflict"), r)).1.tasks
        ≡ r.tasks) [ yes q ↦ refl | no n ↦ refl ]

pub upsert_evaluation-AreFiled :
    (e : SignalEvaluation) (r : SignalRepository)
    → AreFiled r
    → AreFiled (Repository.upsert_evaluation e r).1
unfolding Repository.upsert_evaluation
upsert_evaluation-AreFiled e r h = elim (Result-cases (validate_evaluation e)) [
  | inl (u, q) ↦ rw q (
      rw
        (upsert_checked-tasks (Dict.get EvaluationKey_discrete r.evaluations (evaluation_key e)) e
          r)
        h)
  | inr (x, q) ↦ rw q h
]
