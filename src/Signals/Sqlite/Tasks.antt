-- ===== src/Signals/Sqlite/Tasks.antt =====
-- The calls of the SQLite store that replace a task, against those of the store in memory.
use invest_quant_system.Prelude.{
  ℕ, String, ◌≡◌, refl, Bool, true, false, Option, none, some, inl, inr,
}
use invest_quant_system.Prelude.Tests.{Bool-cases, if◌then◌else◌}
use invest_quant_system.Prelude.Dict
use invest_quant_system.Prelude.Dict.{
  Entries, Entries-put, Entries-get, map_values, map_option, get-map_values, put-map_values,
  is_some,
}
use invest_quant_system.Prelude.Result.{ok, err, or_raise, key_error, signal_conflict, step-ok}
use invest_quant_system.Contracts.Moment.{Datetime, ltb_time}
use invest_quant_system.Contracts.Evaluation.{
  EvaluationTask, completed, postponed, TaskKey, TaskKey_discrete, task_key, validate_task,
}
use invest_quant_system.Signals.Repository
use invest_quant_system.Signals.Repository.{
  SignalRepository, claimed, claim_running, claim_task, is_running, put_task,
}
use invest_quant_system.Signals.Sqlite.RoundTrip.{task_from_json-task_json}
use invest_quant_system.Signals.Sqlite.Store
use invest_quant_system.Signals.Sqlite.Tables.{task_row}
use invest_quant_system.Signals.Sqlite.Store.{
  Outcome, task_of, get_task, replace_task, check_replaced, claim_found, change_found, is_naive,
  is_lease_active,
}
use invest_quant_system.Signals.Sqlite.Refines.{db_of, stored_as}

-- a running task has a lease
abbrev pub is_leased : EvaluationTask → Bool
is_leased t = if is_running t.status then is_some t.lease_expires_at else true

-- A task is filed under its own key, passes the checks of a replacement, and has a lease if it runs.
abbrev pub IsFiled : TaskKey → EvaluationTask → Type 0
IsFiled key t = (task_key t ≡ key) × (check_replaced t ≡ ok tt) × (is_leased t ≡ true)

abbrev pub AreFiled : SignalRepository → Type 0
AreFiled r = Entries TaskKey_discrete IsFiled r.tasks

stored_task : (o : Option EvaluationTask) → task_of (map_option task_row o) ≡ or_raise o key_error
unfolding task_row
stored_task none = refl
stored_task (some t) = task_from_json-task_json t

get_task-db_of :
    (r : SignalRepository) (key : TaskKey)
    → get_task (db_of r) key ≡ or_raise (Dict.get TaskKey_discrete r.tasks key) key_error
unfolding get_task
get_task-db_of r key =
    rw (get-map_values TaskKey_discrete task_row r.tasks key)
      (stored_task (Dict.get TaskKey_discrete r.tasks key))

-- a stored task, replaced by another that passes the checks under the same key
replace_task-db_of :
    {A : Type 0} (r : SignalRepository) (key : TaskKey) (t t' : EvaluationTask) (value : A)
    → Dict.get TaskKey_discrete r.tasks key ≡ some t
    → task_key t' ≡ key
    → check_replaced t' ≡ ok tt
    → replace_task t' value (db_of r) ≡ (ok value, db_of (put_task r key t'))
unfolding replace_task
replace_task-db_of r key t t' value g k c =
    let found : Dict.get TaskKey_discrete r.tasks (task_key t') ≡ some t = rw k g in
    rw c (
      rw (get-map_values TaskKey_discrete task_row r.tasks (task_key t')) (
        rw found
          (rw (put-map_values TaskKey_discrete task_row r.tasks (task_key t') t') (rw k refl))))

claim_running-refines :
    (expiry : Option Datetime) (key : TaskKey) (t : EvaluationTask) (worker_id : String)
    (now : Datetime) (lease_seconds : ℕ) (r : SignalRepository)
    → Dict.get TaskKey_discrete r.tasks key ≡ some t
    → IsFiled key t
    → is_some expiry ≡ true
    → (if is_lease_active expiry now
        then (err (signal_conflict "task lease is still active"), db_of r)
        else replace_task
            (claimed t worker_id now lease_seconds)
            (claimed t worker_id now lease_seconds)
            (db_of r))
      ≡ stored_as (claim_running expiry key t worker_id now lease_seconds r)
unfolding validate_task
claim_running-refines none key t worker_id now lease_seconds r g f l = cc
claim_running-refines (some expiry) key t worker_id now lease_seconds r g f l =
    let next = claimed t worker_id now lease_seconds in
    elim (Bool-cases (ltb_time now expiry)) [
      | inl e ↦ rw e refl
      | inr e ↦ rw e (replace_task-db_of r key t next next g f.0 f.1)
    ]

claim_found-refines :
    (o : Option EvaluationTask) (key : TaskKey) (worker_id : String) (now : Datetime)
    (lease_seconds : ℕ) (r : SignalRepository)
    → AreFiled r
    → Dict.get TaskKey_discrete r.tasks key ≡ o
    → claim_found (or_raise o key_error) worker_id now lease_seconds (db_of r)
      ≡ stored_as (claim_task o key worker_id now lease_seconds r)
unfolding validate_task
claim_found-refines none key worker_id now lease_seconds r h g = refl
claim_found-refines (some t) key worker_id now lease_seconds r h g =
    let f : IsFiled key t = Entries-get TaskKey_discrete IsFiled r.tasks key t h g in
    let next = claimed t worker_id now lease_seconds in
    elim (Bool-cases (is_running t.status)) [
      | inl e ↦ rw e (
          claim_running-refines t.lease_expires_at key t worker_id now lease_seconds r g f
            (rw e at f.2))
      | inr e ↦ rw e (replace_task-db_of r key t next next g f.0 f.1)
    ]

pub claim-refines :
    (key : TaskKey) (worker_id : String) (now : Datetime) (lease_seconds : ℕ) (r : SignalRepository)
    → AreFiled r
    → Store.claim key worker_id now lease_seconds (db_of r)
      ≡ stored_as (Repository.claim key worker_id now lease_seconds r)
unfolding Store.claim Repository.claim
claim-refines key worker_id now lease_seconds r h = rw (get_task-db_of r key) (
    claim_found-refines (Dict.get TaskKey_discrete r.tasks key) key worker_id now lease_seconds r h
      refl)

-- a change of a stored task that leaves it filed
change_found-refines :
    (o : Option EvaluationTask) (f : EvaluationTask → EvaluationTask) (key : TaskKey)
    (r : SignalRepository)
    → AreFiled r
    → ((t : EvaluationTask) → IsFiled key t → IsFiled key (f t))
    → Dict.get TaskKey_discrete r.tasks key ≡ o
    → change_found (or_raise o key_error) f (db_of r)
      ≡ stored_as (Repository.replace_task o f key r)
change_found-refines none f key r h k g = refl
change_found-refines (some t) f key r h k g =
    let filed = k t (Entries-get TaskKey_discrete IsFiled r.tasks key t h g) in
    replace_task-db_of r key t (f t) tt g filed.0 filed.1

-- `replace(task, status=COMPLETED)`, and the one of `postpone_task`
abbrev pub completed_task : EvaluationTask → EvaluationTask
completed_task t = record t { status = completed }

abbrev pub postponed_task : Datetime → String → EvaluationTask → EvaluationTask
postponed_task next_retry_at reason t = record t {
  status = postponed;
  next_retry_at = some next_retry_at;
  last_error = some reason;
}

pub completed_task-IsFiled :
    (key : TaskKey) (t : EvaluationTask) → IsFiled key t → IsFiled key (completed_task t)
unfolding validate_task
completed_task-IsFiled key t f = (f.0, f.1, refl)

pub complete_task-refines :
    (key : TaskKey) (r : SignalRepository)
    → AreFiled r
    → Store.complete_task key (db_of r) ≡ stored_as (Repository.complete_task key r)
unfolding Store.complete_task Repository.complete_task
complete_task-refines key r h = rw (get_task-db_of r key) (
    change_found-refines (Dict.get TaskKey_discrete r.tasks key) completed_task key r h
      (completed_task-IsFiled key) refl)

pub postponed_task-IsFiled :
    (next_retry_at : Datetime) (reason : String) (key : TaskKey) (t : EvaluationTask)
    → is_naive (some next_retry_at) ≡ false
    → IsFiled key t
    → IsFiled key (postponed_task next_retry_at reason t)
unfolding validate_task
postponed_task-IsFiled next_retry_at reason key t n f =
    (f.0, rw ((step-ok (validate_task t) _ tt f.1).0) (rw n refl), refl)

pub postpone_task-refines :
    (key : TaskKey) (next_retry_at : Datetime) (reason : String) (r : SignalRepository)
    → AreFiled r
    → is_naive (some next_retry_at) ≡ false
    → Store.postpone_task key next_retry_at reason (db_of r)
      ≡ stored_as (Repository.postpone_task key next_retry_at reason r)
unfolding Store.postpone_task Repository.postpone_task
postpone_task-refines key next_retry_at reason r h n = rw (get_task-db_of r key) (
    change_found-refines (Dict.get TaskKey_discrete r.tasks key)
      (postponed_task next_retry_at reason) key r h
      (λ t. postponed_task-IsFiled next_retry_at reason key t n) refl)
