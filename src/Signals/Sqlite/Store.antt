-- ===== src/Signals/Sqlite/Store.antt =====
-- signals/sqlite_repository.py: the methods that read and change the rows of the tables. A `with` block
-- commits at its end, so that a call which raises leaves its tables.
use invest_quant_system.Prelude.{
  ℕ, String, Bool, true, false, ◌&&◌, ite, Option, none, some, List, [], ◌∷◌,
}
use invest_quant_system.Prelude.Tests.{String_discrete, if◌then◌else◌}
use invest_quant_system.Prelude.Dict
use invest_quant_system.Prelude.Dict.{Dict, values, set_default}
use invest_quant_system.Prelude.Result.{
  Result, ok, err, ◌>>=◌, ◌>>◌, signal_conflict, key_error, market_data_validation,
}
use invest_quant_system.Contracts.Moment.{Datetime, ltb_time}
use invest_quant_system.Contracts.Signals.{SignalEvent, SignalEvent_discrete, validate_event}
use invest_quant_system.Contracts.Evaluation.{
  EvaluationTask, completed, postponed, TaskKey, TaskKey_discrete, task_key, validate_task,
  SignalEvaluation, SignalEvaluation_discrete, EvaluationKey_discrete, evaluation_key,
  validate_evaluation,
}
use invest_quant_system.Signals.Repository.{claimed, is_running, Upserted, inserted, duplicate}
use invest_quant_system.Signals.Sqlite.Json.{Fields}
use invest_quant_system.Signals.Sqlite.Events.{signal_event_from_json}
use invest_quant_system.Signals.Sqlite.Evaluations.{task_from_json, evaluation_from_json}
use invest_quant_system.Signals.Sqlite.Tables.{
  SignalRow, TaskRow, EvaluationRow, Database, signal_row, task_row, evaluation_row,
}

abbrev pub Outcome : Type 0 → Type 0
Outcome A = Result A × Database

-- `signal_event_from_json(row["payload"]) == event`, and what follows
abbrev pub append_found : Result SignalEvent → SignalEvent → Database → Outcome String
append_found (err e) event db = (err e, db)
append_found (ok existing) event db =
    ite (SignalEvent_discrete existing event) (ok event.signal_id, db)
      (err (signal_conflict "SignalEvent append-only conflict"), db)

abbrev pub append_row : Option SignalRow → SignalEvent → Database → Outcome String
append_row none event db = (
  ok event.signal_id,
  record db { signals = Dict.put String_discrete db.signals event.signal_id (signal_row event) },
)
append_row (some row) event db = append_found (signal_event_from_json row.payload) event db

abbrev pub append_behind : Result (Unit {0}) → SignalEvent → Database → Outcome String
append_behind (err e) event db = (err e, db)
append_behind (ok _) event db =
    append_row (Dict.get String_discrete db.signals event.signal_id) event db

unfoldable pub append_signal : SignalEvent → Database → Outcome String
unfolding signal_row signal_event_from_json
append_signal event db = append_behind (validate_event event) event db

abbrev read_signal : Option SignalRow → Result SignalEvent
read_signal none = err key_error
read_signal (some row) = signal_event_from_json row.payload

unfoldable pub get_signal : Database → String → Result SignalEvent
unfolding signal_event_from_json
get_signal db signal_id = read_signal (Dict.get String_discrete db.signals signal_id)

-- `[read(row["payload"]) for row in rows]`
unfoldable pub read_all : {A : Type 0} → (Fields → Result A) → List Fields → Result (List A)
read_all read [] = ok []
read_all read (p ∷ ps) = do value ← read p; rest ← read_all read ps; ok (value ∷ rest)

-- `task = _get_task(key)`
abbrev pub task_of : Option TaskRow → Result EvaluationTask
task_of none = err key_error
task_of (some row) = task_from_json row.payload

unfoldable pub get_task : Database → TaskKey → Result EvaluationTask
unfolding task_from_json
get_task db key = task_of (Dict.get TaskKey_discrete db.evaluation_tasks key)

abbrev pub upsert_task_behind : Result (Unit {0}) → EvaluationTask → Database → Outcome (Unit {0})
upsert_task_behind (err e) task db = (err e, db)
upsert_task_behind (ok _) task db = (
  ok tt,
  record db {
    evaluation_tasks =
        set_default TaskKey_discrete db.evaluation_tasks (task_key task) (task_row task);
  },
)

-- `INSERT OR IGNORE`
unfoldable pub upsert_task : EvaluationTask → Database → Outcome (Unit {0})
unfolding task_row
upsert_task task db = upsert_task_behind (validate_task task) task db

-- `next_retry_at is not None and next_retry_at.tzinfo is None`
abbrev pub is_naive : Option Datetime → Bool
is_naive none = false
is_naive (some t) = elim t.utc_offset [ none ↦ true | some offset ↦ false ]

abbrev pub check_replaced : EvaluationTask → Result (Unit {0})
check_replaced task =
    validate_task task
    >> (if is_naive task.next_retry_at
        then err (market_data_validation "next_retry_at must be timezone-aware")
        else ok tt)

-- `UPDATE … WHERE` the key: no row is added
abbrev pub update_row : Option TaskRow → EvaluationTask → Database → Database
update_row none task db = db
update_row (some row) task db = record db {
  evaluation_tasks = Dict.put TaskKey_discrete db.evaluation_tasks (task_key task) (task_row task);
}

abbrev pub replace_behind :
    {A : Type 0} → Result (Unit {0}) → EvaluationTask → A → Database → Outcome A
replace_behind (err e) task value db = (err e, db)
replace_behind (ok _) task value db =
    (ok value, update_row (Dict.get TaskKey_discrete db.evaluation_tasks (task_key task)) task db)

-- `_replace_task(task)`, behind which a call returns `value`
unfoldable pub replace_task : {A : Type 0} → EvaluationTask → A → Database → Outcome A
unfolding task_row
replace_task task value db = replace_behind (check_replaced task) task value db

-- `lease_expires_at is not None and lease_expires_at > now`
abbrev pub is_lease_active : Option Datetime → Datetime → Bool
is_lease_active none now = false
is_lease_active (some t) now = ltb_time now t

abbrev pub claim_found :
    Result EvaluationTask → String → Datetime → ℕ → Database → Outcome EvaluationTask
claim_found (err e) worker_id now lease_seconds db = (err e, db)
claim_found (ok task) worker_id now lease_seconds db =
    if is_running task.status && is_lease_active task.lease_expires_at now
    then (err (signal_conflict "task lease is still active"), db)
    else replace_task (claimed task worker_id now lease_seconds)
        (claimed task worker_id now lease_seconds) db

unfoldable pub claim : TaskKey → String → Datetime → ℕ → Database → Outcome EvaluationTask
unfolding get_task replace_task
claim key worker_id now lease_seconds db =
    claim_found (get_task db key) worker_id now lease_seconds db

abbrev pub change_found :
    Result EvaluationTask → (EvaluationTask → EvaluationTask) → Database → Outcome (Unit {0})
change_found (err e) f db = (err e, db)
change_found (ok task) f db = replace_task (f task) tt db

unfoldable pub complete_task : TaskKey → Database → Outcome (Unit {0})
unfolding get_task replace_task
complete_task key db = change_found (get_task db key) (λ t. record t { status = completed }) db

unfoldable pub postpone_task : TaskKey → Datetime → String → Database → Outcome (Unit {0})
unfolding get_task replace_task
postpone_task key next_retry_at reason db =
    change_found (get_task db key)
      (λ t. record t {
        status = postponed;
        next_retry_at = some next_retry_at;
        last_error = some reason;
      })
      db

abbrev pub upsert_found : Result SignalEvaluation → SignalEvaluation → Database → Outcome Upserted
upsert_found (err x) e db = (err x, db)
upsert_found (ok existing) e db =
    ite (SignalEvaluation_discrete existing e) (ok duplicate, db)
      (err (signal_conflict "SignalEvaluation idempotency conflict"), db)

abbrev pub upsert_row : Option EvaluationRow → SignalEvaluation → Database → Outcome Upserted
upsert_row none e db = (
  ok inserted,
  record db {
    signal_evaluations =
        Dict.put EvaluationKey_discrete db.signal_evaluations (evaluation_key e) (evaluation_row e);
  },
)
upsert_row (some row) e db = upsert_found (evaluation_from_json row.payload) e db

abbrev pub upsert_behind : Result (Unit {0}) → SignalEvaluation → Database → Outcome Upserted
upsert_behind (err x) e db = (err x, db)
upsert_behind (ok _) e db =
    upsert_row (Dict.get EvaluationKey_discrete db.signal_evaluations (evaluation_key e)) e db

unfoldable pub upsert_evaluation : SignalEvaluation → Database → Outcome Upserted
unfolding evaluation_row evaluation_from_json
upsert_evaluation e db = upsert_behind (validate_evaluation e) e db
