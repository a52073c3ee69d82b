-- ===== src/Signals/Sqlite/Refines.antt =====
-- The SQLite store against the store in memory: the tables of what the memory holds.
use invest_quant_system.Prelude.{◌≡◌, refl, ite, Option, none, some, inl, inr}
use invest_quant_system.Prelude.Tests.{String_discrete}
use invest_quant_system.Prelude.Dict
use invest_quant_system.Prelude.Dict.{
  map_values, map_option, get-map_values, put-map_values, set_default-map_values,
}
use invest_quant_system.Prelude.Result.{ok, err, signal_conflict, Result-cases}
use invest_quant_system.Contracts.Signals.{SignalEvent, SignalEvent_discrete, validate_event}
use invest_quant_system.Contracts.Evaluation.{
  EvaluationTask, TaskKey_discrete, task_key, validate_task, SignalEvaluation,
  EvaluationKey_discrete, SignalEvaluation_discrete, evaluation_key, validate_evaluation,
}
use invest_quant_system.Signals.Repository
use invest_quant_system.Signals.Repository.{
  SignalRepository, Upserted, append_checked, upsert_checked,
}
use invest_quant_system.Signals.Sqlite.RoundTrip.{
  signal_event_from_json-event_json, evaluation_from_json-evaluation_json,
}
use invest_quant_system.Signals.Sqlite.Store
use invest_quant_system.Signals.Sqlite.Tables.{Database, signal_row, task_row, evaluation_row}
use invest_quant_system.Signals.Sqlite.Store.{Outcome, append_row, upsert_row}

-- the database that holds what the store in memory holds
abbrev pub db_of : SignalRepository → Database
db_of r = record {
  signals = map_values signal_row r.signals;
  evaluation_tasks = map_values task_row r.tasks;
  signal_evaluations = map_values evaluation_row r.evaluations;
}

-- what the call in memory returned, over the database of what it left
abbrev pub stored_as : {A : Type 0} → Repository.Outcome A → Outcome A
stored_as (result, r) = (result, db_of r)

row-Refines :
    (o : Option SignalEvent) (event : SignalEvent) (r : SignalRepository)
    → append_row (map_option signal_row o) event (db_of r) ≡ stored_as (append_checked o event r)
unfolding append_checked signal_row
row-Refines none event r =
    rw (put-map_values String_discrete signal_row r.signals event.signal_id event) refl
row-Refines (some existing) event r =
    rw (signal_event_from_json-event_json existing)
      (elim (SignalEvent_discrete existing event)
        as (λ t.
          ite t (ok event.signal_id, db_of r)
            (err (signal_conflict "SignalEvent append-only conflict"), db_of r)
          ≡ stored_as (
              ite t (ok event.signal_id, r)
                (err (signal_conflict "SignalEvent append-only conflict"), r))) [
                  | yes e ↦ refl
                  | no n ↦ refl
                ])

-- An append to the database of a store answers and leaves what an append to the store does.
pub append_signal-refines :
    (event : SignalEvent) (r : SignalRepository)
    → Store.append_signal event (db_of r) ≡ stored_as (Repository.append_signal event r)
unfolding Store.append_signal Repository.append_signal
append_signal-refines event r = elim (Result-cases (validate_event event)) [
  | inl (u, e) ↦ rw e (
      rw (get-map_values String_discrete signal_row r.signals event.signal_id)
        (row-Refines (Dict.get String_discrete r.signals event.signal_id) event r))
  | inr (x, e) ↦ rw e refl
]

found-Refines :
    (o : Option SignalEvaluation) (e : SignalEvaluation) (r : SignalRepository)
    → upsert_row (map_option evaluation_row o) e (db_of r) ≡ stored_as (upsert_checked o e r)
unfolding upsert_checked evaluation_row
found-Refines none e r =
    rw (put-map_values EvaluationKey_discrete evaluation_row r.evaluations (evaluation_key e) e)
      refl
found-Refines (some existing) e r =
    rw (evaluation_from_json-evaluation_json existing)
      (elim (SignalEvaluation_discrete existing e)
        as (λ t.
          ite t (ok Repository.duplicate, db_of r)
            (err (signal_conflict "SignalEvaluation idempotency conflict"), db_of r)
          ≡ stored_as (
              ite t (ok Repository.duplicate, r)
                (err (signal_conflict "SignalEvaluation idempotency conflict"), r))) [
                  | yes q ↦ refl
                  | no n ↦ refl
                ])

pub upsert_evaluation-refines :
    (e : SignalEvaluation) (r : SignalRepository)
    → Store.upsert_evaluation e (db_of r) ≡ stored_as (Repository.upsert_evaluation e r)
unfolding Store.upsert_evaluation Repository.upsert_evaluation
upsert_evaluation-refines e r = elim (Result-cases (validate_evaluation e)) [
  | inl (u, h) ↦ rw h (
      rw (get-map_values EvaluationKey_discrete evaluation_row r.evaluations (evaluation_key e))
        (found-Refines (Dict.get EvaluationKey_discrete r.evaluations (evaluation_key e)) e r))
  | inr (x, h) ↦ rw h refl
]

pub upsert_task-refines :
    (task : EvaluationTask) (r : SignalRepository)
    → Store.upsert_task task (db_of r) ≡ stored_as (Repository.upsert_task task r)
unfolding Store.upsert_task Repository.upsert_task
upsert_task-refines task r = elim (Result-cases (validate_task task)) [
  | inl (u, h) ↦
      rw h (rw (set_default-map_values TaskKey_discrete task_row r.tasks (task_key task) task) refl)
  | inr (x, h) ↦ rw h refl
]
