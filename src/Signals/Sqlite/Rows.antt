-- ===== src/Signals/Sqlite/Rows.antt =====
-- Reading the rows that the database gives of the tasks back: the tasks, in whatever order.
use mathlib.Core.List.{Perm}
use mathlib.Core.List.Perm
use mathlib.Core.Logic.{inl, inr, ∥∥₁_elim, ∥∥₁_prop}
use mathlib.Core.Path.{subst}
use mathlib.Core.Bool.{Bool-set}
use invest_quant_system.Prelude.{◌≡◌, refl, ap, ◌∙◌, Bool, true, false, List, [], ◌∷◌, map, none}
use invest_quant_system.Prelude.Tests.{String_discrete}
use invest_quant_system.Prelude.Int.{pos}
use invest_quant_system.Prelude.Lists.{All}
use invest_quant_system.Prelude.Dict.{Dict, values, map_values}
use invest_quant_system.Prelude.Sort.{keep, IsSorted, keep-All}
use invest_quant_system.Prelude.Perms.{All-Perm}
use invest_quant_system.Prelude.Comprehensions.{keep-agree, keep-map}
use invest_quant_system.Prelude.Result.{Result, ok, err, is_ok, step-ok, Result-cases}
use invest_quant_system.Contracts.Moment.{
  Datetime, leb_time, IsUtc, require_aware_utc, require_aware_utc-ok,
}
use invest_quant_system.Contracts.Evaluation.{
  EvaluationTask, EvaluationTaskStatus, pending, running, completed, postponed, failed, censored,
  TaskKey, validate_task,
}
use invest_quant_system.Universe.{same}
use invest_quant_system.Signals.Repository.{SignalRepository, is_open, is_running}
use invest_quant_system.Signals.Sqlite.Enums.{status_value}
use invest_quant_system.Signals.Sqlite.Evaluations.{task_from_json}
use invest_quant_system.Signals.Sqlite.RoundTrip.{task_from_json-task_json}
use invest_quant_system.Signals.Sqlite.Tables.{TaskRow, task_row}
use invest_quant_system.Signals.Sqlite.Store.{read_all}
use invest_quant_system.Signals.Sqlite.Queries.{
  Engine, is_open_status, is_running_row, task_payload,
}
use invest_quant_system.Signals.Sqlite.Refines.{db_of}
use invest_quant_system.Signals.Sqlite.Tasks.{IsFiled, AreFiled}

values-map_values :
    (d : Dict TaskKey EvaluationTask) → values (map_values task_row d) ≡ map task_row (values d)
values-map_values [] = refl
values-map_values ((k, t) ∷ d) = ap (λ (ts : List TaskRow). task_row t ∷ ts) (values-map_values d)

pub open_status-value : (s : EvaluationTaskStatus) → is_open_status (status_value s) ≡ is_open s
unfolding String_discrete
open_status-value pending = refl
open_status-value running = refl
open_status-value completed = refl
open_status-value postponed = refl
open_status-value failed = refl
open_status-value censored = refl

pub running_row-task_row : (t : EvaluationTask) → is_running_row (task_row t) ≡ is_running t.status
unfolding task_row String_discrete
running_row-task_row t =
    elim (t.status) as (λ s. same (status_value s) (status_value running) ≡ is_running s) [
      | pending ↦ refl
      | running ↦ refl
      | completed ↦ refl
      | postponed ↦ refl
      | failed ↦ refl
      | censored ↦ refl
    ]

abbrev pub IsDueUtc : EvaluationTask → Type 0
IsDueUtc t = IsUtc t.due_time

filed-IsDueUtc : (k : TaskKey) (t : EvaluationTask) → IsFiled k t → IsDueUtc t
unfolding validate_task
filed-IsDueUtc k t f = require_aware_utc-ok t.due_time "due_time" (
    (step-ok (require_aware_utc t.due_time "due_time") _ tt
      (step-ok (validate_task t) _ tt f.1).0).0)

values-IsDueUtc :
    (d : Dict TaskKey EvaluationTask) → All (λ e. IsFiled e.0 e.1) d → All IsDueUtc (values d)
values-IsDueUtc [] h = tt
values-IsDueUtc ((k, t) ∷ d) h = (filed-IsDueUtc k t h.0, values-IsDueUtc d h.1)

-- What is assumed of the database: rows are given in some order, ORDER BY leaves them in order, and
-- the texts of datetimes are ordered totally, those in UTC as the times.
pub record IsEngine (e : Engine) : Type 1 where
  pub scans : {A : Type 0} (xs : List A) → Perm (e.scan xs) xs
  pub orders : {A : Type 0} (le : A → A → Bool) (xs : List A) → Perm (e.order_by le xs) xs
  pub ordered :
      {A : Type 0} (le : A → A → Bool)
      → ((x y : A) → le x y ≡ false → le y x ≡ true)
      → ((x y z : A) → le x y ≡ true → le y z ≡ true → le x z ≡ true)
      → (xs : List A) → IsSorted le (e.order_by le xs)
  pub text_total : (a b : Datetime) → e.text_leb a b ≡ false → e.text_leb b a ≡ true
  pub text_trans :
      (a b c : Datetime) → e.text_leb a b ≡ true → e.text_leb b c ≡ true → e.text_leb a c ≡ true
  pub text_order : (a b : Datetime) → IsUtc a → IsUtc b → e.text_leb a b ≡ leb_time a b

-- a task for a row that cannot be read, of which there is none
abbrev no_task : EvaluationTask
no_task = record {
  signal_id = "";
  horizon_seconds = pos 0;
  due_time = record { instant = 0; utc_offset = none };
  evaluation_policy_version = "";
  data_source_version = "";
  as_of_version = "";
  status = pending;
  claimed_at = none;
  lease_expires_at = none;
  worker_id = none;
  attempts = 0;
  next_retry_at = none;
  last_error = none;
}

abbrev task_or_none : Result EvaluationTask → EvaluationTask
task_or_none (err e) = no_task
task_or_none (ok t) = t

abbrev pub read_row : TaskRow → EvaluationTask
read_row row = task_or_none (task_from_json row.payload)

-- A row of a task that is due at a time in UTC.
abbrev pub IsWritten : TaskRow → Type 0
IsWritten row = ∥ ((t : EvaluationTask) × (row ≡ task_row t) × IsDueUtc t) ∥₁

written : (t : EvaluationTask) → IsDueUtc t → IsWritten (task_row t)
written t u = ∣ (t, refl, u) ∣₁

rows-IsWritten : (ts : List EvaluationTask) → All IsDueUtc ts → All IsWritten (map task_row ts)
rows-IsWritten [] h = tt
rows-IsWritten (t ∷ ts) h = (written t h.0, rows-IsWritten ts h.1)

read_row-task_row : (t : EvaluationTask) → read_row (task_row t) ≡ t
unfolding task_row
read_row-task_row t = rw (task_from_json-task_json t) refl

pub read_row-written : (row : TaskRow) (t : EvaluationTask) → row ≡ task_row t → read_row row ≡ t
read_row-written row t e = ap read_row e ∙ read_row-task_row t

rows_read : (ts : List EvaluationTask) → map read_row (map task_row ts) ≡ ts
rows_read [] = refl
rows_read (t ∷ ts) = rw (read_row-task_row t) (rw (rows_read ts) refl)

abbrev is_readable : TaskRow → Bool
is_readable row = is_ok (task_from_json row.payload)

readable : (row : TaskRow) → IsWritten row → is_readable row ≡ true
unfolding task_row
readable row w =
    ∥∥₁_elim w (Bool-set _ _) (λ d. ap is_readable d.1 ∙ rw (task_from_json-task_json d.0) refl)

pub rows_parse :
    (rows : List TaskRow)
    → All IsWritten rows
    → read_all task_from_json (map task_payload rows) ≡ ok (map read_row rows)
unfolding read_all
rows_parse [] h = refl
rows_parse (row ∷ rows) h = elim (Result-cases (task_from_json row.payload)) [
  | inl (t, e) ↦ rw e (rw (rows_parse rows h.1) refl)
  | inr (raised, e) ↦ cc (readable row h.0, ap is_ok e)
]

-- What a worker reads of rows that the database gave of some tasks: those tasks.
module _ (rows : List TaskRow) (ts : List EvaluationTask) (given : Perm rows (map task_row ts))
    (utc : All IsDueUtc ts) where
  pub given-IsWritten : All IsWritten rows
  given-IsWritten =
      All-Perm IsWritten (λ row. ∥∥₁_prop) rows (map task_row ts) given (rows-IsWritten ts utc)

  pub rows_hold : Perm (map read_row rows) ts
  rows_hold = subst (Perm (map read_row rows)) (rows_read ts) (Perm.map read_row given)

-- The rows that a query selects, among the rows of the tasks.
module _ (p : TaskRow → Bool) (q : EvaluationTask → Bool)
    (f : (t : EvaluationTask) → IsDueUtc t → p (task_row t) ≡ q t) where
  pub selected :
      (r : SignalRepository)
      → AreFiled r
      → keep p (values (db_of r).evaluation_tasks) ≡ map task_row (keep q (values r.tasks))
  selected r h =
      ap (keep p) (values-map_values r.tasks)
      ∙ keep-map task_row p (values r.tasks)
      ∙ ap (map task_row) (
          keep-agree IsDueUtc (λ t. p (task_row t)) q f (values r.tasks)
            (values-IsDueUtc r.tasks h))

  pub selected-IsDueUtc :
      (r : SignalRepository) → AreFiled r → All IsDueUtc (keep q (values r.tasks))
  selected-IsDueUtc r h =
      keep-All q IsDueUtc IsDueUtc (λ t u _. u) (values r.tasks) (values-IsDueUtc r.tasks h)
