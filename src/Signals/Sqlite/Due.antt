-- ===== src/Signals/Sqlite/Due.antt =====
-- The tasks that a worker is handed: the SQL queries against the comprehensions of the store in memory.
use mathlib.Core.List.{Perm}
use mathlib.Core.List.Perm
use mathlib.Core.Logic.{∥∥₁_elim}
use mathlib.Core.Path.{sym, subst, subst₂}
use mathlib.Core.Bool.{Bool-set}
use invest_quant_system.Prelude.{◌≡◌, refl, ◌∙◌, Bool, true, false, ◌&&◌, List, [], ◌∷◌, map, ℕ}
use invest_quant_system.Prelude.Lists.{All}
use invest_quant_system.Prelude.Dict.{values}
use invest_quant_system.Prelude.Sort.{keep, by_key, IsSorted, sort_by-perm}
use invest_quant_system.Prelude.Perms.{keep-Perm, keep-IsSorted, map-IsSorted}
use invest_quant_system.Prelude.Comprehensions.{keep-agree, keep-keep}
use invest_quant_system.Prelude.Result.{ok}
use invest_quant_system.Contracts.Moment.{Datetime, leb_time, IsUtc}
use invest_quant_system.Contracts.Evaluation.{EvaluationTask}
use invest_quant_system.Signals.Repository
use invest_quant_system.Signals.Repository.{
  SignalRepository, is_open, is_running, is_due, is_expired,
}
use invest_quant_system.Signals.Sqlite.Tables.{TaskRow, task_row}
use invest_quant_system.Signals.Sqlite.Queries
use invest_quant_system.Signals.Sqlite.Queries.{
  Engine, is_open_status, is_running_row, task_payload, by_due_time, is_due_row, retry_due,
  lease_over,
}
use invest_quant_system.Signals.Sqlite.Refines.{db_of}
use invest_quant_system.Signals.Sqlite.Tasks.{AreFiled}
use invest_quant_system.Signals.Sqlite.Rows.{
  IsEngine, open_status-value, running_row-task_row, IsDueUtc, read_row, IsWritten,
  read_row-written, rows_parse, given-IsWritten, rows_hold, selected, selected-IsDueUtc,
}

any_tasks : (ts : List EvaluationTask) → All (λ t. Unit {0}) ts
any_tasks [] = tt
any_tasks (t ∷ ts) = (tt, any_tasks ts)

and_assoc : (a b c : Bool) → (a && b) && c ≡ a && (b && c)
and_assoc true b c = refl
and_assoc false b c = refl

abbrev pub due_instant : EvaluationTask → ℕ
due_instant t = t.due_time.instant

module _ (engine : Engine) (law : IsEngine engine) where
  open law use {scans, orders, ordered, text_total, text_trans, text_order}

  abbrev is_due_task : Datetime → EvaluationTask → Bool
  is_due_task now t = leb_time t.due_time now && is_open t.status

  due_row-task_row :
      (now : Datetime)
      → IsUtc now
      → (t : EvaluationTask) → IsDueUtc t
      → is_due_row engine now (task_row t) ≡ is_due_task now t
  unfolding task_row
  due_row-task_row now n t u =
      rw (text_order t.due_time now u n) (rw (open_status-value t.status) refl)

  texts_in_order :
      (t u : EvaluationTask)
      → IsDueUtc t
      → IsDueUtc u
      → by_due_time engine (task_row t) (task_row u) ≡ true
      → by_key due_instant t u ≡ true
  unfolding task_row
  texts_in_order t u v w h = sym (text_order t.due_time u.due_time v w) ∙ h

  -- rows in the order of the texts hold tasks in the order of the times
  rows_in_order :
      (x y : TaskRow)
      → IsWritten x
      → IsWritten y
      → by_due_time engine x y ≡ true
      → by_key due_instant (read_row x) (read_row y) ≡ true
  rows_in_order x y v w h = ∥∥₁_elim v (Bool-set _ _) (λ d. ∥∥₁_elim w (Bool-set _ _) (λ e.
      subst₂ (λ a b. by_key due_instant a b ≡ true) (sym (read_row-written x d.0 d.1))
        (sym (read_row-written y e.0 e.1))
        (texts_in_order d.0 e.0 d.2 e.2 (subst₂ (λ a b. by_due_time engine a b ≡ true) d.1 e.1 h))))

  abbrev due_rows : SignalRepository → Datetime → List TaskRow
  due_rows r now =
      engine.order_by (by_due_time engine)
        (keep (is_due_row engine now) (values (db_of r).evaluation_tasks))

  due_rows-Perm :
      (r : SignalRepository) (now : Datetime)
      → AreFiled r
      → IsUtc now
      → Perm (due_rows r now) (map task_row (keep (is_due_task now) (values r.tasks)))
  due_rows-Perm r now h n =
      subst (Perm (due_rows r now))
        (selected (is_due_row engine now) (is_due_task now) (due_row-task_row now n) r h)
        (orders (by_due_time engine)
          (keep (is_due_row engine now) (values (db_of r).evaluation_tasks)))

  due_rows-IsSorted :
      (r : SignalRepository) (now : Datetime) → IsSorted (by_due_time engine) (due_rows r now)
  due_rows-IsSorted r now =
      ordered (by_due_time engine) (λ x y. text_total x.due_time y.due_time)
        (λ x y z. text_trans x.due_time y.due_time z.due_time)
        (keep (is_due_row engine now) (values (db_of r).evaluation_tasks))

  -- the due tasks in memory, less those whose retry is not due
  due-Perm :
      (r : SignalRepository) (now : Datetime)
      → Perm
          (keep (retry_due now) (keep (is_due_task now) (values r.tasks)))
          (Repository.find_due_tasks r now)
  unfolding Repository.find_due_tasks
  due-Perm r now =
      subst (λ ts. Perm ts (Repository.find_due_tasks r now))
        (sym (
          keep-keep (retry_due now) (is_due_task now) (values r.tasks)
          ∙ keep-agree (λ t. Unit {0}) (λ t. is_due_task now t && retry_due now t) (is_due now)
              (λ t u. and_assoc (leb_time t.due_time now) (is_open t.status) (retry_due now t))
              (values r.tasks) (any_tasks (values r.tasks))))
        (Perm.symm (sort_by-perm due_instant (keep (is_due now) (values r.tasks))))

  find_due-agree :
      (r : SignalRepository) (now : Datetime)
      → AreFiled r
      → IsUtc now
      → (ts : List EvaluationTask) × (Queries.find_due_tasks engine (db_of r) now ≡ ok ts)
        × Perm ts (Repository.find_due_tasks r now)
        × IsSorted (by_key due_instant) ts
  unfolding Queries.find_due_tasks
  find_due-agree r now h n =
      let us = keep (is_due_task now) (values r.tasks) in
      let utc =
        selected-IsDueUtc (is_due_row engine now) (is_due_task now) (due_row-task_row now n) r h in
      let rows = due_rows r now in
      let given = due_rows-Perm r now h n in
      let written = given-IsWritten rows us given utc in
      (
        keep (retry_due now) (map read_row rows),
        rw (rows_parse rows written) refl,
        Perm.trans (keep-Perm (retry_due now) (map read_row rows) us (rows_hold rows us given utc))
            (due-Perm r now),
        keep-IsSorted (by_key due_instant) (retry_due now) (map read_row rows) (
            map-IsSorted read_row IsWritten (by_due_time engine) (by_key due_instant) rows_in_order
              rows written (due_rows-IsSorted r now)),
      )

  abbrev lease_rows : SignalRepository → List TaskRow
  lease_rows r = engine.scan (keep is_running_row (values (db_of r).evaluation_tasks))

  lease_rows-Perm :
      (r : SignalRepository)
      → AreFiled r
      → Perm (lease_rows r) (map task_row (keep (λ t. is_running t.status) (values r.tasks)))
  lease_rows-Perm r h =
      subst (Perm (lease_rows r))
        (selected is_running_row (λ t. is_running t.status) (λ t u. running_row-task_row t) r h)
        (scans (keep is_running_row (values (db_of r).evaluation_tasks)))

  expired-Perm :
      (r : SignalRepository) (now : Datetime)
      → keep (lease_over now) (keep (λ t. is_running t.status) (values r.tasks))
        ≡ Repository.find_expired_leases r now
  unfolding Repository.find_expired_leases
  expired-Perm r now = keep-keep (lease_over now) (λ t. is_running t.status) (values r.tasks)

  find_expired-agree :
      (r : SignalRepository) (now : Datetime)
      → AreFiled r
      → (us : List EvaluationTask) × (Queries.find_expired_leases engine (db_of r) now ≡ ok us)
        × Perm us (Repository.find_expired_leases r now)
  unfolding Queries.find_expired_leases
  find_expired-agree r now h =
      let us = keep (λ t. is_running t.status) (values r.tasks) in
      let utc =
        selected-IsDueUtc is_running_row (λ t. is_running t.status) (λ t u. running_row-task_row t)
          r h in
      let rows = lease_rows r in
      let given = lease_rows-Perm r h in
      (
        keep (lease_over now) (map read_row rows),
        rw (rows_parse rows (given-IsWritten rows us given utc)) refl,
        subst (Perm (keep (lease_over now) (map read_row rows))) (expired-Perm r now)
            (keep-Perm (lease_over now) (map read_row rows) us (rows_hold rows us given utc)),
      )

  -- For a store whose tasks are filed under their own key and are valid, and a time in UTC, and a database
  -- which gives the rows of a table in any order, sorts them by ORDER BY with ties in any order, and orders
  -- the texts of datetimes totally and those in UTC as the times: `find_due_tasks` returns the tasks that
  -- the comprehension over the store in memory finds, in the order of their due time, and
  -- `find_expired_leases` returns the tasks that the other comprehension finds, in some order.
  pub due_queries-agree :
      (r : SignalRepository) (now : Datetime)
      → AreFiled r
      → IsUtc now
      → ((ts : List EvaluationTask) × (Queries.find_due_tasks engine (db_of r) now ≡ ok ts)
          × Perm ts (Repository.find_due_tasks r now)
          × IsSorted (by_key due_instant) ts)
        × ((us : List EvaluationTask) × (Queries.find_expired_leases engine (db_of r) now ≡ ok us)
            × Perm us (Repository.find_expired_leases r now))
  due_queries-agree r now h n = (find_due-agree r now h n, find_expired-agree r now h)
