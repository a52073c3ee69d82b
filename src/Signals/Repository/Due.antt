-- ===== src/Signals/Repository/Due.antt =====
-- `find_due_tasks` and `find_expired_leases`: which tasks a worker is handed, and in what order.
use mathlib.Core.List.{Mem, mem-map_of_mem}
use mathlib.Core.List.Perm
use invest_quant_system.Prelude.{
  ◌≤◌, ◌⊎◌, inl, inr, ◌≡◌, refl, ◌&&◌, true, Option, none, some, arith,
}
use invest_quant_system.Prelude.Tests.{and-split}
use invest_quant_system.Prelude.Lists.{All}
use invest_quant_system.Prelude.Dict.{get-mem, values}
use invest_quant_system.Prelude.Sort.{
  keep-All_of, mem-keep, by_key, IsSorted, sort_by-IsSorted, sort_by-perm, sort_by-All,
}
use invest_quant_system.Contracts.Moment.{Datetime, leb_time}
use invest_quant_system.Contracts.Evaluation.{
  EvaluationTask, EvaluationTaskStatus, pending, running, completed, postponed, failed, censored,
  TaskKey, TaskKey_discrete,
}
use invest_quant_system.Signals.Repository.{
  SignalRepository, find_due_tasks, is_due, is_open, is_retry_due,
}
use invest_quant_system.Signals.Repository.Leases.{task_at}

-- A time that is not there, or that has come.
abbrev pub HasCome : Option Datetime → Datetime → Type 0
HasCome none now = Unit
HasCome (some t) now = t.instant ≤ now.instant

-- What a worker may take up at `now`: due, waiting, and not held back by a retry time.
pub record IsDueAt (now : Datetime) (task : EvaluationTask) : Type 0 where
  pub due : task.due_time.instant ≤ now.instant
  pub waiting : (task.status ≡ pending) ⊎ (task.status ≡ postponed)
  pub retry : HasCome task.next_retry_at now

open-waiting : (s : EvaluationTaskStatus) → is_open s ≡ true → (s ≡ pending) ⊎ (s ≡ postponed)
open-waiting pending h = inl refl
open-waiting postponed h = inr refl
open-waiting running h = cc
open-waiting completed h = cc
open-waiting failed h = cc
open-waiting censored h = cc

waiting-open : (s : EvaluationTaskStatus) → (s ≡ pending) ⊎ (s ≡ postponed) → is_open s ≡ true
waiting-open s h = elim h [ inl p ↦ rw p refl | inr p ↦ rw p refl ]

retry-HasCome : (t : Option Datetime) (now : Datetime) → is_retry_due t now ≡ true → HasCome t now
retry-HasCome none now h = tt
retry-HasCome (some t) now h = ground arith

HasCome-retry : (t : Option Datetime) (now : Datetime) → HasCome t now → is_retry_due t now ≡ true
HasCome-retry none now h = refl
HasCome-retry (some t) now h = ground arith

leb-due :
    (now : Datetime) (task : EvaluationTask)
    → leb_time task.due_time now ≡ true
    → task.due_time.instant ≤ now.instant
leb-due now task h = ground arith

due-IsDueAt : (now : Datetime) (task : EvaluationTask) → is_due now task ≡ true → IsDueAt now task
due-IsDueAt now task h =
    let (a, rest) = and-split _ _ h in
    let (b, c) = and-split _ _ rest in
    record {
      due = leb-due now task a;
      waiting = open-waiting task.status b;
      retry = retry-HasCome task.next_retry_at now c;
    }

due_time-leb :
    (now : Datetime) (task : EvaluationTask)
    → task.due_time.instant ≤ now.instant
    → (leb_time task.due_time now && true) ≡ true
due_time-leb now task h = ground arith

IsDueAt-due : (now : Datetime) (task : EvaluationTask) → IsDueAt now task → is_due now task ≡ true
IsDueAt-due now task d =
    rw (waiting-open task.status d.waiting, HasCome-retry task.next_retry_at now d.retry)
      (due_time-leb now task d.due)

-- The list that `find_due_tasks` returns is in the order of the due times, has only tasks that are
-- due, waiting and past their retry time, and has every stored task of that kind.
find_due_tasks_complete :
    (r : SignalRepository) (now : Datetime)
    → IsSorted (by_key (λ (t : EvaluationTask). t.due_time.instant)) (find_due_tasks r now)
      × All (IsDueAt now) (find_due_tasks r now)
      × ((key : TaskKey) (task : EvaluationTask)
          → task_at r key ≡ some task
          → IsDueAt now task
          → Mem task (find_due_tasks r now))
unfolding find_due_tasks
find_due_tasks_complete r now = (
  sort_by-IsSorted _ _,
  sort_by-All _ (IsDueAt now) _
      (keep-All_of (is_due now) (IsDueAt now) (due-IsDueAt now) (values r.tasks)),
  λ key task e d. (Perm.mem_iff (sort_by-perm _ _)).1 (
      mem-keep (is_due now) task (values r.tasks) (IsDueAt-due now task d) (
        mem-map_of_mem (λ (x : TaskKey × EvaluationTask). x.1)
          (get-mem TaskKey_discrete r.tasks key task e))),
)
