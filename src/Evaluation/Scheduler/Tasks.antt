-- ===== src/Evaluation/Scheduler/Tasks.antt =====
-- The tasks that a signal gets.
use invest_quant_system.Prelude.{ℕ, ◌≡◌, refl, sym, inl, inr, false, some, List, [], ◌∷◌, map}
use invest_quant_system.Prelude.Int.{ℤ, pos, leb_ℤ}
use invest_quant_system.Prelude.Text.{is_empty}
use invest_quant_system.Prelude.Lists.{All}
use invest_quant_system.Prelude.Dict.{set_default-keeps, set_default-present}
use invest_quant_system.Prelude.Result.{Result, ok, err, Result-cases}
use invest_quant_system.Contracts.Moment.{Datetime, IsUtc, require_aware_utc_of_IsUtc}
use invest_quant_system.Contracts.Signals.{SignalEvent}
use invest_quant_system.Contracts.Evaluation.{
  EvaluationTask, EvaluationPolicy, pending, validate_policy, validate_task, TaskKey,
  TaskKey_discrete, task_key,
}
use invest_quant_system.Signals.Repository.{
  SignalRepository, Outcome, upsert_task, upsert_task_behind,
}
use invest_quant_system.Signals.Repository.Leases.{task_at}
use invest_quant_system.Calendar.{TradingCalendar, shifted}
use invest_quant_system.Calendar.Sessions.{IsOrdered}
use invest_quant_system.Calendar.Found.{IsNextSession}
use invest_quant_system.Evaluation.Scheduler.Due.{
  Reaches, due_time_of-IsNextSession, due_time_of_found,
}
use invest_quant_system.Evaluation.Scheduler.{
  TasksOutcome, due_time_of, new_task, with_task, after_upsert, after_due, create_tasks,
  create_behind, create_tasks_for_signal,
}

-- Every task that is stored stays as it is.
abbrev pub Keeps : SignalRepository → SignalRepository → Type 0
Keeps r r' =
    (key : TaskKey) (old : EvaluationTask) → task_at r key ≡ some old → task_at r' key ≡ some old

upsert_behind-Keeps :
    (m : Result (Unit {0})) (task : EvaluationTask) (r : SignalRepository)
    → Keeps r (upsert_task_behind m task r).1
upsert_behind-Keeps (err e) task r key old h = h
upsert_behind-Keeps (ok u) task r key old h =
    set_default-keeps TaskKey_discrete r.tasks (task_key task) key task old h

with_task-Keeps :
    (r : SignalRepository) (task : EvaluationTask) (o : TasksOutcome)
    → Keeps r o.1
    → Keeps r (with_task task o).1
with_task-Keeps r task (ok tasks, r') k = k
with_task-Keeps r task (err e, r') k = k

module _ (rounds : ℕ) (calendar : TradingCalendar) (policy : EvaluationPolicy)
    (s : SignalEvent) where
  after_upsert-Keeps :
      (r : SignalRepository) (task : EvaluationTask) (o : Outcome (Unit {0}))
      (rest : SignalRepository → TasksOutcome)
      → Keeps r o.1
      → ((r' : SignalRepository) → Keeps r' (rest r').1)
      → Keeps r (after_upsert task o rest).1
  after_upsert-Keeps r task (err e, r') rest k ih = k
  after_upsert-Keeps r task (ok u, r') rest k ih =
      with_task-Keeps r task (rest r') (λ key old h. ih r' key old (k key old h))

  after_due-Keeps :
      (m : Result Datetime) (h : ℤ) (r : SignalRepository) (rest : SignalRepository → TasksOutcome)
      → ((r' : SignalRepository) → Keeps r' (rest r').1)
      → Keeps r (after_due m policy s h r rest).1
  unfolding upsert_task
  after_due-Keeps (err e) h r rest ih = λ key old p. p
  after_due-Keeps (ok due) h r rest ih =
      let task = new_task policy s h due in
      after_upsert-Keeps r task (upsert_task task r) rest
        (upsert_behind-Keeps (validate_task task) task r) ih

  create_tasks-Keeps :
      (hs : List ℤ) (r : SignalRepository) → Keeps r (create_tasks rounds calendar policy s hs r).1
  unfolding create_tasks
  create_tasks-Keeps [] r = λ key old p. p
  create_tasks-Keeps (h ∷ hs) r =
      after_due-Keeps (due_time_of rounds calendar s.event_time h) h r
        (λ r'. create_tasks rounds calendar policy s hs r') (λ r'. create_tasks-Keeps hs r')

  create_behind-Keeps :
      (m : Result (Unit {0})) (r : SignalRepository)
      → Keeps r (create_behind rounds calendar policy s m r).1
  create_behind-Keeps (err e) r = λ key old p. p
  create_behind-Keeps (ok u) r = create_tasks-Keeps policy.horizons_seconds r

  -- `create_tasks_for_signal`, whether it returns or raises, leaves every task that is stored as it
  -- is, so that scheduling a signal again resets no task that runs or is done.
  create_tasks_for_signal-Keeps :
      (r : SignalRepository) → Keeps r (create_tasks_for_signal rounds calendar policy s r).1
  unfolding create_tasks_for_signal
  create_tasks_for_signal-Keeps r = create_behind-Keeps (validate_policy policy) r

module _ (rounds : ℕ) (calendar : TradingCalendar) (ordered : IsOrdered calendar)
    (policy : EvaluationPolicy) (s : SignalEvent) where
  -- What a returned task is, due at the first session time from its horizon after the event on,
  -- and that its key is taken in the store.
  pub record IsScheduled (r : SignalRepository) (task : EvaluationTask) : Type 0 where
    pub signal : task.signal_id ≡ s.signal_id
    pub waiting : task.status ≡ pending
    pub due :
        IsNextSession calendar ordered (shifted s.event_time task.horizon_seconds) task.due_time
    pub stored : (held : EvaluationTask) × (task_at r (task_key task) ≡ some held)

  abbrev pub AreScheduled : List ℤ → SignalRepository → List EvaluationTask → Type 0
  AreScheduled hs r tasks =
      All (IsScheduled r) tasks × (map (λ (t : EvaluationTask). t.horizon_seconds) tasks ≡ hs)

  new_task-IsScheduled :
      (h : ℤ) (due : Datetime) (r r' : SignalRepository)
      → due_time_of rounds calendar s.event_time h ≡ ok due
      → Keeps (upsert_task_behind (ok tt) (new_task policy s h due) r).1 r'
      → IsScheduled r' (new_task policy s h due)
  new_task-IsScheduled h due r r' p keeps =
      let task = new_task policy s h due in
      let (held, q) = set_default-present TaskKey_discrete r.tasks (task_key task) task in
      record {
        signal = refl;
        waiting = refl;
        due = due_time_of-IsNextSession rounds calendar ordered s.event_time due h p;
        stored = (held, keeps (task_key task) held q);
      }

  with_task-AreScheduled :
      (h : ℤ) (hs : List ℤ) (task : EvaluationTask) (o : TasksOutcome)
      → task.horizon_seconds ≡ h
      → IsScheduled o.1 task
      → ((ts : List EvaluationTask) → o.0 ≡ ok ts → AreScheduled hs o.1 ts)
      → (tasks : List EvaluationTask) → (with_task task o).0 ≡ ok tasks
      → AreScheduled (h ∷ hs) (with_task task o).1 tasks
  with_task-AreScheduled h hs task (err e, r) same i ih tasks p = cc
  with_task-AreScheduled h hs task (ok ts, r) same i ih tasks p =
      let e : (task ∷ ts) ≡ tasks = cc in
      let (all, hz) = ih ts refl in rw (sym e) ((i, all), rw (same, hz) refl)

  create_tasks-AreScheduled :
      (hs : List ℤ) (r : SignalRepository) (tasks : List EvaluationTask)
      → (create_tasks rounds calendar policy s hs r).0 ≡ ok tasks
      → AreScheduled hs (create_tasks rounds calendar policy s hs r).1 tasks
  unfolding create_tasks upsert_task
  create_tasks-AreScheduled [] r tasks p = let e : [] ≡ tasks = cc in rw (sym e) (tt, refl)
  create_tasks-AreScheduled (h ∷ hs) r tasks p =
      elim (Result-cases (due_time_of rounds calendar s.event_time h)) [
        | inr (e, q) ↦ cc (rw q at p)
        | inl (due, q) ↦
            let task = new_task policy s h due in
            elim (Result-cases (validate_task task)) [
              | inr (e, v) ↦ cc (rw (q, v) at p)
              | inl (u, v) ↦
                  let r' = (upsert_task_behind (ok tt) task r).1 in
                  rw (q, v)
                    (with_task-AreScheduled h hs task (create_tasks rounds calendar policy s hs r')
                      refl
                      (new_task-IsScheduled h due r (create_tasks rounds calendar policy s hs r').1
                        q (create_tasks-Keeps rounds calendar policy s hs r'))
                      (λ ts. create_tasks-AreScheduled hs r' ts) tasks (rw (q, v) at p))
            ]
      ]

  create_behind-AreScheduled :
      (m : Result (Unit {0})) (r : SignalRepository) (tasks : List EvaluationTask)
      → (create_behind rounds calendar policy s m r).0 ≡ ok tasks
      → AreScheduled policy.horizons_seconds (create_behind rounds calendar policy s m r).1 tasks
  create_behind-AreScheduled (err e) r tasks p = cc
  create_behind-AreScheduled (ok u) r tasks p =
      create_tasks-AreScheduled policy.horizons_seconds r tasks p

  create_tasks_for_signal-AreScheduled :
      (r : SignalRepository) (tasks : List EvaluationTask)
      → (create_tasks_for_signal rounds calendar policy s r).0 ≡ ok tasks
      → AreScheduled policy.horizons_seconds
          (create_tasks_for_signal rounds calendar policy s r).1
          tasks
  unfolding create_tasks_for_signal
  create_tasks_for_signal-AreScheduled r tasks p =
      create_behind-AreScheduled (validate_policy policy) r tasks p

  -- a horizon that a task may have, and that the calendar reaches
  abbrev pub IsReached : ℤ → Type 0
  IsReached h = (leb_ℤ h (pos 0) ≡ false) × Reaches rounds calendar (shifted s.event_time h)

  new_task_validates :
      (h : ℤ) (due : Datetime)
      → is_empty s.signal_id ≡ false
      → leb_ℤ h (pos 0) ≡ false
      → IsUtc due
      → validate_task (new_task policy s h due) ≡ ok tt
  unfolding validate_task
  new_task_validates h due n p u =
      rw (require_aware_utc_of_IsUtc due "due_time" u) (rw n (rw p refl))

  with_task_returns :
      (task : EvaluationTask) (o : TasksOutcome) (tasks : List EvaluationTask)
      → o.0 ≡ ok tasks
      → (with_task task o).0 ≡ ok (task ∷ tasks)
  with_task_returns task (ok ts, r) tasks e = let same : ts ≡ tasks = cc in rw same refl
  with_task_returns task (err x, r) tasks e = cc

  create_tasks_return :
      (hs : List ℤ) (r : SignalRepository)
      → IsUtc s.event_time
      → is_empty s.signal_id ≡ false
      → All IsReached hs
      → (tasks : List EvaluationTask) × ((create_tasks rounds calendar policy s hs r).0 ≡ ok tasks)
  unfolding create_tasks upsert_task
  create_tasks_return [] r u n all = ([], refl)
  create_tasks_return (h ∷ hs) r u n all =
      let (due, q) = due_time_of_found rounds calendar ordered s.event_time h u all.0.1 in
      let task = new_task policy s h due in
      let session = due_time_of-IsNextSession rounds calendar ordered s.event_time due h q in
      let valid = new_task_validates h due n all.0.0 session.in_utc in
      let r' = (upsert_task_behind (ok tt) task r).1 in
      let (tasks, e) = create_tasks_return hs r' u n all.1 in
      (
        task ∷ tasks,
        rw (q, valid)
            (with_task_returns task (create_tasks rounds calendar policy s hs r') tasks e),
      )

  -- If the sessions of the calendar follow one another, the event is in UTC and has an id, the policy is
  -- valid, and for each of its horizons, which are positive, a trading day stands behind the local day of
  -- the horizon's end within the rounds, then `create_tasks_for_signal` returns tasks: one for each
  -- horizon, in their order, of the signal, pending, and due at the first session time from the horizon
  -- after the event on; the key of each is taken in the store.
  pub create_tasks_for_signal_schedules :
      (r : SignalRepository)
      → IsUtc s.event_time
      → is_empty s.signal_id ≡ false
      → validate_policy policy ≡ ok tt
      → All IsReached policy.horizons_seconds
      → (tasks : List EvaluationTask) × ((create_tasks_for_signal rounds calendar policy s r).0
          ≡ ok tasks)
        × AreScheduled policy.horizons_seconds
            (create_tasks_for_signal rounds calendar policy s r).1
            tasks
  unfolding create_tasks_for_signal
  create_tasks_for_signal_schedules r u n v all =
      let (tasks, e) = create_tasks_return policy.horizons_seconds r u n all in
      (tasks, rw v e, create_tasks_for_signal-AreScheduled r tasks (rw v e))
