-- ===== src/Evaluation/Scheduler.antt =====
-- evaluation/scheduler.py: the evaluation tasks of a signal, due at the times of the trading calendar.
pub mod Due
pub mod Tasks
use invest_quant_system.Prelude.{ℕ, ◌+◌, ◌≤◌, String, Option, none, some, List, [], ◌∷◌, ◌≡◌}
use invest_quant_system.Prelude.Int.{ℤ, pos}
use invest_quant_system.Prelude.Result.{Result, ok, err, value_error, ◌>>=◌}
use invest_quant_system.Contracts.Moment.{Datetime}
use invest_quant_system.Calendar.{TradingCalendar, next_evaluation_time}
use invest_quant_system.Contracts.Signals.{SignalEvent}
use invest_quant_system.Contracts.Evaluation.{
  EvaluationTask, EvaluationPolicy, pending, validate_policy, TaskKey, task_key,
}
use invest_quant_system.Signals.Repository.{
  SignalRepository, Outcome, upsert_task, find_due_tasks, claim,
}

-- The loop of the calendar runs for a number of rounds; one that finds no session within them, where
-- the code goes on, counts as a call that raises.
abbrev pub within_rounds : Option Datetime → Result Datetime
within_rounds none = err (value_error "no session within the rounds")
within_rounds (some t) = ok t

-- `calendar.next_evaluation_time(event_time, horizon, symbol)`, which does not read the symbol
unfoldable pub due_time_of : ℕ → TradingCalendar → Datetime → ℤ → Result Datetime
unfolding next_evaluation_time
due_time_of rounds c event_time horizon =
    next_evaluation_time rounds c event_time horizon >>= within_rounds

-- the task of one horizon
abbrev pub new_task : EvaluationPolicy → SignalEvent → ℤ → Datetime → EvaluationTask
new_task policy s horizon due = record {
  signal_id = s.signal_id;
  horizon_seconds = horizon;
  due_time = due;
  evaluation_policy_version = policy.policy_version;
  data_source_version = s.data_source_version;
  as_of_version = s.as_of_version;
  status = pending;
  claimed_at = none;
  lease_expires_at = none;
  worker_id = none;
  attempts = 0;
  next_retry_at = none;
  last_error = none;
}

abbrev pub TasksOutcome : Type 0
TasksOutcome = Outcome (List EvaluationTask)

-- a task before those of the later horizons
abbrev pub with_task : EvaluationTask → TasksOutcome → TasksOutcome
with_task task (ok tasks, r) = (ok (task ∷ tasks), r)
with_task task (err e, r) = (err e, r)

-- behind the `upsert_task` of a task
abbrev pub after_upsert :
    EvaluationTask → Outcome (Unit {0}) → (SignalRepository → TasksOutcome) → TasksOutcome
after_upsert task (err e, r) rest = (err e, r)
after_upsert task (ok _, r) rest = with_task task (rest r)

-- behind the due time of a horizon
abbrev pub after_due :
    Result Datetime
    → EvaluationPolicy
    → SignalEvent
    → ℤ
    → SignalRepository
    → (SignalRepository → TasksOutcome)
    → TasksOutcome
after_due (err e) policy s horizon r rest = (err e, r)
after_due (ok due) policy s horizon r rest =
    let task = new_task policy s horizon due in after_upsert task (upsert_task task r) rest

module _ (rounds : ℕ) (calendar : TradingCalendar) (policy : EvaluationPolicy)
    (s : SignalEvent) where
  -- the loop over the horizons
  unfoldable pub create_tasks : List ℤ → SignalRepository → TasksOutcome
  unfolding due_time_of
  create_tasks [] r = (ok [], r)
  create_tasks (h ∷ hs) r =
      after_due (due_time_of rounds calendar s.event_time h) policy s h r (λ r'. create_tasks hs r')

  abbrev pub create_behind : Result (Unit {0}) → SignalRepository → TasksOutcome
  create_behind (err e) r = (err e, r)
  create_behind (ok _) r = create_tasks policy.horizons_seconds r

  unfoldable pub create_tasks_for_signal : SignalRepository → TasksOutcome
  unfolding create_tasks
  create_tasks_for_signal r = create_behind (validate_policy policy) r

-- `EvaluationScheduler.find_due_tasks` and `claim`, at the time of the clock
unfoldable pub scheduled_due_tasks : SignalRepository → Datetime → List EvaluationTask
scheduled_due_tasks r now = find_due_tasks r now

unfoldable pub claim_scheduled :
    EvaluationTask → String → Datetime → ℕ → SignalRepository → Outcome EvaluationTask
claim_scheduled task worker_id now lease_seconds r =
    claim (task_key task) worker_id now lease_seconds r
