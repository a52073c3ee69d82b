-- ===== src/Tests/Calendar.antt =====
-- The default calendar, and the tasks of a signal by its times.
use invest_quant_system.Prelude.{◌≡◌, refl, true, List, [], ◌∷◌, some, arith}
use invest_quant_system.Prelude.Int.{pos, ℤ_discrete}
use invest_quant_system.Prelude.Text.{is_empty}
use invest_quant_system.Prelude.Result.{ok}
use invest_quant_system.Contracts.Moment.{Datetime, add_seconds, require_aware_utc, require_offset}
use invest_quant_system.Contracts.Evaluation.{
  EvaluationPolicy, EvaluationTask, ambiguous, validate_policy, validate_task,
}
use invest_quant_system.Signals.Repository.{SignalRepository, upsert_task}
use invest_quant_system.Calendar.{
  default_calendar, is_trading_day, is_holiday, next_from, next_session_time, next_evaluation_time,
}
use invest_quant_system.Calendar.Sessions.{IsOrdered}
use invest_quant_system.Calendar.Found.{IsNextSession, next_session_time-IsNextSession}
use invest_quant_system.Evaluation.Scheduler.{
  due_time_of, new_task, create_tasks, create_tasks_for_signal,
}
use invest_quant_system.Evaluation.Scheduler.Tasks.{AreScheduled, create_tasks_for_signal_schedules}
use invest_quant_system.Evaluation.Scheduler.Due.{Reaches}
use invest_quant_system.Tests.Data.{utc, signal}

default-IsOrdered : IsOrdered default_calendar
default-IsOrdered = record {
  morning = omega arith;
  noon = omega arith;
  afternoon = omega arith;
  evening = omega arith;
}

-- the second day is a Tuesday
tuesday_trades : is_trading_day default_calendar 1 ≡ true
unfolding is_trading_day is_holiday
tuesday_trades = refl

next_session_time-IsNextSession_example :
    (r : Datetime) × (next_session_time 3 default_calendar (utc 30000) ≡ ok (some r))
    × IsNextSession default_calendar default-IsOrdered (utc 30000) r
next_session_time-IsNextSession_example =
    next_session_time-IsNextSession default_calendar default-IsOrdered 3 (utc 30000) 1 refl
      tuesday_trades (omega arith) (omega arith)

-- Monday's last session is over, and Tuesday's first begins at half past nine.
after_the_last_session : next_session_time 3 default_calendar (utc 30000) ≡ ok (some (utc 91800))
unfolding next_session_time require_aware_utc require_offset ℤ_discrete next_from is_trading_day
    is_holiday
after_the_last_session = refl

abbrev one_hour : EvaluationPolicy
one_hour = record {
  policy_version = "evaluation-policy-v1";
  horizons_seconds = pos 3600 ∷ [];
  max_postpone_seconds = 259200;
  barrier_conflict_policy = ambiguous;
}

abbrev no_tasks : SignalRepository
no_tasks = record { signals = []; tasks = []; evaluations = [] }

abbrev hourly_tasks : List EvaluationTask
hourly_tasks = new_task one_hour signal (pos 3600) (utc 5400) ∷ []

tasks_created :
    (create_tasks_for_signal 3 default_calendar one_hour signal no_tasks).0 ≡ ok hourly_tasks
unfolding create_tasks_for_signal create_tasks validate_policy is_empty due_time_of
    next_evaluation_time next_session_time require_aware_utc require_offset ℤ_discrete next_from
    is_trading_day is_holiday upsert_task validate_task
tasks_created = refl

hour_reached : Reaches 3 default_calendar (add_seconds (utc 301) 3600)
hour_reached = record { day = 1; trading = tuesday_trades; later = omega arith; near = omega arith }

create_tasks_for_signal_schedules_example :
    (tasks : List EvaluationTask) × ((create_tasks_for_signal 3 default_calendar one_hour signal
        no_tasks).0
      ≡ ok tasks)
    × AreScheduled 3 default_calendar default-IsOrdered one_hour signal
        (pos 3600 ∷ [])
        (create_tasks_for_signal 3 default_calendar one_hour signal no_tasks).1
        tasks
unfolding validate_policy is_empty
create_tasks_for_signal_schedules_example =
    create_tasks_for_signal_schedules 3 default_calendar default-IsOrdered one_hour signal no_tasks
      refl refl refl ((refl, hour_reached), tt)
