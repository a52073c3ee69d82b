-- ===== src/Tests/Sqlite.antt =====
-- A signal and its task through the SQLite store, and what is read back.
use mathlib.Core.List.{Perm, reverse, reverse_perm}
use invest_quant_system.Prelude.Sort.{IsSorted, by_key, sort, sort-perm, sort-IsSorted}
use invest_quant_system.Prelude.{arith, ◌≡◌, refl, some, none, List, [], ◌∷◌}
use invest_quant_system.Prelude.Int.{ℤ_discrete, pos}
use invest_quant_system.Prelude.Decimal.{whole}
use invest_quant_system.Prelude.Text.{is_empty}
use invest_quant_system.Prelude.Result.{ok}
use invest_quant_system.Contracts.Moment.{leb_time, require_aware_utc, require_offset}
use invest_quant_system.Contracts.Signals.{unexecutable}
use invest_quant_system.Contracts.Evaluation.{
  EvaluationTask, SignalEvaluation, task_key, validate_task, completed, bar_ohlc, ambiguous,
}
use invest_quant_system.Signals.Repository
use invest_quant_system.Signals.Repository.{SignalRepository, new_repository}
use invest_quant_system.Signals.Sqlite.Events.{event_json, signal_event_from_json}
use invest_quant_system.Signals.Sqlite.Evaluations.{
  task_json, task_from_json, evaluation_json, evaluation_from_json,
}
use invest_quant_system.Signals.Sqlite.RoundTrip.{payloads_read_back}
use invest_quant_system.Signals.Sqlite.Queries
use invest_quant_system.Signals.Sqlite.Queries.{Engine}
use invest_quant_system.Signals.Sqlite.Rows.{IsEngine}
use invest_quant_system.Signals.Sqlite.Refines.{db_of}
use invest_quant_system.Signals.Sqlite.Calls.{
  Call, append, upsert, claim, complete, postpone, record_evaluation, run_memory, run_sqlite,
  run_sqlite-refines,
}
use invest_quant_system.Signals.Sqlite.Due.{due_instant, due_queries-agree}
use invest_quant_system.Tests.Data.{utc, signal, task}

abbrev evaluation : SignalEvaluation
evaluation = record {
  schema_version = "signal-evaluation-v1";
  evaluation_run_id = "run";
  signal_id = "signal";
  horizon_seconds = pos 900;
  evaluation_time = utc 1200;
  executable_time = utc 300;
  executable_price = some (whole 10);
  executable_price_source = some "next_bar_open";
  execution_status = unexecutable;
  unexecutable_reason = none;
  evaluation_price = some (whole 11);
  raw_return = none;
  direction_return = none;
  net_return = none;
  mfe = none;
  mae = some (whole 1);
  time_to_mfe_seconds = some (pos 60);
  time_to_mae_seconds = none;
  triple_barrier_label = some (pos 1);
  barrier_config_version = "b1";
  path_granularity = bar_ohlc;
  barrier_conflict_policy = ambiguous;
  transaction_cost = whole 0;
  slippage = whole 0;
  spread_cost = whole 0;
  signal_delay_seconds = pos 60;
  evaluator_version = "e1";
  evaluation_policy_version = "p1";
  cost_model_version = "c1";
  slippage_model_version = "s1";
  delay_model_version = "d1";
  fill_model_version = "f1";
  data_source_version = "v1";
  as_of_version = "a1";
  created_at = utc 1300;
  status = completed;
}

payloads_read_back_example :
    (signal_event_from_json (event_json signal) ≡ ok signal)
    × (task_from_json (task_json task) ≡ ok task)
    × (evaluation_from_json (evaluation_json evaluation) ≡ ok evaluation)
payloads_read_back_example = payloads_read_back signal task evaluation

abbrev calls : List Call
calls =
    append signal
    ∷ append signal
    ∷ upsert task
    ∷ claim (task_key task) "w1" (utc 4000) 60
    ∷ claim (task_key task) "w2" (utc 4030) 60
    ∷ postpone (task_key task) (utc 5000) "no data"
    ∷ complete (task_key task)
    ∷ record_evaluation evaluation
    ∷ []

run_sqlite-refines_example :
    run_sqlite calls (db_of new_repository)
    ≡ ((run_memory calls new_repository).0, db_of (run_memory calls new_repository).1)
run_sqlite-refines_example =
    run_sqlite-refines calls new_repository tt
      (tt, (tt, ((refl, refl), (tt, (tt, (refl, (tt, (tt, tt))))))))

abbrev other_task : EvaluationTask
other_task = record task { signal_id = "other" }

abbrev waiting : SignalRepository
waiting = record new_repository {
  tasks = (task_key task, task) ∷ (task_key other_task, other_task) ∷ [];
}

-- a database that gives its rows from the last to the first
abbrev last_first : Engine
last_first = record { scan = λ xs. reverse xs; order_by = λ le xs. sort le xs; text_leb = leb_time }

last_first-IsEngine : IsEngine last_first
last_first-IsEngine = record {
  scans = λ xs. reverse_perm xs;
  orders = λ le xs. sort-perm le xs;
  ordered = λ le total trans xs. sort-IsSorted le total trans xs;
  text_total = λ a b h. ground arith;
  text_trans = λ a b c p q. ground arith;
  text_order = λ a b u v. refl;
}

due_queries-agree_example :
    ((ts : List EvaluationTask) × (Queries.find_due_tasks last_first (db_of waiting) (utc 4000)
        ≡ ok ts)
      × Perm ts (Repository.find_due_tasks waiting (utc 4000))
      × IsSorted (by_key due_instant) ts)
    × ((us : List EvaluationTask) × (Queries.find_expired_leases last_first
            (db_of waiting)
            (utc 4000)
          ≡ ok us)
        × Perm us (Repository.find_expired_leases waiting (utc 4000)))
unfolding validate_task require_aware_utc require_offset ℤ_discrete is_empty
due_queries-agree_example =
    due_queries-agree last_first last_first-IsEngine waiting (utc 4000)
      ((refl, refl, refl), ((refl, refl, refl), tt)) refl
