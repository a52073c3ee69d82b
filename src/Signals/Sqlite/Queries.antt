-- ===== src/Signals/Sqlite/Queries.antt =====
-- signals/sqlite_repository.py: the queries over the tables. In what order a SELECT without ORDER BY
-- gives its rows, in what order ORDER BY leaves those that tie, and how the texts of datetimes are
-- ordered is the database's: an `Engine`.
use invest_quant_system.Prelude.{
  ℕ, ◌+◌, String, Bool, true, false, ◌&&◌, ◌||◌, Option, none, some, List, [], ◌∷◌, map,
}
use invest_quant_system.Prelude.Tests.{String_discrete, if◌then◌else◌}
use invest_quant_system.Prelude.Text.{is_empty, leb_text}
use invest_quant_system.Prelude.Dict
use invest_quant_system.Prelude.Dict.{Dict, values}
use invest_quant_system.Prelude.Sort.{keep}
use invest_quant_system.Prelude.Result.{Result, ok, ◌>>=◌}
use invest_quant_system.Contracts.Moment.{Datetime}
use invest_quant_system.Contracts.Signals.{SignalEvent}
use invest_quant_system.Contracts.Evaluation.{
  EvaluationTask, EvaluationKey, SignalEvaluation, pending, running, postponed,
}
use invest_quant_system.Universe.{same}
use invest_quant_system.Signals.Repository.{is_retry_due, is_lease_over}
use invest_quant_system.Signals.Sqlite.Json.{Fields}
use invest_quant_system.Signals.Sqlite.Enums.{status_value}
use invest_quant_system.Signals.Sqlite.Events.{signal_event_from_json}
use invest_quant_system.Signals.Sqlite.Evaluations.{task_from_json, evaluation_from_json}
use invest_quant_system.Signals.Sqlite.Tables.{SignalRow, TaskRow, EvaluationRow, Database}
use invest_quant_system.Signals.Sqlite.Store.{read_all}

-- `column IN (…)`
abbrev pub is_in : List String → String → Bool
is_in [] s = false
is_in (t ∷ ts) s = same s t || is_in ts s

-- a clause that is left out where the argument is empty
abbrev pub in_clause : List String → String → Bool
in_clause [] s = true
in_clause (t ∷ ts) s = is_in (t ∷ ts) s

abbrev symbol_clause : Option String → String → Bool
symbol_clause none s = true
symbol_clause (some symbol) s = is_empty symbol || same s symbol

-- `status IN ('PENDING', 'POSTPONED')`
abbrev pub is_open_status : String → Bool
is_open_status status = same status (status_value pending) || same status (status_value postponed)

abbrev pub retry_due : Datetime → EvaluationTask → Bool
retry_due now task = is_retry_due task.next_retry_at now

abbrev pub lease_over : Datetime → EvaluationTask → Bool
lease_over now task = is_lease_over task.lease_expires_at now

abbrev pub is_running_row : TaskRow → Bool
is_running_row row = same row.status (status_value running)

abbrev pub task_payload : TaskRow → Fields
task_payload row = row.payload

pub record Engine : Type 1 where
  pub scan : {A : Type 0} → List A → List A
  pub order_by : {A : Type 0} → (A → A → Bool) → List A → List A
  pub text_leb : Datetime → Datetime → Bool

-- a group of `strategy_counts`
pub record StrategyCount : Type 0 where
  pub sample_count : ℕ
  pub first_market_data_time : Datetime
  pub last_market_data_time : Datetime

abbrev Strategy : Type 0
Strategy = String × String

unfoldable Strategy_discrete : Discrete Strategy
unfolding String_discrete
Strategy_discrete = hlevel String_discrete

abbrev by_strategy : Strategy × StrategyCount → Strategy × StrategyCount → Bool
by_strategy a b = if same a.0.0 b.0.0 then leb_text a.0.1 b.0.1 else leb_text a.0.0 b.0.0

module _ (engine : Engine) where
  unfoldable pub find_expired_leases : Database → Datetime → Result (List EvaluationTask)
  unfolding read_all task_from_json
  find_expired_leases db now = do
    tasks ←
        read_all task_from_json
          (map task_payload (engine.scan (keep is_running_row (values db.evaluation_tasks))))
    ok (keep (lease_over now) tasks)

  abbrev from_clause : Option Datetime → Datetime → Bool
  from_clause none t = true
  from_clause (some start) t = engine.text_leb start t

  abbrev to_clause : Option Datetime → Datetime → Bool
  to_clause none t = true
  to_clause (some end) t = engine.text_leb t end

  abbrev by_market_data_time : SignalRow → SignalRow → Bool
  by_market_data_time a b = engine.text_leb a.market_data_time b.market_data_time

  unfoldable pub list_signals :
      Database
      → Option String
      → Option Datetime
      → Option Datetime
      → List String
      → Result (List SignalEvent)
  unfolding read_all signal_event_from_json
  list_signals db symbol from_time to_time strategy_versions = read_all signal_event_from_json (
      map (λ (row : SignalRow). row.payload)
        (engine.order_by by_market_data_time (
          keep
            (λ (row : SignalRow).
              symbol_clause symbol row.symbol
              && (from_clause from_time row.market_data_time
                  && (to_clause to_time row.market_data_time
                      && in_clause strategy_versions row.strategy_version)))
            (values db.signals))))

  abbrev pub by_due_time : TaskRow → TaskRow → Bool
  by_due_time a b = engine.text_leb a.due_time b.due_time

  abbrev pub is_due_row : Datetime → TaskRow → Bool
  is_due_row now row = engine.text_leb row.due_time now && is_open_status row.status

  unfoldable pub find_due_tasks : Database → Datetime → Result (List EvaluationTask)
  unfolding read_all task_from_json
  find_due_tasks db now = do
    tasks ← read_all task_from_json (
        map task_payload
          (engine.order_by by_due_time (keep (is_due_row now) (values db.evaluation_tasks))))
    ok (keep (retry_due now) tasks)

  abbrev by_evaluation_time : EvaluationKey × EvaluationRow → EvaluationKey × EvaluationRow → Bool
  by_evaluation_time a b = engine.text_leb a.1.evaluation_time b.1.evaluation_time

  unfoldable pub list_evaluations : Database → List String → Result (List SignalEvaluation)
  unfolding read_all evaluation_from_json
  list_evaluations db signal_ids = read_all evaluation_from_json (
      map (λ (entry : EvaluationKey × EvaluationRow). entry.1.payload)
        (engine.order_by by_evaluation_time (
          keep (λ (entry : EvaluationKey × EvaluationRow). in_clause signal_ids entry.0.0)
            db.signal_evaluations)))

  abbrev count_row : Option StrategyCount → Datetime → StrategyCount
  count_row none t = record {
    sample_count = 1;
    first_market_data_time = t;
    last_market_data_time = t;
  }
  count_row (some c) t = record {
    sample_count = c.sample_count + 1;
    first_market_data_time =
        if engine.text_leb c.first_market_data_time t then c.first_market_data_time else t;
    last_market_data_time =
        if engine.text_leb t c.last_market_data_time then c.last_market_data_time else t;
  }

  unfoldable pub group_rows :
      Dict Strategy StrategyCount → List SignalRow → Dict Strategy StrategyCount
  unfolding Strategy_discrete
  group_rows groups [] = groups
  group_rows groups (row ∷ rows) =
      let strategy : Strategy = (row.strategy_name, row.strategy_version) in
      let count = count_row (Dict.get Strategy_discrete groups strategy) row.market_data_time in
      group_rows (Dict.put Strategy_discrete groups strategy count) rows

  unfoldable pub strategy_counts : Database → List (Strategy × StrategyCount)
  unfolding group_rows
  strategy_counts db = engine.order_by by_strategy (group_rows [] (engine.scan (values db.signals)))
