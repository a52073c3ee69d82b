-- ===== src/Signals/Sqlite/Tables.antt =====
-- signals/sqlite_repository.py: the three tables. A table is its rows by primary key, and a column of
-- `isoformat` texts holds the datetimes.
use invest_quant_system.Prelude.{String, []}
use invest_quant_system.Prelude.Int.{ℤ}
use invest_quant_system.Prelude.Dict.{Dict}
use invest_quant_system.Contracts.Moment.{Datetime}
use invest_quant_system.Contracts.Signals.{SignalEvent, direction_sign}
use invest_quant_system.Contracts.Evaluation.{
  EvaluationTask, TaskKey, SignalEvaluation, EvaluationKey,
}
use invest_quant_system.Signals.Sqlite.Json.{Fields}
use invest_quant_system.Signals.Sqlite.Enums.{action_value, status_value}
use invest_quant_system.Signals.Sqlite.Events.{event_json}
use invest_quant_system.Signals.Sqlite.Evaluations.{task_json, evaluation_json}

pub record SignalRow : Type 0 where
  pub symbol : String
  pub strategy_name : String
  pub strategy_version : String
  pub direction : ℤ
  pub signal_action : String
  pub event_time : Datetime
  pub market_data_time : Datetime
  pub data_source_version : String
  pub as_of_version : String
  pub payload : Fields

pub record TaskRow : Type 0 where
  pub due_time : Datetime
  pub status : String
  pub payload : Fields

pub record EvaluationRow : Type 0 where
  pub evaluation_time : Datetime
  pub status : String
  pub payload : Fields

pub record Database : Type 0 where
  pub signals : Dict String SignalRow
  pub evaluation_tasks : Dict TaskKey TaskRow
  pub signal_evaluations : Dict EvaluationKey EvaluationRow

abbrev pub new_database : Database
new_database = record { signals = []; evaluation_tasks = []; signal_evaluations = [] }

-- the values of an INSERT
unfoldable pub signal_row : SignalEvent → SignalRow
unfolding event_json
signal_row e = record {
  symbol = e.symbol;
  strategy_name = e.strategy_name;
  strategy_version = e.strategy_version;
  direction = direction_sign e.direction;
  signal_action = action_value e.signal_action;
  event_time = e.event_time;
  market_data_time = e.market_data_time;
  data_source_version = e.data_source_version;
  as_of_version = e.as_of_version;
  payload = event_json e;
}

unfoldable pub task_row : EvaluationTask → TaskRow
unfolding task_json
task_row t = record { due_time = t.due_time; status = status_value t.status; payload = task_json t }

unfoldable pub evaluation_row : SignalEvaluation → EvaluationRow
unfolding evaluation_json
evaluation_row e = record {
  evaluation_time = e.evaluation_time;
  status = status_value e.status;
  payload = evaluation_json e;
}
