-- ===== src/Signals/Sqlite/Evaluations.antt =====
-- signals/sqlite_repository.py: the payloads of tasks and evaluations, and what is read from them.
use invest_quant_system.Prelude.{ℕ, [], ◌∷◌}
use invest_quant_system.Prelude.Int.{pos}
use invest_quant_system.Prelude.Result.{Result, ok, err, ◌>>=◌, value_error}
use invest_quant_system.Contracts.Evaluation.{EvaluationTask, SignalEvaluation}
use invest_quant_system.Signals.Sqlite.Json.{
  Json, Fields, integer, text, time_text, decimal_text, fields_of, option_json, at, as_text,
  as_integer, as_time, as_decimal, as_option,
}
use invest_quant_system.Signals.Sqlite.Enums.{
  execution_value, as_execution, status_value, as_status, conflict_value, as_conflict,
  granularity_value, as_granularity,
}

-- `int(payload["attempts"])`, which no task has below zero
unfoldable pub as_attempts : Json → Result ℕ
as_attempts (integer (pos n)) = ok n
as_attempts _ = err (value_error "not a number of attempts")

unfoldable pub task_json : EvaluationTask → Fields
task_json t = fields_of (
    ("signal_id", text t.signal_id)
    ∷ ("horizon_seconds", integer t.horizon_seconds)
    ∷ ("due_time", time_text t.due_time)
    ∷ ("evaluation_policy_version", text t.evaluation_policy_version)
    ∷ ("data_source_version", text t.data_source_version)
    ∷ ("as_of_version", text t.as_of_version)
    ∷ ("status", text (status_value t.status))
    ∷ ("claimed_at", option_json time_text t.claimed_at)
    ∷ ("lease_expires_at", option_json time_text t.lease_expires_at)
    ∷ ("worker_id", option_json text t.worker_id)
    ∷ ("attempts", integer (pos t.attempts))
    ∷ ("next_retry_at", option_json time_text t.next_retry_at)
    ∷ ("last_error", option_json text t.last_error)
    ∷ [])

-- `task_from_json`
unfoldable pub task_from_json : Fields → Result EvaluationTask
unfolding at as_time as_option as_status as_attempts
task_from_json payload = do
  signal_id ← at payload "signal_id" as_text
  horizon_seconds ← at payload "horizon_seconds" as_integer
  due_time ← at payload "due_time" as_time
  evaluation_policy_version ← at payload "evaluation_policy_version" as_text
  data_source_version ← at payload "data_source_version" as_text
  as_of_version ← at payload "as_of_version" as_text
  status ← at payload "status" as_status
  claimed_at ← at payload "claimed_at" (as_option as_time)
  lease_expires_at ← at payload "lease_expires_at" (as_option as_time)
  worker_id ← at payload "worker_id" (as_option as_text)
  attempts ← at payload "attempts" as_attempts
  next_retry_at ← at payload "next_retry_at" (as_option as_time)
  last_error ← at payload "last_error" (as_option as_text)
  ok (record {
    signal_id = signal_id;
    horizon_seconds = horizon_seconds;
    due_time = due_time;
    evaluation_policy_version = evaluation_policy_version;
    data_source_version = data_source_version;
    as_of_version = as_of_version;
    status = status;
    claimed_at = claimed_at;
    lease_expires_at = lease_expires_at;
    worker_id = worker_id;
    attempts = attempts;
    next_retry_at = next_retry_at;
    last_error = last_error;
  })

unfoldable pub evaluation_json : SignalEvaluation → Fields
evaluation_json e = fields_of (
    ("schema_version", text e.schema_version)
    ∷ ("evaluation_run_id", text e.evaluation_run_id)
    ∷ ("signal_id", text e.signal_id)
    ∷ ("horizon_seconds", integer e.horizon_seconds)
    ∷ ("evaluation_time", time_text e.evaluation_time)
    ∷ ("executable_time", time_text e.executable_time)
    ∷ ("executable_price", option_json decimal_text e.executable_price)
    ∷ ("executable_price_source", option_json text e.executable_price_source)
    ∷ ("execution_status", text (execution_value e.execution_status))
    ∷ ("unexecutable_reason", option_json text e.unexecutable_reason)
    ∷ ("evaluation_price", option_json decimal_text e.evaluation_price)
    ∷ ("raw_return", option_json decimal_text e.raw_return)
    ∷ ("direction_return", option_json decimal_text e.direction_return)
    ∷ ("net_return", option_json decimal_text e.net_return)
    ∷ ("mfe", option_json decimal_text e.mfe)
    ∷ ("mae", option_json decimal_text e.mae)
    ∷ ("time_to_mfe_seconds", option_json integer e.time_to_mfe_seconds)
    ∷ ("time_to_mae_seconds", option_json integer e.time_to_mae_seconds)
    ∷ ("triple_barrier_label", option_json integer e.triple_barrier_label)
    ∷ ("barrier_config_version", text e.barrier_config_version)
    ∷ ("path_granularity", text (granularity_value e.path_granularity))
    ∷ ("barrier_conflict_policy", text (conflict_value e.barrier_conflict_policy))
    ∷ ("transaction_cost", decimal_text e.transaction_cost)
    ∷ ("slippage", decimal_text e.slippage)
    ∷ ("spread_cost", decimal_text e.spread_cost)
    ∷ ("signal_delay_seconds", integer e.signal_delay_seconds)
    ∷ ("evaluator_version", text e.evaluator_version)
    ∷ ("evaluation_policy_version", text e.evaluation_policy_version)
    ∷ ("cost_model_version", text e.cost_model_version)
    ∷ ("slippage_model_version", text e.slippage_model_version)
    ∷ ("delay_model_version", text e.delay_model_version)
    ∷ ("fill_model_version", text e.fill_model_version)
    ∷ ("data_source_version", text e.data_source_version)
    ∷ ("as_of_version", text e.as_of_version)
    ∷ ("created_at", time_text e.created_at)
    ∷ ("status", text (status_value e.status))
    ∷ [])

-- `evaluation_from_json`
unfoldable pub evaluation_from_json : Fields → Result SignalEvaluation
unfolding at as_time as_decimal as_option as_execution as_status as_conflict as_granularity
evaluation_from_json payload = do
  schema_version ← at payload "schema_version" as_text
  evaluation_run_id ← at payload "evaluation_run_id" as_text
  signal_id ← at payload "signal_id" as_text
  horizon_seconds ← at payload "horizon_seconds" as_integer
  evaluation_time ← at payload "evaluation_time" as_time
  executable_time ← at payload "executable_time" as_time
  executable_price ← at payload "executable_price" (as_option as_decimal)
  executable_price_source ← at payload "executable_price_source" (as_option as_text)
  execution_status ← at payload "execution_status" as_execution
  unexecutable_reason ← at payload "unexecutable_reason" (as_option as_text)
  evaluation_price ← at payload "evaluation_price" (as_option as_decimal)
  raw_return ← at payload "raw_return" (as_option as_decimal)
  direction_return ← at payload "direction_return" (as_option as_decimal)
  net_return ← at payload "net_return" (as_option as_decimal)
  mfe ← at payload "mfe" (as_option as_decimal)
  mae ← at payload "mae" (as_option as_decimal)
  time_to_mfe_seconds ← at payload "time_to_mfe_seconds" (as_option as_integer)
  time_to_mae_seconds ← at payload "time_to_mae_seconds" (as_option as_integer)
  triple_barrier_label ← at payload "triple_barrier_label" (as_option as_integer)
  barrier_config_version ← at payload "barrier_config_version" as_text
  path_granularity ← at payload "path_granularity" as_granularity
  barrier_conflict_policy ← at payload "barrier_conflict_policy" as_conflict
  transaction_cost ← at payload "transaction_cost" as_decimal
  slippage ← at payload "slippage" as_decimal
  spread_cost ← at payload "spread_cost" as_decimal
  signal_delay_seconds ← at payload "signal_delay_seconds" as_integer
  evaluator_version ← at payload "evaluator_version" as_text
  evaluation_policy_version ← at payload "evaluation_policy_version" as_text
  cost_model_version ← at payload "cost_model_version" as_text
  slippage_model_version ← at payload "slippage_model_version" as_text
  delay_model_version ← at payload "delay_model_version" as_text
  fill_model_version ← at payload "fill_model_version" as_text
  data_source_version ← at payload "data_source_version" as_text
  as_of_version ← at payload "as_of_version" as_text
  created_at ← at payload "created_at" as_time
  status ← at payload "status" as_status
  ok (record {
    schema_version = schema_version;
    evaluation_run_id = evaluation_run_id;
    signal_id = signal_id;
    horizon_seconds = horizon_seconds;
    evaluation_time = evaluation_time;
    executable_time = executable_time;
    executable_price = executable_price;
    executable_price_source = executable_price_source;
    execution_status = execution_status;
    unexecutable_reason = unexecutable_reason;
    evaluation_price = evaluation_price;
    raw_return = raw_return;
    direction_return = direction_return;
    net_return = net_return;
    mfe = mfe;
    mae = mae;
    time_to_mfe_seconds = time_to_mfe_seconds;
    time_to_mae_seconds = time_to_mae_seconds;
    triple_barrier_label = triple_barrier_label;
    barrier_config_version = barrier_config_version;
    path_granularity = path_granularity;
    barrier_conflict_policy = barrier_conflict_policy;
    transaction_cost = transaction_cost;
    slippage = slippage;
    spread_cost = spread_cost;
    signal_delay_seconds = signal_delay_seconds;
    evaluator_version = evaluator_version;
    evaluation_policy_version = evaluation_policy_version;
    cost_model_version = cost_model_version;
    slippage_model_version = slippage_model_version;
    delay_model_version = delay_model_version;
    fill_model_version = fill_model_version;
    data_source_version = data_source_version;
    as_of_version = as_of_version;
    created_at = created_at;
    status = status;
  })
