-- ===== src/Contracts/Evaluation.antt =====
-- contracts/evaluation.py: the tasks that evaluate a signal at a horizon, and their results.
use invest_quant_system.Prelude.{
  ℕ, String, Bool, true, false, ◌&&◌, ◌||◌, Option, none, some, List, [], ◌∷◌,
}
use invest_quant_system.Prelude.Tests.{String_discrete}
use invest_quant_system.Prelude.Int.{ℤ, pos, leb_ℤ, ℤ_discrete}
use invest_quant_system.Prelude.Decimal.{Decimal}
use invest_quant_system.Prelude.Text.{is_empty}
use invest_quant_system.Prelude.Result.{Result, ◌>>◌}
use invest_quant_system.Contracts.Moment.{Datetime, Datetime_discrete, require_aware_utc}
use invest_quant_system.Contracts.Checks.{invalid_if}
use invest_quant_system.Contracts.Signals.{ExecutionStatus, ExecutionStatus_discrete}

pub data EvaluationTaskStatus : Type 0 where
  pending running completed postponed failed censored : EvaluationTaskStatus

pub data BarrierConflictPolicy : Type 0 where
  conservative ambiguous require_tick : BarrierConflictPolicy

pub data PathGranularity : Type 0 where
  tick bar_ohlc bar_close : PathGranularity

pub record EvaluationPolicy : Type 0 where
  pub policy_version : String
  pub horizons_seconds : List ℤ
  pub max_postpone_seconds : ℕ
  pub barrier_conflict_policy : BarrierConflictPolicy

-- `not horizons or any(value <= 0 for value in horizons)`
abbrev is_any_non_positive : List ℤ → Bool
is_any_non_positive [] = false
is_any_non_positive (h ∷ hs) = leb_ℤ h (pos 0) || is_any_non_positive hs

abbrev is_bad_horizons : List ℤ → Bool
is_bad_horizons [] = true
is_bad_horizons (h ∷ hs) = is_any_non_positive (h ∷ hs)

-- `EvaluationPolicy.validate`
unfoldable pub validate_policy : EvaluationPolicy → Result (Unit {0})
validate_policy p =
    invalid_if (is_empty p.policy_version) "policy_version is required"
    >> invalid_if (is_bad_horizons p.horizons_seconds) "horizons_seconds must be positive"

pub record EvaluationTask : Type 0 where
  pub signal_id : String
  pub horizon_seconds : ℤ
  pub due_time : Datetime
  pub evaluation_policy_version : String
  pub data_source_version : String
  pub as_of_version : String
  pub status : EvaluationTaskStatus
  pub claimed_at : Option Datetime
  pub lease_expires_at : Option Datetime
  pub worker_id : Option String
  pub attempts : ℕ
  pub next_retry_at : Option Datetime
  pub last_error : Option String

abbrev pub TaskKey : Type 0
TaskKey = String × ℤ × String × String × String

abbrev pub task_key : EvaluationTask → TaskKey
task_key t = (
  t.signal_id, t.horizon_seconds, t.evaluation_policy_version, t.data_source_version,
  t.as_of_version,
)

unfoldable pub TaskKey_discrete : Discrete TaskKey
unfolding ℤ_discrete String_discrete
TaskKey_discrete = hlevel (ℤ_discrete, String_discrete)

-- `EvaluationTask.validate`
unfoldable pub validate_task : EvaluationTask → Result (Unit {0})
validate_task t =
    require_aware_utc t.due_time "due_time"
    >> invalid_if (is_empty t.signal_id || leb_ℤ t.horizon_seconds (pos 0))
        "evaluation task identity is invalid"

pub record SignalEvaluation : Type 0 where
  pub schema_version : String
  pub evaluation_run_id : String
  pub signal_id : String
  pub horizon_seconds : ℤ
  pub evaluation_time : Datetime
  pub executable_time : Datetime
  pub executable_price : Option Decimal
  pub executable_price_source : Option String
  pub execution_status : ExecutionStatus
  pub unexecutable_reason : Option String
  pub evaluation_price : Option Decimal
  pub raw_return : Option Decimal
  pub direction_return : Option Decimal
  pub net_return : Option Decimal
  pub mfe : Option Decimal
  pub mae : Option Decimal
  pub time_to_mfe_seconds : Option ℤ
  pub time_to_mae_seconds : Option ℤ
  pub triple_barrier_label : Option ℤ
  pub barrier_config_version : String
  pub path_granularity : PathGranularity
  pub barrier_conflict_policy : BarrierConflictPolicy
  pub transaction_cost : Decimal
  pub slippage : Decimal
  pub spread_cost : Decimal
  pub signal_delay_seconds : ℤ
  pub evaluator_version : String
  pub evaluation_policy_version : String
  pub cost_model_version : String
  pub slippage_model_version : String
  pub delay_model_version : String
  pub fill_model_version : String
  pub data_source_version : String
  pub as_of_version : String
  pub created_at : Datetime
  pub status : EvaluationTaskStatus

abbrev pub EvaluationKey : Type 0
EvaluationKey = String × ℤ × String × String × String × String × String × String

abbrev pub evaluation_key : SignalEvaluation → EvaluationKey
evaluation_key e = (
  e.signal_id, e.horizon_seconds, e.evaluation_policy_version, e.evaluator_version,
  e.cost_model_version, e.fill_model_version, e.data_source_version, e.as_of_version,
)

unfoldable pub EvaluationKey_discrete : Discrete EvaluationKey
unfolding ℤ_discrete String_discrete
EvaluationKey_discrete = hlevel (ℤ_discrete, String_discrete)

EvaluationTaskStatus_discrete : Discrete EvaluationTaskStatus
EvaluationTaskStatus_discrete = hlevel

BarrierConflictPolicy_discrete : Discrete BarrierConflictPolicy
BarrierConflictPolicy_discrete = hlevel

PathGranularity_discrete : Discrete PathGranularity
PathGranularity_discrete = hlevel

-- `existing == evaluation`, the dataclass's equality
unfoldable pub SignalEvaluation_discrete : Discrete SignalEvaluation
unfolding EvaluationTaskStatus_discrete BarrierConflictPolicy_discrete PathGranularity_discrete
    ExecutionStatus_discrete ℤ_discrete String_discrete Datetime_discrete
SignalEvaluation_discrete = hlevel (
  EvaluationTaskStatus_discrete, BarrierConflictPolicy_discrete, PathGranularity_discrete,
  ExecutionStatus_discrete, ℤ_discrete, String_discrete, Datetime_discrete,
)

abbrev pub is_completed : EvaluationTaskStatus → Bool
is_completed completed = true
is_completed _ = false

abbrev pub is_none {ℓ} : {A : Type ℓ} → Option A → Bool
is_none none = true
is_none (some a) = false

-- `SignalEvaluation.validate`
unfoldable pub validate_evaluation : SignalEvaluation → Result (Unit {0})
validate_evaluation e =
    require_aware_utc e.evaluation_time "evaluation_time"
    >> (require_aware_utc e.executable_time "executable_time"
        >> (require_aware_utc e.created_at "created_at"
            >> (invalid_if (leb_ℤ e.horizon_seconds (pos 0)) "horizon_seconds must be positive"
                >> invalid_if (is_completed e.status && is_none e.evaluation_price)
                    "completed evaluation requires evaluation_price")))
