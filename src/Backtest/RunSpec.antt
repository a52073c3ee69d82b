-- ===== src/Backtest/RunSpec.antt =====
-- backtest/run_spec.py: the bindings of strategies and the description of a run, with their checks and
-- the digest of what a run depends on. The profile of the data source, the paths, the description of
-- a binding and the environment that a run records are left out: no operation here reads them.
use invest_quant_system.Prelude.{
  String, Bool, true, false, ◌||◌, not, Option, none, some, List, [], ◌∷◌, map,
}
use invest_quant_system.Prelude.Tests.{String_discrete}
use invest_quant_system.Prelude.Int.{ℤ, pos, ltb_ℤ}
use invest_quant_system.Prelude.Decimal.{Decimal}
use invest_quant_system.Prelude.Text.{is_empty, is_blank}
use invest_quant_system.Prelude.Result.{Result, ok, ◌>>◌}
use invest_quant_system.Contracts.Moment.{Datetime, leb_time, require_aware_utc}
use invest_quant_system.Contracts.Checks.{invalid_if}

pub record StrategyBinding : Type 0 where
  pub binding_id : String
  pub strategy_name : String
  pub strategy_version : String
  pub parameter_hash : String
  pub universe_id : String
  pub universe_version : String
  pub feature_version : String
  pub composer_policy : String
  pub market_rule_version : Option String
  pub cost_model_version : String
  pub fill_model_version : String
  pub weight : Decimal
  pub valid_from : Option Datetime
  pub valid_to : Option Datetime

-- `not s or not s.strip()`
abbrev missing : String → Bool
missing s = is_empty s || is_blank s

-- `if t is not None: require_aware_utc(t, …)`
unfoldable pub check_optional : Option Datetime → String → Result (Unit {0})
check_optional none field_name = ok tt
check_optional (some t) field_name = require_aware_utc t field_name

-- `valid_from is not None and valid_to is not None and valid_from >= valid_to`
abbrev is_void : Option Datetime → Option Datetime → Bool
is_void none end = false
is_void (some t) none = false
is_void (some t) (some u) = leb_time u t

-- `StrategyBinding.validate`
unfoldable pub validate_binding : StrategyBinding → Result (Unit {0})
unfolding check_optional
validate_binding b =
    invalid_if (missing b.binding_id) "binding_id is required"
    >> (invalid_if (missing b.strategy_name) "strategy_name is required"
        >> (invalid_if (missing b.strategy_version) "strategy_version is required"
            >> (invalid_if (missing b.parameter_hash) "parameter_hash is required"
                >> (invalid_if (missing b.universe_id) "universe_id is required"
                    >> (invalid_if (missing b.universe_version) "universe_version is required"
                        >> (invalid_if (missing b.feature_version) "feature_version is required"
                            >> (invalid_if (ltb_ℤ b.weight (pos 0)) "weight must be non-negative"
                                >> (check_optional b.valid_from "valid_from"
                                    >> (check_optional b.valid_to "valid_to"
                                        >> invalid_if (is_void b.valid_from b.valid_to)
                                            "valid_from must be before valid_to")))))))))

pub record BacktestRunSpec : Type 0 where
  pub run_id : String
  pub run_mode : String
  pub from_time : Datetime
  pub to_time : Datetime
  pub timeframe : String
  pub data_source_version : String
  pub as_of_version : String
  pub strategy_bindings : List StrategyBinding
  pub market_rule_version : Option String
  pub cost_model_version : String
  pub fill_model_version : String
  pub initial_cash : Decimal
  pub clock_policy : String
  pub random_seed : Option ℤ

abbrev same : String → String → Bool
same s t = elim (String_discrete s t) [ yes _ ↦ true | no _ ↦ false ]

abbrev is_timeframe : String → Bool
is_timeframe s = same s "1m" || (same s "5m" || (same s "15m" || (same s "1h" || same s "1d")))

abbrev no_bindings : List StrategyBinding → Bool
no_bindings [] = true
no_bindings (b ∷ bs) = false

-- `BacktestRunSpec._post_init_validation`
unfoldable pub validate_spec : BacktestRunSpec → Result (Unit {0})
validate_spec s =
    require_aware_utc s.from_time "from_time"
    >> (require_aware_utc s.to_time "to_time"
        >> (invalid_if (leb_time s.to_time s.from_time) "from_time must be before to_time"
            >> (invalid_if (not (is_timeframe s.timeframe)) "unknown timeframe"
                >> invalid_if (no_bindings s.strategy_bindings)
                    "at least one strategy_binding is required")))

-- the part of a binding that the digest of the run covers
pub record BindingParts : Type 0 where
  pub binding_id : String
  pub strategy_name : String
  pub strategy_version : String
  pub parameter_hash : String
  pub universe_id : String
  pub universe_version : String
  pub feature_version : String
  pub composer_policy : String
  pub weight : Decimal
  pub valid_from : Option Datetime
  pub valid_to : Option Datetime

abbrev binding_parts : StrategyBinding → BindingParts
binding_parts b = record {
  binding_id = b.binding_id;
  strategy_name = b.strategy_name;
  strategy_version = b.strategy_version;
  parameter_hash = b.parameter_hash;
  universe_id = b.universe_id;
  universe_version = b.universe_version;
  feature_version = b.feature_version;
  composer_policy = b.composer_policy;
  weight = b.weight;
  valid_from = b.valid_from;
  valid_to = b.valid_to;
}

pub record RunParts : Type 0 where
  pub run_mode : String
  pub from_time : Datetime
  pub to_time : Datetime
  pub timeframe : String
  pub data_source_version : String
  pub as_of_version : String
  pub market_rule_version : Option String
  pub cost_model_version : String
  pub fill_model_version : String
  pub clock_policy : String
  pub random_seed : Option ℤ
  pub initial_cash : Decimal
  pub bindings : List BindingParts

-- what `compute_resolved_hash` digests
unfoldable pub run_parts : BacktestRunSpec → RunParts
run_parts s = record {
  run_mode = s.run_mode;
  from_time = s.from_time;
  to_time = s.to_time;
  timeframe = s.timeframe;
  data_source_version = s.data_source_version;
  as_of_version = s.as_of_version;
  market_rule_version = s.market_rule_version;
  cost_model_version = s.cost_model_version;
  fill_model_version = s.fill_model_version;
  clock_policy = s.clock_policy;
  random_seed = s.random_seed;
  initial_cash = s.initial_cash;
  bindings = map binding_parts s.strategy_bindings;
}
