-- ===== src/Backtest/Warnings.antt =====
-- backtest/manifest.py and backtest/scheduler.py: the warnings of a run, and the tests for them that the
-- scheduler offers. `isoformat` is an argument.
use invest_quant_system.Prelude.{
  ℕ, String, Bool, true, false, not, Option, none, some, List, [], ◌∷◌,
}
use invest_quant_system.Prelude.Tests.{String_discrete}
use invest_quant_system.Prelude.Int.{ℤ}
use invest_quant_system.Prelude.Text.{text_append}
use invest_quant_system.Prelude.Result.{Result, ok, err}
use invest_quant_system.Contracts.Moment.{Datetime}
use invest_quant_system.Universe.{UniverseRepository, UniverseSnapshot, same, resolve}

pub record RunWarning : Type 0 where
  pub warning_code : String
  pub severity : String
  pub message : String
  pub affected_symbols : List String
  pub affected_time_range : Option (Datetime × Datetime)
  pub count : ℕ
  pub event_sequence : Option ℤ
  pub current_virtual_time : Option Datetime

-- a warning with the values that its other fields have by default
unfoldable pub new_warning : String → String → String → List String → RunWarning
new_warning code severity message symbols = record {
  warning_code = code;
  severity = severity;
  message = message;
  affected_symbols = symbols;
  affected_time_range = none;
  count = 1;
  event_sequence = none;
  current_virtual_time = none;
}

-- `BacktestScheduler.build_time_range_warning`
unfoldable pub build_time_range_warning :
    (Datetime → String) → String → Datetime → Datetime → RunWarning
unfolding new_warning
build_time_range_warning isoformat symbol from_time to_time =
    record (new_warning "MISSING_BAR" "warn"
      (text_append "bar gap detected for " (
        text_append symbol (
          text_append " between "
            (text_append (isoformat from_time) (text_append " and " (isoformat to_time))))))
      (symbol ∷ [])) { affected_time_range = some (from_time, to_time) }

abbrev is_other : Result UniverseSnapshot → String → Bool
is_other (err e) current_version = false
is_other (ok s) current_version = not (same s.universe_version current_version)

-- `BacktestScheduler.universe_needs_switch`
unfoldable pub universe_needs_switch : UniverseRepository → String → String → Datetime → Bool
unfolding resolve String_discrete
universe_needs_switch resolver universe_id current_version current_time =
    is_other (resolve resolver universe_id current_time true) current_version
