-- ===== src/Backtest/Orchestrator.antt =====
-- backtest/orchestrator.py: the state of a run, its initialisation and the changes of its universes.
-- A method is a function from the orchestrator to what it returned or raised, with the orchestrator
-- that it leaves. `resolve` never returns None, so the branches for it are left out.
pub mod Loop
pub mod Run
pub mod Leads
pub mod Steps
pub mod Appends
pub mod Tracked
pub mod Counts
pub mod Slots
pub mod Unseen
pub mod Early
pub mod Switch
use invest_quant_system.Prelude.{
  ℕ, String, Bool, true, false, not, ◌&&◌, Option, none, some, List, [], ◌∷◌, ◌++◌,
}
use invest_quant_system.Prelude.Tests.{String_discrete, if◌then◌else◌}
use invest_quant_system.Prelude.Decimal.{Decimal}
use invest_quant_system.Prelude.Text.{is_empty, text_append}
use invest_quant_system.Prelude.Dict
use invest_quant_system.Prelude.Dict.{Dict}
use invest_quant_system.Prelude.Result.{Result, ok, err}
use invest_quant_system.Contracts.Moment.{Datetime}
use invest_quant_system.Universe.{UniverseRepository, UniverseSnapshot, same, resolve}
use invest_quant_system.MarketData.Repository.{MarketRepository}
use invest_quant_system.Signals.Repository.{SignalRepository}
use invest_quant_system.Signals.Service.{SignalService, SignalPayload}
use invest_quant_system.Features.{Platform}
use invest_quant_system.Backtest.RunSpec.{StrategyBinding, BacktestRunSpec, RunParts}
use invest_quant_system.Backtest.Warnings.{RunWarning, new_warning}
use invest_quant_system.Backtest.Scheduler.{BacktestScheduler}
use invest_quant_system.Backtest.Partition.{StatePartition, get_or_create}

-- `UniverseChangeEvent`
pub record UniverseChangeEvent : Type 0 where
  pub universe_id : String
  pub previous_version : String
  pub new_version : String
  pub change_count : ℕ

pub record Orchestrator : Type 0 where
  pub spec : BacktestRunSpec
  pub universes : UniverseRepository
  pub market : MarketRepository
  pub service : SignalService
  pub signals : SignalRepository
  pub scheduler : BacktestScheduler
  pub partition : StatePartition
  pub universe_versions : Dict String String
  pub warnings : List RunWarning
  pub universe_changes : List UniverseChangeEvent
  pub bars_by_symbol : Dict String ℕ
  pub signal_ids : List String
  pub signals_rejected : ℕ

-- What a run takes from outside: the standard library, the digests of a signal and of a spec, what
-- the clock of the signal service answers at a time of the run's clock, and the wall clock.
pub record Surroundings : Type 0 where
  pub platform : Platform
  pub signal_digest : SignalPayload → String
  pub spec_digest : RunParts → String
  pub service_now : Datetime → Datetime
  pub wall_now : Datetime

abbrev pub Action : Type 0 → Type 0
Action A = Orchestrator → Result A × Orchestrator

-- on with what a call returned and left, unless it raised
abbrev pub then_with :
    {A B : Type 0} → Result A × Orchestrator → (A → Action B) → Result B × Orchestrator
then_with (err e, o) next = (err e, o)
then_with (ok a, o) next = next a o

infixl 5 ◌>>=◌ ◌>>◌
abbrev pub ◌>>=◌ : {A B : Type 0} → Action A → (A → Action B) → Action B
◌>>=◌ m next o = then_with (m o) next

abbrev pub ◌>>◌ : {B : Type 0} → Action (Unit {0}) → Action B → Action B
m >> rest = m >>= λ _. rest

abbrev pub return : {A : Type 0} → A → Action A
return a o = (ok a, o)

-- a change of the orchestrator that cannot raise
abbrev pub modify : (Orchestrator → Orchestrator) → Action (Unit {0})
modify f o = (ok tt, f o)

-- `for x in xs: …`
unfoldable pub each : {A : Type 0} → (A → Action (Unit {0})) → List A → Action (Unit {0})
each body [] = return tt
each body (x ∷ xs) = body x >> each body xs

abbrev pub now_of : Orchestrator → Datetime
now_of o = o.scheduler.clock.current_time

-- `resolve(…, require_strict=False)`
abbrev pub resolve_universe : String → Datetime → Action UniverseSnapshot
resolve_universe id at_time o = (resolve o.universes id at_time false, o)

-- `_universe_versions.get(binding_id, "")`
abbrev pub text_or : Option String → String
text_or none = ""
text_or (some s) = s

abbrev pub version_of : Orchestrator → String → String
version_of o binding_id = text_or (Dict.get String_discrete o.universe_versions binding_id)

abbrev pub set_version : String → String → Orchestrator → Orchestrator
set_version binding_id version o = record o {
  universe_versions = Dict.put String_discrete o.universe_versions binding_id version;
}

-- `get_or_create` for the symbol, and a count of no bars for a symbol that has none
unfoldable pub open_symbol : String → String → Orchestrator → Orchestrator
unfolding get_or_create String_discrete
open_symbol binding_id symbol o = record o {
  partition = (get_or_create o.partition binding_id symbol).1;
  bars_by_symbol = Dict.set_default String_discrete o.bars_by_symbol symbol 0;
}

unfoldable pub open_symbols : String → List String → Orchestrator → Orchestrator
unfolding open_symbol
open_symbols binding_id [] o = o
open_symbols binding_id (s ∷ ss) o = open_symbols binding_id ss (open_symbol binding_id s o)

-- `_initialize_binding`, behind `resolve`
unfoldable pub begin_with : StrategyBinding → UniverseSnapshot → Orchestrator → Orchestrator
unfolding open_symbols
begin_with b s o =
    open_symbols b.binding_id s.symbols (set_version b.binding_id s.universe_version o)

unfoldable pub initialize_binding : StrategyBinding → Action (Unit {0})
unfolding begin_with
initialize_binding b o =
    then_with (resolve_universe b.universe_id o.spec.from_time o) λ s. modify (begin_with b s)

-- `_initialize`
unfoldable pub initialize : Action (Unit {0})
unfolding each initialize_binding
initialize o = each initialize_binding o.spec.strategy_bindings o

module _ (around : Surroundings) where
  abbrev change_warning : StrategyBinding → String → UniverseSnapshot → Datetime → RunWarning
  change_warning b prev s now =
      new_warning "UNIVERSE_CHANGE" "info"
        (text_append "universe " (
          text_append b.universe_id (
            text_append " changed from " (
              text_append prev (
                text_append " to " (
                  text_append s.universe_version
                    (text_append " at " (around.platform.isoformat now))))))))
        s.symbols

  -- a universe that changed: the event, the warning, the version, and the slots of its symbols
  unfoldable pub switch_universe :
      StrategyBinding → String → UniverseSnapshot → Datetime → Orchestrator → Orchestrator
  unfolding open_symbols
  switch_universe b prev s now o = open_symbols b.binding_id s.symbols (
      set_version b.binding_id s.universe_version (record o {
        universe_changes =
            o.universe_changes
            ++ record {
              universe_id = b.universe_id;
              previous_version = prev;
              new_version = s.universe_version;
              change_count = 1;
            }
              ∷ [];
        warnings = o.warnings ++ change_warning b prev s now ∷ [];
      }))

  unfoldable pub note_universe :
      StrategyBinding → Datetime → UniverseSnapshot → Orchestrator → Orchestrator
  unfolding switch_universe
  note_universe b now s o =
      let prev = version_of o b.binding_id in
      if is_empty prev
      then set_version b.binding_id s.universe_version o
      else if same s.universe_version prev
      then o
      else switch_universe b prev s now o

  unfoldable pub check_universe : Datetime → StrategyBinding → Action (Unit {0})
  unfolding note_universe
  check_universe now b o =
      then_with (resolve_universe b.universe_id now o) λ s. modify (note_universe b now s)

  -- `_check_universe_changes`
  unfoldable pub check_universe_changes : Datetime → Action (Unit {0})
  unfolding each check_universe
  check_universe_changes now o = each (check_universe now) o.spec.strategy_bindings o
