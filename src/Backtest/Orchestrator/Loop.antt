-- ===== src/Backtest/Orchestrator/Loop.antt =====
-- backtest/orchestrator.py: the loop over the bars, and the result of a run.
use invest_quant_system.Prelude.{
  ℕ, ◌+◌, String, Bool, false, not, ◌&&◌, ◌||◌, Option, none, some, List, [], ◌∷◌, ◌++◌,
}
use invest_quant_system.Prelude.Tests.{String_discrete, if◌then◌else◌}
use invest_quant_system.Prelude.Text.{is_empty}
use invest_quant_system.Prelude.Dict
use invest_quant_system.Prelude.Dict.{Dict, values}
use invest_quant_system.Prelude.Result.{ok}
use invest_quant_system.Contracts.Moment.{Datetime}
use invest_quant_system.Contracts.Features.{FeatureSnapshot}
use invest_quant_system.Contracts.Market.Bar.{MarketBar}
use invest_quant_system.Contracts.Signals.{SignalCandidate, SignalEvent}
use invest_quant_system.Universe.{UniverseSnapshot, same}
use invest_quant_system.MarketData.Repository.{save_bar}
use invest_quant_system.Signals.Repository.{append_signal}
use invest_quant_system.Signals.Service.{create_event}
use invest_quant_system.Features.{update_closed_bar}
use invest_quant_system.Strategies.Rules.{RuleStrategyRuntime, on_bar}
use invest_quant_system.Backtest.RunSpec.{StrategyBinding}
use invest_quant_system.Backtest.Scheduler.{advance_to_bar}
use invest_quant_system.Backtest.Partition.{
  StrategyBindingState, get_or_create, ensure_runtime, put_slot, has_slot,
}
use invest_quant_system.Backtest.Orchestrator.{
  Orchestrator, Surroundings, Action, then_with, ◌>>=◌, ◌>>◌, return, modify, each, now_of,
  resolve_universe, version_of, check_universe_changes,
}

-- `symbol in symbols`
unfoldable pub is_among : String → List String → Bool
is_among symbol [] = false
is_among symbol (s ∷ ss) = same s symbol || is_among symbol ss

-- `_symbol_in_any_universe`
unfoldable pub is_active : List StrategyBinding → String → Orchestrator → Bool
unfolding has_slot
is_active [] symbol o = false
is_active (b ∷ bs) symbol o =
    not (is_empty (version_of o b.binding_id)) && has_slot o.partition b.binding_id symbol
    || is_active bs symbol o

abbrev pub count_or : Option ℕ → ℕ
count_or none = 0
count_or (some n) = n

abbrev pub count_of : Orchestrator → String → ℕ
count_of o symbol = count_or (Dict.get String_discrete o.bars_by_symbol symbol)

-- `if self._symbol_in_any_universe(bar.symbol): …`
unfoldable pub count_bar : MarketBar → Orchestrator → Orchestrator
unfolding is_active String_discrete
count_bar bar o =
    if is_active o.spec.strategy_bindings bar.symbol o
    then record o {
      bars_by_symbol =
          Dict.put String_discrete o.bars_by_symbol bar.symbol (count_of o bar.symbol + 1);
    }
    else o

-- `snapshot.universe_version == current_universe_version`
abbrev pub is_current : Option String → String → Bool
is_current none version = false
is_current (some current) version = same version current

module _ (around : Surroundings) where
  unfoldable pub advance_clock : MarketBar → Action Datetime
  unfolding advance_to_bar
  advance_clock bar o =
      let (r, s) = advance_to_bar o.scheduler bar in (r, record o { scheduler = s })

  unfoldable pub save : MarketBar → Action (Unit {0})
  unfolding save_bar
  save bar o =
      let (r, m) = save_bar bar around.wall_now o.market in
      then_with (r, record o { market = m }) λ saved. return tt

  unfoldable pub append : SignalEvent → Action (Unit {0})
  unfolding append_signal
  append event o =
      let (r, s) = append_signal event o.signals in
      then_with (r, record o { signals = s })
        λ id. modify λ o'. record o' { signal_ids = o'.signal_ids ++ event.signal_id ∷ [] }

  -- `signal = create_event(candidate)`, and what follows it
  unfoldable pub emit : Option SignalCandidate → Action (Unit {0})
  unfolding create_event append
  emit none o = (ok tt, o)
  emit (some c) o =
      then_with (create_event around.signal_digest o.service c (around.service_now (now_of o)), o)
        append

  unfoldable pub propose : RuleStrategyRuntime → MarketBar → FeatureSnapshot → Action (Unit {0})
  unfolding on_bar emit
  propose r bar snapshot o = then_with (on_bar around.platform r bar snapshot none, o) emit

  abbrev with_slot : StrategyBinding → String → StrategyBindingState → Orchestrator → Orchestrator
  with_slot b symbol slot o = record o { partition = put_slot o.partition b.binding_id symbol slot }

  -- the slot of the binding and the symbol, its engine and its strategy
  unfoldable pub run_slot : StrategyBinding → MarketBar → Action (Unit {0})
  unfolding get_or_create ensure_runtime update_closed_bar put_slot propose
  run_slot b bar o =
      let slot = (get_or_create o.partition b.binding_id bar.symbol).0 in
      let (r, ready) = ensure_runtime slot b in
      let (snapshot, engine) =
        update_closed_bar around.platform ready.feature_engine bar (now_of o) in
      then_with (snapshot, with_slot b bar.symbol (record ready { feature_engine = engine }) o)
        (propose r bar)

  unfoldable pub process_with : StrategyBinding → MarketBar → UniverseSnapshot → Action (Unit {0})
  unfolding is_among run_slot
  process_with b bar s o =
      if is_current (Dict.get String_discrete o.universe_versions b.binding_id) s.universe_version
        && is_among bar.symbol s.symbols
      then run_slot b bar o
      else (ok tt, o)

  -- `_process_binding`
  unfoldable pub process_binding : MarketBar → Datetime → StrategyBinding → Action (Unit {0})
  unfolding process_with
  process_binding bar now b o =
      then_with (resolve_universe b.universe_id now o) (process_with b bar)

  unfoldable pub process_bindings : MarketBar → Datetime → Action (Unit {0})
  unfolding each process_binding
  process_bindings bar now o = each (process_binding bar now) o.spec.strategy_bindings o

  -- what follows the save of a bar, at the time of the clock
  unfoldable pub process_saved : MarketBar → Action (Unit {0})
  unfolding check_universe_changes count_bar process_bindings
  process_saved bar o =
      (check_universe_changes around (now_of o)
          >> (modify (count_bar bar) >> process_bindings bar (now_of o)))
        o

  -- `_process_bar`
  unfoldable pub process_bar : MarketBar → Action (Unit {0})
  unfolding advance_clock save process_saved
  process_bar bar = advance_clock bar >>= λ t. save bar >> process_saved bar
