-- ===== src/Backtest/Orchestrator/Slots.antt =====
-- Isolation: what one binding does with a bar leaves the slots of all other bindings and symbols.
use invest_quant_system.Prelude.{
  String, ◌≡◌, ◌≢◌, refl, ap, ◌∙◌, false, ◌&&◌, inl, inr, Option, none, some,
}
use invest_quant_system.Prelude.Tests.{Bool-cases, String_discrete}
use invest_quant_system.Prelude.Dict
use invest_quant_system.Prelude.Dict.{get-put_ne}
use invest_quant_system.Prelude.Result.{Result-cases}
use invest_quant_system.Contracts.Moment.{Datetime}
use invest_quant_system.Contracts.Market.Bar.{MarketBar}
use invest_quant_system.Contracts.Features.{FeatureSnapshot}
use invest_quant_system.Contracts.Signals.{SignalCandidate, SignalEvent}
use invest_quant_system.Universe.{UniverseSnapshot, resolve}
use invest_quant_system.Signals.Repository.{append_signal}
use invest_quant_system.Signals.Service.{create_event}
use invest_quant_system.Strategies.Rules.{RuleStrategyRuntime, on_bar}
use invest_quant_system.Backtest.RunSpec.{StrategyBinding}
use invest_quant_system.Backtest.Partition.{
  StatePartition, StrategyBindingState, SlotKey, SlotKey_discrete, get_slot, put_slot,
}
use invest_quant_system.Backtest.Orchestrator.{Orchestrator, Surroundings, now_of}
use invest_quant_system.Backtest.Orchestrator.Loop.{
  is_current, is_among, append, emit, propose, run_slot, process_with, process_binding,
}
use invest_quant_system.Backtest.Orchestrator.Leads.{Keeps, then_with-keeps}

put_slot-others :
    (p : StatePartition) (b s : String) (slot : StrategyBindingState) (k : SlotKey)
    → (b, s) ≢ k
    → get_slot (put_slot p b s slot) k.0 k.1 ≡ get_slot p k.0 k.1
unfolding get_slot put_slot
put_slot-others p b s slot k n = get-put_ne SlotKey_discrete p.slots (b, s) k slot n

module _ (around : Surroundings) (p : StatePartition) where
  abbrev Has : Orchestrator → Type 0
  Has o = o.partition ≡ p

  append-Has : (event : SignalEvent) → Keeps Has (append around event)
  unfolding append
  append-Has event o h = elim (Result-cases (append_signal event o.signals).0) [
    | inl (id, e) ↦ rw e h
    | inr (x, e) ↦ rw e h
  ]

  emit-Has : (c : Option SignalCandidate) → Keeps Has (emit around c)
  unfolding emit
  emit-Has none o h = h
  emit-Has (some c) o h =
      then_with-keeps Has
        (create_event around.signal_digest o.service c (around.service_now (now_of o))) o
        (append around) h append-Has

  propose-Has :
      (r : RuleStrategyRuntime) (bar : MarketBar) (s : FeatureSnapshot)
      → Keeps Has (propose around r bar s)
  unfolding propose
  propose-Has r bar s o h =
      then_with-keeps Has (on_bar around.platform r bar s none) o (emit around) h emit-Has

module _ (around : Surroundings) (bar : MarketBar) (b : StrategyBinding) (k : SlotKey)
    (other : (b.binding_id, bar.symbol) ≢ k) where
  abbrev Same : StatePartition → Orchestrator → Type 0
  Same p o = get_slot o.partition k.0 k.1 ≡ get_slot p k.0 k.1

  run_slot-others : (o : Orchestrator) → Same o.partition (run_slot around b bar o).1
  unfolding run_slot
  run_slot-others o =
      ap (λ (p : StatePartition). get_slot p k.0 k.1)
        (then_with-keeps (Has around _) _ _ (propose around _ bar) refl
          (propose-Has around _ _ bar))
      ∙ put_slot-others o.partition b.binding_id bar.symbol _ k other

  process_with-others :
      (s : UniverseSnapshot) (o : Orchestrator) → Same o.partition (process_with around b bar s o).1
  unfolding process_with
  process_with-others s o =
      elim (Bool-cases (
        is_current (Dict.get String_discrete o.universe_versions b.binding_id) s.universe_version
        && is_among bar.symbol s.symbols)) [ inl e ↦ rw e (run_slot-others o) | inr e ↦ rw e refl ]

  -- What a binding does with a bar, whether it returns or raises, leaves every slot but that of the binding
  -- and the symbol of the bar.
  pub process_binding-others :
      (now : Datetime) (o : Orchestrator)
      → get_slot (process_binding around bar now b o).1.partition k.0 k.1
        ≡ get_slot o.partition k.0 k.1
  unfolding process_binding
  process_binding-others now o = elim (Result-cases (resolve o.universes b.universe_id now false)) [
    | inl (s, e) ↦ rw e (process_with-others s o)
    | inr (x, e) ↦ rw e refl
  ]
