-- ===== src/Backtest/Orchestrator/Unseen.antt =====
-- What the initialisation makes of a universe that is not visible yet, and what the loop makes of a
-- signal service whose clock is behind that of the run.
use invest_quant_system.Prelude.{
  String, ◌≡◌, ◌<◌, refl, ap, ◌∙◌, true, false, inl, inr, none, some, List, [], ◌∷◌, arith,
}
use invest_quant_system.Prelude.Tests.{Option-cases, String_discrete}
use invest_quant_system.Prelude.Lists.{last?, All}
use invest_quant_system.Prelude.Dict
use invest_quant_system.Prelude.Dict.{
  Dict, is_some, get-put_self, set_default-keeps, set_default-present,
}
use invest_quant_system.Prelude.Result.{ok, is_ok, Result-cases}
use invest_quant_system.Contracts.Signals.{SignalCandidate, SignalEvent}
use invest_quant_system.Universe.{UniverseSnapshot, latest_visible, get_by_id, resolve, unseen}
use invest_quant_system.Signals.Service.{create_event, event_of}
use invest_quant_system.Signals.Service.Events.{create_event-IsEventOf}
use invest_quant_system.Backtest.RunSpec.{StrategyBinding}
use invest_quant_system.Backtest.Partition.{SlotKey_discrete, new_slot, get_or_create, has_slot}
use invest_quant_system.Backtest.Orchestrator.{
  Orchestrator, Surroundings, text_or, now_of, version_of, set_version, open_symbol, open_symbols,
  begin_with, initialize_binding,
}
use invest_quant_system.Backtest.Orchestrator.Loop.{emit}

pub open_symbols-version :
    (b : String) (ss : List String) (o : Orchestrator)
    → (open_symbols b ss o).universe_versions ≡ o.universe_versions
unfolding open_symbols open_symbol
open_symbols-version b [] o = refl
open_symbols-version b (s ∷ ss) o = open_symbols-version b ss (open_symbol b s o)

-- A slot that is there stays, and every symbol that is opened has one.
open_symbol-keeps :
    (b : String) (s : String) (c y : String) (o : Orchestrator)
    → has_slot o.partition c y ≡ true
    → has_slot (open_symbol b s o).partition c y ≡ true
unfolding open_symbol get_or_create has_slot
open_symbol-keeps b s c y o h =
    elim (Option-cases (Dict.get SlotKey_discrete o.partition.slots (c, y))) [
      | inl e ↦ cc (rw e at h)
      | inr (slot, e) ↦
          ap is_some (
            set_default-keeps SlotKey_discrete o.partition.slots (b, s) (c, y) (new_slot b s) slot
              e)
    ]

open_symbol-opens :
    (b s : String) (o : Orchestrator) → has_slot (open_symbol b s o).partition b s ≡ true
unfolding open_symbol get_or_create has_slot
open_symbol-opens b s o =
    ap is_some (set_default-present SlotKey_discrete o.partition.slots (b, s) (new_slot b s)).1

open_symbols-keeps :
    (b : String) (ss : List String) (c y : String) (o : Orchestrator)
    → has_slot o.partition c y ≡ true
    → has_slot (open_symbols b ss o).partition c y ≡ true
unfolding open_symbols
open_symbols-keeps b [] c y o h = h
open_symbols-keeps b (s ∷ ss) c y o h =
    open_symbols-keeps b ss c y (open_symbol b s o) (open_symbol-keeps b s c y o h)

pub open_symbols-opens :
    (b : String) (ss : List String) (o : Orchestrator)
    → All (λ y. has_slot (open_symbols b ss o).partition b y ≡ true) ss
unfolding open_symbols
open_symbols-opens b [] o = tt
open_symbols-opens b (s ∷ ss) o = (
  open_symbols-keeps b ss b s (open_symbol b s o) (open_symbol-opens b s o),
  open_symbols-opens b ss (open_symbol b s o),
)

-- If no version of the universe of a binding is visible at the start of the run, the binding begins with the
-- version that takes effect last of those that are stored, raises nothing, and has a slot for each of its symbols.
unseen_universe_begins :
    (b : StrategyBinding) (o : Orchestrator) (s : UniverseSnapshot)
    → latest_visible o.universes b.universe_id o.spec.from_time ≡ ok none
    → last? (get_by_id o.universes b.universe_id) ≡ some s
    → let o' = (initialize_binding b o).1 in
      ((initialize_binding b o).0 ≡ ok tt)
      × (version_of o' b.binding_id ≡ s.universe_version)
      × All (λ y. has_slot o'.partition b.binding_id y ≡ true) s.symbols
unfolding initialize_binding begin_with resolve unseen
unseen_universe_begins b o s h l =
    let begun = set_version b.binding_id s.universe_version o in
    rw (h, l)
      (
        refl,
        ap (λ (d : Dict String String). text_or (Dict.get String_discrete d b.binding_id))
              (open_symbols-version b.binding_id s.symbols begun)
            ∙ ap text_or
                (get-put_self String_discrete o.universe_versions b.binding_id s.universe_version),
        open_symbols-opens b.binding_id s.symbols begun,
      )

-- If the clock of the signal service is behind the bar of a candidate, one `emit` of the candidate raises and
-- leaves the orchestrator as it was.
pub early_service_raises :
    (around : Surroundings) (c : SignalCandidate) (o : Orchestrator)
    → (around.service_now (now_of o)).instant < c.market_data_time.instant
    → (is_ok (emit around (some c) o).0 ≡ false) × ((emit around (some c) o).1 ≡ o)
unfolding emit event_of
early_service_raises around c o h =
    elim (Result-cases
      (create_event around.signal_digest o.service c (around.service_now (now_of o)))) [
        | inr (x, e) ↦ rw e (refl, refl)
        | inl (event, e) ↦
            let made =
              create_event-IsEventOf around.signal_digest o.service c
                (around.service_now (now_of o)) event e in
            let late = made.sound.data_before_event in
            absurd (
              omega (
                arith,
                h,
                late,
                ap (λ (s : SignalEvent). s.market_data_time.instant) made.built,
                ap (λ (s : SignalEvent). s.event_time.instant) made.built,
              ))
      ]
