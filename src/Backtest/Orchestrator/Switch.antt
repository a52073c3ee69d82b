-- ===== src/Backtest/Orchestrator/Switch.antt =====
-- The changes of a universe: what the orchestrator does of its own accord, and the scheduler's test.
use invest_quant_system.Prelude.{
  String, ◌≡◌, refl, ap, ◌∙◌, true, false, ◌++◌, Option, none, some, List, [], ◌∷◌, inl, inr,
}
use invest_quant_system.Prelude.Tests.{Bool-cases, String_discrete}
use invest_quant_system.Prelude.Lists.{All}
use invest_quant_system.Prelude.Dict
use invest_quant_system.Prelude.Dict.{Dict, get-put_self}
use invest_quant_system.Prelude.Text.{is_empty}
use invest_quant_system.Prelude.Result.{ok, bind-ok}
use invest_quant_system.Contracts.Moment.{Datetime}
use invest_quant_system.Universe.{
  UniverseRepository, UniverseSnapshot, same, resolve, latest_visible, unseen, seen_or, get_by_id,
}
use invest_quant_system.Backtest.RunSpec.{StrategyBinding}
use invest_quant_system.Backtest.Partition.{has_slot}
use invest_quant_system.Backtest.Orchestrator.Unseen.{open_symbols-version, open_symbols-opens}
use invest_quant_system.Backtest.Warnings.{universe_needs_switch}
use invest_quant_system.Backtest.Orchestrator.{
  Orchestrator, Surroundings, version_of, open_symbol, open_symbols, text_or, switch_universe,
  note_universe, check_universe,
}

seen-strict :
    (o : Option UniverseSnapshot) (versions : List UniverseSnapshot) (s : UniverseSnapshot)
    → seen_or o (unseen true versions) ≡ ok s
    → seen_or o (unseen false versions) ≡ ok s
unfolding unseen
seen-strict none versions s h = cc
seen-strict (some t) versions s h = h

resolve-lenient :
    (r : UniverseRepository) (id : String) (at_time : Datetime) (s : UniverseSnapshot)
    → resolve r id at_time true ≡ ok s
    → resolve r id at_time false ≡ ok s
unfolding resolve
resolve-lenient r id at_time s h =
    let (seen, found, h') = bind-ok (latest_visible r id at_time) _ s h in
    rw found (seen-strict seen (get_by_id r id) s h')

open_symbols-changes :
    (b : String) (ss : List String) (o : Orchestrator)
    → (open_symbols b ss o).universe_changes ≡ o.universe_changes
unfolding open_symbols open_symbol
open_symbols-changes b [] o = refl
open_symbols-changes b (s ∷ ss) o = open_symbols-changes b ss (open_symbol b s o)

module _ (around : Surroundings) where
  -- What a change of universe leaves: one more event, the new version, and a slot for each of its symbols.
  pub record IsSwitched (b : StrategyBinding) (s : UniverseSnapshot) (o o' : Orchestrator)
      : Type 0 where
    pub changes :
        o'.universe_changes
        ≡ o.universe_changes
          ++ record {
            universe_id = b.universe_id;
            previous_version = version_of o b.binding_id;
            new_version = s.universe_version;
            change_count = 1;
          }
            ∷ []
    pub version : version_of o' b.binding_id ≡ s.universe_version
    pub slots : All (λ y. has_slot o'.partition b.binding_id y ≡ true) s.symbols

  switch_universe-IsSwitched :
      (b : StrategyBinding) (now : Datetime) (s : UniverseSnapshot) (o : Orchestrator)
      → IsSwitched b s o (switch_universe around b (version_of o b.binding_id) s now o)
  unfolding switch_universe
  switch_universe-IsSwitched b now s o = record {
    changes = open_symbols-changes b.binding_id s.symbols _;
    version =
        ap (λ (d : Dict String String). text_or (Dict.get String_discrete d b.binding_id))
          (open_symbols-version b.binding_id s.symbols _)
        ∙ ap text_or
            (get-put_self String_discrete o.universe_versions b.binding_id s.universe_version);
    slots = open_symbols-opens b.binding_id s.symbols _;
  }

  -- If a version of the universe of a binding is visible and the binding has a version, then the check of the
  -- orchestrator raises nothing; it switches to the visible version where the scheduler's test says that a switch
  -- is needed, and where the test says no it changes nothing.
  pub check_universe-agrees :
      (b : StrategyBinding) (now : Datetime) (s : UniverseSnapshot) (o : Orchestrator)
      → resolve o.universes b.universe_id now true ≡ ok s
      → is_empty (version_of o b.binding_id) ≡ false
      → let needed =
          universe_needs_switch o.universes b.universe_id (version_of o b.binding_id) now in
        ((check_universe around now b o).0 ≡ ok tt)
        × (needed ≡ true → IsSwitched b s o (check_universe around now b o).1)
        × (needed ≡ false → (check_universe around now b o).1 ≡ o)
  unfolding check_universe note_universe universe_needs_switch
  check_universe-agrees b now s o h e = rw h (
      rw (resolve-lenient o.universes b.universe_id now s h) (
        rw e (elim (Bool-cases (same s.universe_version (version_of o b.binding_id))) [
          | inl q ↦ rw q (refl, λ c. cc, λ c. refl)
          | inr q ↦ rw q (refl, λ c. switch_universe-IsSwitched b now s o, λ c. cc)
        ])))
