-- ===== src/Backtest/Orchestrator/Steps.antt =====
-- Invariants of a run, by one rule for each of its steps.
use mathlib.Core.Path.{subst}
use invest_quant_system.Prelude.Dict.{Dict, set_default}
use invest_quant_system.Backtest.Orchestrator.Leads.{
  Leads, Keeps, then_with-keeps, each-Keeps, bind-Leads,
}
use invest_quant_system.Backtest.Orchestrator.Loop.{count_or}
use native.Mathlib.Nat.{add-zero, add-suc}
use invest_quant_system.Prelude.{
  ℕ, zero, suc, ◌+◌, String, ◌≡◌, false, ◌&&◌, List, [], ◌∷◌, inl, inr, arith,
}
use invest_quant_system.Prelude.Dict
use invest_quant_system.Backtest.Scheduler.{key_le, stable_sort_bars}
use invest_quant_system.Prelude.Tests.{Bool-cases, String_discrete}
use invest_quant_system.Prelude.Lists.{length, All}
use invest_quant_system.Prelude.Sort.{sort-All}
use invest_quant_system.Prelude.Result.{ok}
use invest_quant_system.Contracts.Moment.{Datetime}
use invest_quant_system.Contracts.Market.Bar.{MarketBar}
use invest_quant_system.Contracts.Features.{FeatureSnapshot}
use invest_quant_system.Prelude.Text.{is_empty}
use invest_quant_system.Universe.{UniverseSnapshot, same, resolve}
use invest_quant_system.Signals.Repository.{SignalRepository}
use invest_quant_system.Strategies.Rules.{RuleStrategyRuntime}
use invest_quant_system.Backtest.RunSpec.{StrategyBinding}
use invest_quant_system.Backtest.Orchestrator.{
  Orchestrator, Surroundings, modify, each, set_version, open_symbol, open_symbols, begin_with,
  initialize_binding, initialize, ◌>>◌, return, switch_universe, note_universe, check_universe,
  check_universe_changes, now_of, version_of,
}
use invest_quant_system.Backtest.Orchestrator.Loop.{
  is_active, is_current, is_among, count_bar, advance_clock, save, propose, run_slot, process_with,
  process_binding, process_bindings, process_saved, process_bar,
}
use invest_quant_system.Backtest.Orchestrator.Run.{build_result, run}

-- What the invariants of a run are about: the signals, their ids, and the bars that were counted.
abbrev pub Facts : Type 0
Facts = SignalRepository × List String × Dict String ℕ

abbrev pub facts : Orchestrator → Facts
facts o = (o.signals, o.signal_ids, o.bars_by_symbol)

abbrev pub counted : Facts → Dict String ℕ → Facts
counted f bars = (f.0, f.1, bars)

module _ (around : Surroundings) where
  -- `Q n`, after `n` bars: the proposals on a bar that is `In` keep it, and so does a symbol that is opened with no bars; counting
  -- a bar makes it `Q (n + 1)`, and so may a bar that is not counted.
  module _ {κ} (Q : ℕ → Facts → Type κ) (In : MarketBar → Type 0)
      (proposed : (n : ℕ) (r : RuleStrategyRuntime) (bar : MarketBar) (s : FeatureSnapshot)
        → In bar
        → Keeps (λ o. Q n (facts o)) (propose around r bar s))
      (opened : (n : ℕ) (f : Facts) (s : String)
        → Q n f
        → Q n (counted f (set_default String_discrete f.2 s 0)))
      (count : (n : ℕ) (f : Facts) (s : String)
        → Q n f
        → Q (suc n) (
            counted f
              (Dict.put String_discrete f.2 s (count_or (Dict.get String_discrete f.2 s) + 1))))
      (later : (n : ℕ) (f : Facts) → Q n f → Q (suc n) f) where
    abbrev P : ℕ → Orchestrator → Type κ
    P n o = Q n (facts o)

    open_symbols-keeps :
        (n : ℕ) (b : String) (ss : List String) (o : Orchestrator)
        → P n o
        → P n (open_symbols b ss o)
    unfolding open_symbols open_symbol
    open_symbols-keeps n b [] o p = p
    open_symbols-keeps n b (s ∷ ss) o p =
        open_symbols-keeps n b ss (open_symbol b s o) (opened n (facts o) s p)

    begin_with-keeps :
        (n : ℕ) (b : StrategyBinding) (s : UniverseSnapshot) (o : Orchestrator)
        → P n o
        → P n (begin_with b s o)
    unfolding begin_with
    begin_with-keeps n b s o p =
        open_symbols-keeps n b.binding_id s.symbols (set_version b.binding_id s.universe_version o)
          p

    note_universe-keeps :
        (n : ℕ) (b : StrategyBinding) (now : Datetime) (s : UniverseSnapshot) (o : Orchestrator)
        → P n o
        → P n (note_universe around b now s o)
    unfolding note_universe switch_universe
    note_universe-keeps n b now s o p = elim (Bool-cases (is_empty (version_of o b.binding_id))) [
      | inl e ↦ rw e p
      | inr e ↦ rw e (elim (Bool-cases (same s.universe_version (version_of o b.binding_id))) [
        | inl f ↦ rw f p
        | inr f ↦ rw f (open_symbols-keeps n b.binding_id s.symbols _ p)
      ])
    ]

    count_bar-counts :
        (n : ℕ) (bar : MarketBar) (o : Orchestrator) → P n o → P (suc n) (count_bar bar o)
    unfolding count_bar
    count_bar-counts n bar o p =
        elim (Bool-cases (is_active o.spec.strategy_bindings bar.symbol o)) [
          | inl e ↦ rw e (count n (facts o) bar.symbol p)
          | inr e ↦ rw e (later n (facts o) p)
        ]

    process_with-Keeps :
        (n : ℕ) (b : StrategyBinding) (bar : MarketBar) (s : UniverseSnapshot)
        → In bar
        → Keeps (P n) (process_with around b bar s)
    unfolding process_with run_slot
    process_with-Keeps n b bar s i o p =
        elim (Bool-cases (
          is_current (Dict.get String_discrete o.universe_versions b.binding_id) s.universe_version
          && is_among bar.symbol s.symbols)) [
            | inl e ↦
                rw e
                  (then_with-keeps (P n) _ _ (propose around _ bar) p (λ f. proposed n _ bar f i))
            | inr e ↦ rw e p
          ]

    process_bindings-Keeps :
        (n : ℕ) (bar : MarketBar) (now : Datetime)
        → In bar
        → Keeps (P n) (process_bindings around bar now)
    unfolding process_bindings process_binding
    process_bindings-Keeps n bar now i o p =
        each-Keeps (P n) (process_binding around bar now) o.spec.strategy_bindings
          (λ b o' p'.
            then_with-keeps (P n) (resolve o'.universes b.universe_id now false) o'
              (process_with around b bar) p' (λ s. process_with-Keeps n b bar s i))
          o p

    check_universe_changes-Keeps :
        (n : ℕ) (now : Datetime) → Keeps (P n) (check_universe_changes around now)
    unfolding check_universe_changes check_universe
    check_universe_changes-Keeps n now o p =
        each-Keeps (P n) (check_universe around now) o.spec.strategy_bindings
          (λ b o' p'.
            then_with-keeps (P n) (resolve o'.universes b.universe_id now false) o'
              (λ s. modify (note_universe around b now s)) p'
              (λ s o'' p''. note_universe-keeps n b now s o'' p''))
          o p

    process_saved-counts :
        (n : ℕ) (bar : MarketBar) → In bar → Leads (P n) (P (suc n)) (process_saved around bar)
    unfolding process_saved
    process_saved-counts n bar i o p =
        bind-Leads (P n) (P n) (P (suc n)) (check_universe_changes around (now_of o))
          (λ _. modify (count_bar bar) >> process_bindings around bar (now_of o))
          (check_universe_changes-Keeps n (now_of o)) (λ o'. later n (facts o'))
          (λ _.
            bind-Leads (P n) (P (suc n)) (P (suc n)) (modify (count_bar bar))
              (λ _. process_bindings around bar (now_of o)) (count_bar-counts n bar) (λ o' p'. p')
              (λ _. process_bindings-Keeps (suc n) bar (now_of o) i))
          o p

    process_bar-counts :
        (n : ℕ) (bar : MarketBar) → In bar → Leads (P n) (P (suc n)) (process_bar around bar)
    unfolding process_bar advance_clock save
    process_bar-counts n bar i =
        bind-Leads (P n) (P n) (P (suc n)) (advance_clock around bar)
          (λ t. save around bar >> process_saved around bar) (λ o p. p) (λ o. later n (facts o))
          (λ t.
            bind-Leads (P n) (P n) (P (suc n)) (save around bar) (λ _. process_saved around bar)
              (λ o p. then_with-keeps (P n) _ _ (λ _. return tt) p (λ _ o' p'. p'))
              (λ o. later n (facts o)) (λ _. process_saved-counts n bar i))

    later_by : (k n : ℕ) (f : Facts) → Q n f → Q (n + k) f
    later_by zero n f q = rw add-zero q
    later_by (suc k) n f q = rw add-suc (later (n + k) f (later_by k n f q))

    bars-count :
        (bars : List MarketBar) (n : ℕ)
        → All In bars
        → Leads (P n) (P (n + length bars)) (each (process_bar around) bars)
    unfolding each
    bars-count [] n i o p = rw add-zero p
    bars-count (b ∷ bs) n i o p =
        let all : suc n + length bs ≡ n + suc (length bs) = omega arith in
        subst (λ k. P k (each (process_bar around) (b ∷ bs) o).1) all
          (bind-Leads (P n) (P (suc n)) (P (suc n + length bs)) (process_bar around b)
            (λ _. each (process_bar around) bs) (process_bar-counts n b i.0)
            (λ o'. later_by (length bs) (suc n) (facts o')) (λ _. bars-count bs (suc n) i.1) o p)

    initialize-Keeps : (n : ℕ) → Keeps (P n) initialize
    unfolding initialize initialize_binding
    initialize-Keeps n o p =
        each-Keeps (P n) initialize_binding o.spec.strategy_bindings
          (λ b o' p'.
            then_with-keeps (P n) (resolve o'.universes b.universe_id o'.spec.from_time false) o'
              (λ s. modify (begin_with b s)) p' (λ s o'' p''. begin_with-keeps n b s o'' p''))
          o p

    -- After a run over some bars that are `In`, also one that raised, the invariant holds for as many bars as it was given.
    pub run-counts_in :
        (short : String → String) (bars : List MarketBar)
        → All In bars
        → Leads (P 0) (P (0 + length (stable_sort_bars bars))) (run around short bars)
    unfolding run stable_sort_bars
    run-counts_in short bars i =
        let ordered = stable_sort_bars bars in
        bind-Leads (P 0) (P 0) (P (0 + length ordered)) initialize
          (λ _. each (process_bar around) ordered >> λ o. (ok (build_result around short o), o))
          (initialize-Keeps 0) (λ o p. later_by (length ordered) 0 (facts o) p)
          (λ _.
            bind-Leads (P 0) (P (0 + length ordered)) (P (0 + length ordered))
              (each (process_bar around) ordered) (λ _ o. (ok (build_result around short o), o))
              (bars-count ordered 0 (sort-All key_le In bars i)) (λ o p. p) (λ _ o p. p))
