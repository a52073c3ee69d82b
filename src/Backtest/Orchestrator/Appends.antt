-- ===== src/Backtest/Orchestrator/Appends.antt =====
-- Invariants of a run that every append of a signal keeps.
use invest_quant_system.Prelude.{ℕ, suc, ◌+◌, String, Option, none, some, List, [], ◌∷◌}
use invest_quant_system.Prelude.Dict
use invest_quant_system.Prelude.Dict.{set_default}
use invest_quant_system.Prelude.Tests.{String_discrete}
use invest_quant_system.Prelude.Lists.{length, All}
use invest_quant_system.Contracts.Market.Bar.{MarketBar}
use invest_quant_system.Contracts.Features.{FeatureSnapshot}
use invest_quant_system.Contracts.Signals.{SignalEvent, SignalCandidate}
use invest_quant_system.Signals.Service.{create_event}
use invest_quant_system.Strategies.Rules.{RuleStrategyRuntime, on_bar}
use invest_quant_system.Backtest.Scheduler.{stable_sort_bars}
use invest_quant_system.Backtest.Orchestrator.{Orchestrator, Surroundings, now_of}
use invest_quant_system.Backtest.Orchestrator.Leads.{Leads, Keeps, then_with-keeps}
use invest_quant_system.Backtest.Orchestrator.Loop.{append, emit, propose, count_or}
use invest_quant_system.Backtest.Orchestrator.Run.{run}
use invest_quant_system.Backtest.Orchestrator.Steps.{Facts, facts, counted, run-counts_in}

any_bars : (bars : List MarketBar) → All (λ bar. Unit {0}) bars
any_bars [] = tt
any_bars (bar ∷ bars) = (tt, any_bars bars)

module _ (around : Surroundings) where
  module _ {κ} (P : Orchestrator → Type κ)
      (kept : (event : SignalEvent) → Keeps P (append around event)) where
    emit-Keeps : (c : Option SignalCandidate) → Keeps P (emit around c)
    unfolding emit
    emit-Keeps none o p = p
    emit-Keeps (some c) o p =
        then_with-keeps P
          (create_event around.signal_digest o.service c (around.service_now (now_of o))) o
          (append around) p kept

    propose-Keeps :
        (r : RuleStrategyRuntime) (bar : MarketBar) (s : FeatureSnapshot)
        → Keeps P (propose around r bar s)
    unfolding propose
    propose-Keeps r bar s o p =
        then_with-keeps P (on_bar around.platform r bar s none) o (emit around) p emit-Keeps

  module _ {κ} (Q : ℕ → Facts → Type κ)
      (kept : (n : ℕ) (event : SignalEvent) → Keeps (λ o. Q n (facts o)) (append around event))
      (opened : (n : ℕ) (f : Facts) (s : String)
        → Q n f
        → Q n (counted f (set_default String_discrete f.2 s 0)))
      (count : (n : ℕ) (f : Facts) (s : String)
        → Q n f
        → Q (suc n) (
            counted f
              (Dict.put String_discrete f.2 s (count_or (Dict.get String_discrete f.2 s) + 1))))
      (later : (n : ℕ) (f : Facts) → Q n f → Q (suc n) f) where
    -- After a run over any bars, also one that raised, the invariant holds for as many bars as it was given.
    pub run-counts :
        (short : String → String) (bars : List MarketBar)
        → Leads
            (λ o. Q 0 (facts o))
            (λ o. Q (0 + length (stable_sort_bars bars)) (facts o))
            (run around short bars)
    run-counts short bars =
        run-counts_in around Q (λ bar. Unit {0})
          (λ n r bar s i. propose-Keeps (λ o. Q n (facts o)) (kept n) r bar s) opened count later
          short bars (any_bars bars)
