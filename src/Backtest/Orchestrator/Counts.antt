-- ===== src/Backtest/Orchestrator/Counts.antt =====
-- The bars that a run counts: no more than it was given.
use invest_quant_system.Prelude.{
  ℕ, ◌+◌, ◌≤◌, String, ◌≡◌, refl, inl, inr, none, List, [], ◌∷◌, arith,
}
use invest_quant_system.Prelude.Tests.{String_discrete, Option-cases}
use invest_quant_system.Prelude.Lists.{length}
use invest_quant_system.Prelude.Dict
use invest_quant_system.Prelude.Dict.{Dict, values, set_default}
use invest_quant_system.Prelude.Sort.{length-sort}
use invest_quant_system.Prelude.Result.{Result-cases}
use invest_quant_system.Contracts.Signals.{SignalEvent}
use invest_quant_system.Signals.Repository.{append_signal}
use invest_quant_system.Contracts.Market.Bar.{MarketBar}
use invest_quant_system.Backtest.Scheduler.{stable_sort_bars, key_le}
use invest_quant_system.Backtest.Orchestrator.{Orchestrator, Surroundings}
use invest_quant_system.Backtest.Orchestrator.Loop.{append, count_or}
use invest_quant_system.Backtest.Orchestrator.Run.{sum, build_result, run}
use invest_quant_system.Backtest.Orchestrator.Steps.{Facts, facts}
use invest_quant_system.Backtest.Orchestrator.Appends.{run-counts}

abbrev total : Dict String ℕ → ℕ
total d = sum (values d)

-- counting one more under a key
total-put :
    (d : Dict String ℕ) (s : String)
    → total (Dict.put String_discrete d s (count_or (Dict.get String_discrete d s) + 1))
      ≡ total d + 1
unfolding Dict.put Dict.get
total-put [] s = omega arith
total-put ((k, n) ∷ d) s = ground (arith, total-put d s)

total-put_new :
    (d : Dict String ℕ) (s : String)
    → Dict.get String_discrete d s ≡ none
    → total (Dict.put String_discrete d s 0) ≡ total d
unfolding Dict.put Dict.get
total-put_new [] s h = omega arith
total-put_new ((k, n) ∷ d) s h = ground (arith, total-put_new d s)

total-set_default :
    (d : Dict String ℕ) (s : String) → total (set_default String_discrete d s 0) ≡ total d
unfolding set_default
total-set_default d s = elim (Option-cases (Dict.get String_discrete d s)) [
  | inl e ↦ rw e (omega (arith, total-put_new d s e))
  | inr (n, e) ↦ rw e refl
]

append-bars :
    (around : Surroundings) (event : SignalEvent) (o : Orchestrator) (n : ℕ)
    → total o.bars_by_symbol ≤ n
    → total (append around event o).1.bars_by_symbol ≤ n
unfolding append
append-bars around event o n h = elim (Result-cases (append_signal event o.signals).0) [
  | inl (id, e) ↦ rw e h
  | inr (x, e) ↦ rw e h
]

abbrev AtMost : ℕ → Facts → Type 0
AtMost n f = total f.2 ≤ n

-- A run that starts with no bars counted, over whatever bars and also if it raises, has counted in all at
-- most as many as it was given.
pub total_bars-le :
    (around : Surroundings) (short : String → String) (bars : List MarketBar) (o : Orchestrator)
    → o.bars_by_symbol ≡ []
    → (build_result around short (run around short bars o).1).total_bars ≤ length bars
unfolding build_result stable_sort_bars
total_bars-le around short bars o none_yet =
    let start : AtMost 0 (facts o) = rw none_yet (omega arith) in
    let counted =
      run-counts around AtMost (λ n event o' h. append-bars around event o' n h)
        (λ n f s h. omega (arith, total-set_default f.2 s, h))
        (λ n f s h. omega (arith, total-put f.2 s, h)) (λ n f h. omega (arith, h)) short bars o
        start in
    omega (arith, counted, length-sort key_le bars)
