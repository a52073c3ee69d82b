-- ===== src/Backtest/Orchestrator/Tracked.antt =====
-- The signals of a run: what was stored before stays, and what is counted is stored.
use invest_quant_system.Prelude.{String, ◌≡◌, some, List, [], ◌∷◌, inl, inr}
use invest_quant_system.Prelude.Lists.{All, All-append, All-map}
use invest_quant_system.Prelude.Result.{Result-cases}
use invest_quant_system.Contracts.Market.Bar.{MarketBar}
use invest_quant_system.Contracts.Signals.{SignalEvent}
use invest_quant_system.Signals.Repository.{append_signal, SignalRepository}
use invest_quant_system.Signals.Repository.AppendOnly.{
  stored, append_signal-keeps, append_signal_again,
}
use invest_quant_system.Backtest.Orchestrator.{Orchestrator, Surroundings}
use invest_quant_system.Backtest.Orchestrator.Loop.{append}
use invest_quant_system.Backtest.Orchestrator.Run.{run}
use invest_quant_system.Backtest.Orchestrator.Leads.{Keeps}
use invest_quant_system.Backtest.Orchestrator.Steps.{Facts, facts}
use invest_quant_system.Backtest.Orchestrator.Appends.{run-counts}

module _ (around : Surroundings) where
  -- What a run leaves of the signals that were stored before it, and of its own.
  pub record IsTracked (before : SignalRepository) (now : Facts) : Type 0 where
    pub kept :
        (id : String) (e : SignalEvent) → stored before id ≡ some e → stored now.0 id ≡ some e
    pub recorded : All (λ id. (e : SignalEvent) × (stored now.0 id ≡ some e)) now.1

  append-IsTracked :
      (before : SignalRepository) (event : SignalEvent)
      → Keeps (λ o. IsTracked before (facts o)) (append around event)
  unfolding append
  append-IsTracked before event o h =
      let r = (append_signal event o.signals).1 in
      let keeps = λ (id : String) (e : SignalEvent) (p : stored o.signals id ≡ some e).
        append_signal-keeps event o.signals id e p in
      let ids : All (λ id. (e : SignalEvent) × (stored r id ≡ some e)) o.signal_ids =
        All-map (λ id. (e : SignalEvent) × (stored o.signals id ≡ some e))
          (λ id. (e : SignalEvent) × (stored r id ≡ some e)) (λ id p. (p.0, keeps id p.0 p.1))
          o.signal_ids h.recorded in
      elim (Result-cases (append_signal event o.signals).0) [
        | inr (x, e) ↦
            rw e (record { kept = λ id old p. keeps id old (h.kept id old p); recorded = ids })
        | inl (id, e) ↦ rw e (record {
          kept = λ k old p. keeps k old (h.kept k old p);
          recorded =
              All-append (λ k. (ev : SignalEvent) × (stored r k ≡ some ev)) o.signal_ids
                (event.signal_id ∷ []) ids
                ((event, (append_signal_again event o.signals id e).0), tt);
        })
      ]

  -- If an orchestrator has listed no signal id, then whatever the bars, and also when the run raises: every
  -- signal that was stored before the run still is, as it was, and every id that the run has listed is that
  -- of a stored signal.
  pub run-IsTracked :
      (short : String → String) (bars : List MarketBar) (o : Orchestrator)
      → o.signal_ids ≡ []
      → IsTracked o.signals (facts (run around short bars o).1)
  run-IsTracked short bars o none_yet =
      run-counts around (λ n. IsTracked o.signals) (λ n. append-IsTracked o.signals)
        (λ n f s h. record { kept = h.kept; recorded = h.recorded })
        (λ n f s h. record { kept = h.kept; recorded = h.recorded }) (λ n f h. h) short bars o
        (record { kept = λ id e p. p; recorded = rw none_yet tt })
