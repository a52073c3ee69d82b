-- ===== src/Backtest/Orchestrator/Early.antt =====
-- A run whose signal service has a clock that is behind the bars, as the one of the command line, which
-- stands at the start of the run.
use mathlib.Core.Path.{subst}
use invest_quant_system.Prelude.{String, ◌≡◌, ◌<◌, refl, sym, ap, Option, none, some, List, arith}
use invest_quant_system.Prelude.Lists.{All}
use invest_quant_system.Prelude.Result.{Result, ok, err}
use invest_quant_system.Contracts.Moment.{Datetime}
use invest_quant_system.Contracts.Market.Bar.{MarketBar}
use invest_quant_system.Contracts.Features.{FeatureSnapshot}
use invest_quant_system.Contracts.Signals.{SignalCandidate}
use invest_quant_system.Strategies.Rules.{RuleStrategyRuntime, on_bar}
use invest_quant_system.Strategies.Rules.Proposals.{on_bar-time}
use invest_quant_system.Backtest.Orchestrator.{Orchestrator, Surroundings, then_with, now_of}
use invest_quant_system.Backtest.Orchestrator.Loop.{emit, propose}
use invest_quant_system.Backtest.Orchestrator.Run.{run}
use invest_quant_system.Backtest.Orchestrator.Steps.{run-counts_in}
use invest_quant_system.Backtest.Orchestrator.Unseen.{early_service_raises}

module _ (around : Surroundings) where
  -- The service's clock never comes up to the bar.
  abbrev pub IsAhead : MarketBar → Type 0
  IsAhead bar = (t : Datetime) → (around.service_now t).instant < bar.market_data_time.instant

  proposed_left :
      (bar : MarketBar) (m : Result (Option SignalCandidate)) (o : Orchestrator)
      → IsAhead bar
      → ((c : SignalCandidate) → m ≡ ok (some c) → c.market_data_time ≡ bar.market_data_time)
      → (then_with (m, o) (emit around)).1 ≡ o
  unfolding emit
  proposed_left bar (err e) o ahead at = refl
  proposed_left bar (ok none) o ahead at = refl
  proposed_left bar (ok (some c)) o ahead at =
      let later : (around.service_now (now_of o)).instant < c.market_data_time.instant =
        omega (arith, ahead (now_of o), ap (λ (t : Datetime). t.instant) (at c refl)) in
      (early_service_raises around c o later).1

  propose_left :
      (r : RuleStrategyRuntime) (bar : MarketBar) (s : FeatureSnapshot) (o : Orchestrator)
      → IsAhead bar
      → (propose around r bar s o).1 ≡ o
  unfolding propose
  propose_left r bar s o ahead =
      proposed_left bar (on_bar around.platform r bar s none) o ahead
        (λ c e. on_bar-time around.platform r bar s none c e)

  -- If the signal service's clock is before the time of every bar, whatever the clock of the run, then the
  -- run, whether it returns or raises, leaves the stored signals and the listed ids as they were.
  pub early_run_records_nothing :
      (short : String → String) (bars : List MarketBar) (o : Orchestrator)
      → All IsAhead bars
      → let o' = (run around short bars o).1 in
        (o'.signals ≡ o.signals) × (o'.signal_ids ≡ o.signal_ids)
  early_run_records_nothing short bars o ahead =
      run-counts_in around (λ n f. (f.0 ≡ o.signals) × (f.1 ≡ o.signal_ids)) IsAhead
        (λ n r bar s i p same.
          subst (λ p'. (p'.signals ≡ o.signals) × (p'.signal_ids ≡ o.signal_ids))
            (sym (propose_left r bar s p i)) same)
        (λ n f s h. h) (λ n f s h. h) (λ n f h. h) short bars ahead o (refl, refl)
