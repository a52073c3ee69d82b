-- ===== src/Backtest/Orchestrator/Run.antt =====
-- backtest/orchestrator.py and backtest/result.py: a run from its bars to its result.
use invest_quant_system.Prelude.{ℕ, ◌+◌, String, Bool, List, [], ◌∷◌}
use invest_quant_system.Prelude.Tests.{if◌then◌else◌}
use invest_quant_system.Prelude.Lists.{length}
use invest_quant_system.Prelude.Text.{is_empty, leb_text, text_append}
use invest_quant_system.Prelude.Dict.{Dict, values}
use invest_quant_system.Prelude.Sort.{sort}
use invest_quant_system.Prelude.Result.{ok}
use invest_quant_system.Contracts.Moment.{Datetime}
use invest_quant_system.Contracts.Market.Bar.{MarketBar}
use invest_quant_system.Backtest.RunSpec.{run_parts}
use invest_quant_system.Backtest.Scheduler.{stable_sort_bars}
use invest_quant_system.Backtest.Warnings.{RunWarning}
use invest_quant_system.Backtest.Orchestrator.{
  UniverseChangeEvent, Orchestrator, Surroundings, Action, ◌>>◌, each, initialize,
}
use invest_quant_system.Backtest.Orchestrator.Loop.{process_bar}

pub record BacktestRunResult : Type 0 where
  pub run_id : String
  pub spec_hash : String
  pub total_bars : ℕ
  pub bars_skipped : ℕ
  pub signals_generated : ℕ
  pub signals_rejected : ℕ
  pub out_of_order_bars : ℕ
  pub universe_changes : ℕ
  pub bars_by_symbol : Dict String ℕ
  pub signal_ids : List String
  pub universe_change_events : List UniverseChangeEvent
  pub warnings : List RunWarning
  pub started_at : Datetime
  pub finished_at : Datetime

abbrev pub sum : List ℕ → ℕ
sum [] = 0
sum (n ∷ ns) = n + sum ns

abbrev by_symbol : String × ℕ → String × ℕ → Bool
by_symbol a b = leb_text a.0 b.0

module _ (around : Surroundings) (short : String → String) where
  -- `self.spec.run_id or f"run_{hash[:8]}"`, `short` being the first eight characters
  abbrev run_id_of : String → String → String
  run_id_of run_id hash = if is_empty run_id then text_append "run_" (short hash) else run_id

  -- `_build_result`
  unfoldable pub build_result : Orchestrator → BacktestRunResult
  build_result o =
      let hash = around.spec_digest (run_parts o.spec) in
      record {
        run_id = run_id_of o.spec.run_id hash;
        spec_hash = hash;
        total_bars = sum (values o.bars_by_symbol);
        bars_skipped = 0;
        signals_generated = length o.signal_ids;
        signals_rejected = o.signals_rejected;
        out_of_order_bars = o.scheduler.out_of_order_count;
        universe_changes = length o.universe_changes;
        bars_by_symbol = sort by_symbol o.bars_by_symbol;
        signal_ids = o.signal_ids;
        universe_change_events = o.universe_changes;
        warnings = o.warnings;
        started_at = around.wall_now;
        finished_at = around.wall_now;
      }

  -- `run`
  unfoldable pub run : List MarketBar → Action BacktestRunResult
  unfolding build_result each process_bar initialize
  run bars =
      initialize
      >> (each (process_bar around) (stable_sort_bars bars) >> λ o. (ok (build_result o), o))
