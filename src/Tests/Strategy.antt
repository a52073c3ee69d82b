-- ===== src/Tests/Strategy.antt =====
-- Bars in order and a late one in the feature engine, and a breakout for the rule strategy.
use mathlib.Core.List.{mem-cons}
use mathlib.Core.Logic.Or
use invest_quant_system.Prelude.{ℕ, ◌<◌, ◌≡◌, refl, none, some, [], ◌∷◌, arith}
use invest_quant_system.Prelude.Tests.{String_discrete}
use invest_quant_system.Prelude.Int.{pos, ◌+ℤ◌}
use invest_quant_system.Prelude.Sort.{sort_by}
use invest_quant_system.Prelude.Text.{is_blank}
use invest_quant_system.Contracts.Checks.{
  require_texts, require_all_utc, require_all_non_negative, require_non_negative,
}
use invest_quant_system.Contracts.Moment.{require_aware_utc}
use invest_quant_system.Prelude.Decimal.{whole, digits_behind}
use invest_quant_system.Prelude.Dict
use invest_quant_system.Contracts.Features.{FeatureSnapshot, float_value}
use invest_quant_system.Contracts.Market.Bar
use invest_quant_system.Contracts.Market.Bar.{MarketBar}
use invest_quant_system.Features.{
  new_engine, bar_time, with_bar, window_of, last_or, change_from, snapshot_of, update_closed_bar,
}
use invest_quant_system.Features.Ordered.{UpTo}
use invest_quant_system.Features.Windows.{
  IsUpdated, update_closed_bar-IsUpdated, late_window_later, window_not_ahead,
}
use invest_quant_system.Strategies.Rules.{RuleStrategyRuntime, breakout, candidate_of, on_bar}
use invest_quant_system.Strategies.Rules.Proposals.{IsProposal, on_bar-IsProposal}
use invest_quant_system.Tests.Data.{utc, bar, snapshot}
use invest_quant_system.Tests.Orchestrator.{platform}

abbrev dated : ℕ → MarketBar
dated time = record bar { market_data_time = utc time }

late_window_later_example :
    bar_time bar < bar_time (last_or bar (window_of 3 (with_bar (dated 600 ∷ []) bar)))
late_window_later_example =
    late_window_later 3 (dated 600 ∷ []) bar (dated 600) (omega arith) (mem-cons.1 (Or.inl refl))
      (omega arith)

window_not_ahead_example :
    let window = window_of 3 (with_bar (dated 100 ∷ dated 200 ∷ []) bar) in
    UpTo bar window
    × (Dict.get String_discrete
          (snapshot_of platform (new_engine 3) bar window (utc 301)).features
          "return_1"
        ≡ some (float_value (change_from platform (whole 11) (whole 11))))
window_not_ahead_example =
    window_not_ahead platform (new_engine 3) (dated 100 ∷ []) (dated 200) bar (utc 301)
      (omega arith) ((refl, tt), (tt, tt)) (omega arith)

abbrev first_snapshot : FeatureSnapshot
first_snapshot = snapshot_of platform (new_engine 3) bar (bar ∷ []) (utc 301)

update_closed_bar-IsUpdated_example :
    IsUpdated platform
      (new_engine 3)
      bar
      (utc 301)
      first_snapshot
      (update_closed_bar platform (new_engine 3) bar (utc 301)).1
unfolding update_closed_bar Bar.validate require_texts is_blank require_all_utc require_aware_utc
    Bar.check_times require_all_non_negative require_non_negative Bar.check_range sort_by ◌+ℤ◌
    Dict.get
update_closed_bar-IsUpdated_example =
    update_closed_bar-IsUpdated platform (new_engine 3) bar (utc 301) first_snapshot refl

abbrev rules : RuleStrategyRuntime
rules = record {
  strategy_name = "baseline-rules";
  strategy_version = "v1";
  code_version = "research-code-v1";
  parameter_hash = "h";
  horizon_seconds = pos 900;
  breakout_volume_ratio = digits_behind 15 1;
  pullback_threshold = pos 0;
  spike_threshold = digits_behind 2 2;
}

abbrev broken_out : FeatureSnapshot
broken_out = record snapshot {
  features =
      ("return_1", float_value (digits_behind 1 2)) ∷ ("volume_ratio", float_value (whole 2)) ∷ [];
}

on_bar-IsProposal_example :
    IsProposal platform rules bar broken_out none (candidate_of rules bar broken_out none breakout)
unfolding on_bar Bar.validate require_texts is_blank require_all_utc require_aware_utc
    Bar.check_times require_all_non_negative require_non_negative Bar.check_range Dict.get
on_bar-IsProposal_example =
    on_bar-IsProposal platform rules bar broken_out none
      (candidate_of rules bar broken_out none breakout) refl refl refl
