-- ===== src/Backtest/Scheduler/Sorted.antt =====
-- The order in which a run takes its bars.
use mathlib.Core.List.{Perm}
use invest_quant_system.Prelude.{◌≡◌, true, false, List, arith}
use invest_quant_system.Prelude.Text.{leb_text_total, leb_text_trans}
use invest_quant_system.Prelude.Sort.{IsSorted, sort-IsSorted, sort-perm}
use invest_quant_system.Contracts.Market.Bar.{MarketBar}
use invest_quant_system.Backtest.Scheduler.{key_le, stable_sort_bars}

key_le_total : (a b : MarketBar) → key_le a b ≡ false → key_le b a ≡ true
unfolding key_le
key_le_total a b h = ground (arith, leb_text_total a.symbol b.symbol)

key_le_trans : (a b c : MarketBar) → key_le a b ≡ true → key_le b c ≡ true → key_le a c ≡ true
unfolding key_le
key_le_trans a b c p q = ground (arith, leb_text_trans a.symbol b.symbol c.symbol)

-- `stable_sort_bars` returns the bars that it was given, each as often, in the order of their times
-- and, at one time, of their symbols.
stable_sort_bars-IsSorted :
    (bars : List MarketBar)
    → IsSorted key_le (stable_sort_bars bars) × Perm (stable_sort_bars bars) bars
unfolding stable_sort_bars
stable_sort_bars-IsSorted bars =
    (sort-IsSorted key_le key_le_total key_le_trans bars, sort-perm key_le bars)
