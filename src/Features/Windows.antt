-- ===== src/Features/Windows.antt =====
-- The window of an update: what its features look at, for bars in the order of time and for a late
-- bar.
use mathlib.Core.List.{Mem, mem-append, Perm, append_assoc}
use mathlib.Core.Path.{subst}
use mathlib.Core.List.Perm
use mathlib.Core.Logic.Or
use invest_quant_system.Prelude.{
  ℕ, ◌-◌, ◌≤◌, ◌<◌, String, ◌≡◌, ◌≢◌, ap, ◌∙◌, true, some, List, [], ◌∷◌, ◌++◌, arith,
}
use invest_quant_system.Prelude.Tests.{String_discrete}
use invest_quant_system.Prelude.Decimal.{Decimal}
use invest_quant_system.Prelude.Lists.{length, length-append, All-append}
use invest_quant_system.Prelude.Dict
use invest_quant_system.Prelude.Dict.{get-put_self, get-put_ne}
use invest_quant_system.Prelude.Sort.{sort_by, sort_by-IsSorted, sort_by-perm}
use invest_quant_system.Prelude.Result.{Result, ok, err}
use invest_quant_system.Contracts.Moment.{Datetime}
use invest_quant_system.Contracts.Features.{FeatureSnapshot, float_value}
use invest_quant_system.Contracts.Market.Bar
use invest_quant_system.Contracts.Market.Bar.{MarketBar}
use invest_quant_system.Features.{
  Platform, RollingFeatureEngine, bars_of, or_empty, bar_time, with_bar, window_of, last_or,
  change_from, snapshot_of, update_checked, update_closed_bar,
}
use invest_quant_system.Features.Ordered.{
  with_bar-InOrder, previous_close-drop, All-drop, window_of-positive, latest-window, InOrder, UpTo,
}

-- If a stored bar of the symbol is later than the one that comes in, the window of the update ends
-- with a bar that is later than the one that its snapshot is dated by.
pub late_window_later :
    (lookback : ℕ) (bars : List MarketBar) (bar u : MarketBar)
    → 0 < lookback
    → Mem u bars
    → bar_time bar < bar_time u
    → bar_time bar < bar_time (last_or bar (window_of lookback (with_bar bars bar)))
unfolding with_bar
late_window_later lookback bars bar u n m l =
    let there : Mem u (sort_by bar_time (bars ++ bar ∷ [])) =
      (Perm.mem_iff (sort_by-perm bar_time (bars ++ bar ∷ []))).1 (mem-append.1 (Or.inl m)) in
    omega (
      arith,
      l,
      latest-window bar u lookback (with_bar bars bar) n
          (sort_by-IsSorted bar_time (bars ++ bar ∷ [])) there,
    )

module _ (platform : Platform) where
  -- What an update leaves for the symbol of the bar, and for the other symbols.
  pub record IsUpdated (e : RollingFeatureEngine) (bar : MarketBar) (now : Datetime)
      (s : FeatureSnapshot) (e' : RollingFeatureEngine) : Type 0 where
    pub snapshot : s ≡ snapshot_of platform e bar (window_of e.lookback (bars_of e' bar.symbol)) now
    pub in_order : InOrder (bars_of e' bar.symbol)
    pub kept : Perm (bars_of e' bar.symbol) (bars_of e bar.symbol ++ bar ∷ [])
    pub others : (k : String) → bar.symbol ≢ k → bars_of e' k ≡ bars_of e k

  checked-IsUpdated :
      (m : Result (Unit {0})) (e : RollingFeatureEngine) (bar : MarketBar) (now : Datetime)
      (s : FeatureSnapshot)
      → (update_checked platform m e bar now).0 ≡ ok s
      → IsUpdated e bar now s (update_checked platform m e bar now).1
  unfolding with_bar
  checked-IsUpdated (err raised) e bar now s h = cc
  checked-IsUpdated (ok u) e bar now s h =
      let bars = with_bar (bars_of e bar.symbol) bar in
      let here = ap or_empty (get-put_self String_discrete e.bars_by_symbol bar.symbol bars) in
      record {
        snapshot = rw here (cc h);
        in_order = rw here (sort_by-IsSorted bar_time (bars_of e bar.symbol ++ bar ∷ []));
        kept = rw here (sort_by-perm bar_time (bars_of e bar.symbol ++ bar ∷ []));
        others =
            λ k n. ap or_empty (get-put_ne String_discrete e.bars_by_symbol bar.symbol k bars n);
      }

  -- An update that returns adds the bar to those of its symbol, which are in the order of time, leaves
  -- the bars of every other symbol, and its snapshot is that of the last bars of the symbol.
  pub update_closed_bar-IsUpdated :
      (e : RollingFeatureEngine) (bar : MarketBar) (now : Datetime) (s : FeatureSnapshot)
      → (update_closed_bar platform e bar now).0 ≡ ok s
      → IsUpdated e bar now s (update_closed_bar platform e bar now).1
  unfolding update_closed_bar
  update_closed_bar-IsUpdated e bar now s h =
      checked-IsUpdated (Bar.validate bar true) e bar now s h

  -- If the lookback is at least two, and at least one bar is stored, the stored bars are in order and none is
  -- later than the new bar, then the window of the new bar holds no later bar, and the return is that over
  -- the close of the last stored bar.
  pub window_not_ahead :
      (e : RollingFeatureEngine) (bars : List MarketBar) (prev bar : MarketBar) (now : Datetime)
      → 2 ≤ e.lookback
      → InOrder (bars ++ prev ∷ [])
      → UpTo bar (bars ++ prev ∷ [])
      → let window = window_of e.lookback (with_bar (bars ++ prev ∷ []) bar) in
        UpTo bar window
        × (Dict.get String_discrete (snapshot_of platform e bar window now).features "return_1"
            ≡ some (float_value (change_from platform bar.close_price prev.close_price)))
  unfolding snapshot_of Dict.get String_discrete
  window_not_ahead e bars prev bar now n h u =
      let all = bars ++ prev ∷ bar ∷ [] in
      let joined : with_bar (bars ++ prev ∷ []) bar ≡ all =
        with_bar-InOrder (bars ++ prev ∷ []) bar h u ∙ append_assoc bars (prev ∷ []) (bar ∷ []) in
      let early : length all - e.lookback ≤ length bars =
        omega (arith, n, length-append bars (prev ∷ bar ∷ [])) in
      let upto : UpTo bar all = subst (UpTo bar) (append_assoc bars (prev ∷ []) (bar ∷ [])) (
        All-append (λ c. bar_time c ≤ bar_time bar) (bars ++ prev ∷ []) (bar ∷ []) u
          (omega arith, tt)) in
      rw joined (
        rw (window_of-positive e.lookback all (omega (arith, n))) (
          All-drop (λ c. bar_time c ≤ bar_time bar) (length all - e.lookback) all upto,
          ap (λ (c : Decimal). some (float_value (change_from platform bar.close_price c)))
              (previous_close-drop bar.close_price bars prev bar (length all - e.lookback) early),
        ))
