-- ===== src/Features/Ordered.antt =====
-- Bars in the order of time: what a window of them ends with, and the close before the last.
use mathlib.Core.List.{Mem, mem-cons, not-mem-nil}
use mathlib.Core.Logic.Or
use native.Mathlib.Bridge.{le_prop}
use invest_quant_system.Prelude.{
  ℕ, zero, suc, ◌-◌, ◌≤◌, ◌<◌, ◌≡◌, refl, true, List, [], ◌∷◌, ◌++◌, arith,
}
use invest_quant_system.Prelude.Decimal.{Decimal}
use invest_quant_system.Prelude.Lists.{length, drop, All, All-append}
use invest_quant_system.Prelude.Sort.{by_key, insert, sort, sort_by, IsSorted}
use invest_quant_system.Contracts.Market.Bar.{MarketBar}
use invest_quant_system.Features.{bar_time, with_bar, window_of, previous_close, last_or}

abbrev pub InOrder : List MarketBar → Type 0
InOrder = IsSorted (by_key bar_time)

abbrev pub UpTo : MarketBar → List MarketBar → Type 0
UpTo bar = All (λ b. bar_time b ≤ bar_time bar)

-- A list in order, with a bar behind it that is not earlier, stays as it is.
insert-first :
    (b : MarketBar) (bs : List MarketBar)
    → All (λ c. by_key bar_time b c ≡ true) bs
    → insert (by_key bar_time) b bs ≡ b ∷ bs
unfolding insert
insert-first b [] h = refl
insert-first b (c ∷ cs) h = rw (h.0) refl

sort-InOrder : (bs : List MarketBar) → InOrder bs → sort (by_key bar_time) bs ≡ bs
unfolding sort
sort-InOrder [] h = refl
sort-InOrder (b ∷ bs) h = rw (sort-InOrder bs h.1) (insert-first b bs h.0)

InOrder-snoc :
    (bs : List MarketBar) (bar : MarketBar) → InOrder bs → UpTo bar bs → InOrder (bs ++ bar ∷ [])
InOrder-snoc [] bar h u = (tt, tt)
InOrder-snoc (b ∷ bs) bar h u = (
  All-append (λ c. by_key bar_time b c ≡ true) bs (bar ∷ []) h.0 (ground (arith, u.0), tt),
  InOrder-snoc bs bar h.1 u.1,
)

pub with_bar-InOrder :
    (bs : List MarketBar) (bar : MarketBar)
    → InOrder bs
    → UpTo bar bs
    → with_bar bs bar ≡ bs ++ bar ∷ []
unfolding with_bar sort_by
with_bar-InOrder bs bar h u = sort-InOrder (bs ++ bar ∷ []) (InOrder-snoc bs bar h u)

previous_close-deeper :
    (close : Decimal) (b c : MarketBar) (bs : List MarketBar) (prev bar : MarketBar)
    → previous_close close ((c ∷ bs) ++ prev ∷ bar ∷ []) ≡ prev.close_price
    → previous_close close ((b ∷ c ∷ bs) ++ prev ∷ bar ∷ []) ≡ prev.close_price
unfolding previous_close
previous_close-deeper close b c [] prev bar h = h
previous_close-deeper close b c (d ∷ bs) prev bar h = h

-- the close before the last, in what is left of a list behind some of its bars
pub previous_close-drop :
    (close : Decimal) (bs : List MarketBar) (prev bar : MarketBar) (k : ℕ)
    → k ≤ length bs
    → previous_close close (drop k (bs ++ prev ∷ bar ∷ [])) ≡ prev.close_price
unfolding previous_close
previous_close-drop close [] prev bar zero h = refl
previous_close-drop close [] prev bar (suc k) h = absurd (omega arith)
previous_close-drop close (b ∷ []) prev bar zero h = refl
previous_close-drop close (b ∷ c ∷ bs) prev bar zero h =
    previous_close-deeper close b c bs prev bar
      (previous_close-drop close (c ∷ bs) prev bar zero (omega arith))
previous_close-drop close (b ∷ bs) prev bar (suc k) h =
    previous_close-drop close bs prev bar k (omega arith)

pub All-drop : (P : MarketBar → Type 0) (k : ℕ) (bs : List MarketBar) → All P bs → All P (drop k bs)
All-drop P zero bs h = h
All-drop P (suc k) [] h = tt
All-drop P (suc k) (b ∷ bs) h = All-drop P k bs h.1

-- the last bar of a list in order is its latest
last-latest :
    (bar b : MarketBar) (bs : List MarketBar)
    → InOrder (b ∷ bs)
    → All (λ c. bar_time c ≤ bar_time (last_or bar (b ∷ bs))) (b ∷ bs)
last-latest bar b [] h = (omega arith, tt)
last-latest bar b (c ∷ cs) h =
    let rest = last-latest bar c cs h.1 in (ground (arith, h.0.0, rest.0), rest)

last-drop :
    (bar : MarketBar) (k : ℕ) (bs : List MarketBar)
    → k < length bs
    → last_or bar (drop k bs) ≡ last_or bar bs
last-drop bar zero bs h = refl
last-drop bar (suc k) [] h = absurd (omega arith)
last-drop bar (suc k) (b ∷ []) h = absurd (omega arith)
last-drop bar (suc k) (b ∷ c ∷ bs) h = last-drop bar k (c ∷ bs) (omega arith)

mem-le :
    (n : ℕ) (u : MarketBar) (bs : List MarketBar)
    → Mem u bs
    → All (λ c. bar_time c ≤ n) bs
    → bar_time u ≤ n
mem-le n u [] m h = absurd (not-mem-nil m)
mem-le n u (b ∷ bs) m h = Or.elim le_prop (mem-cons.0 m) (λ e. rw e h.0) (λ t. mem-le n u bs t h.1)

pub window_of-positive :
    (lookback : ℕ) (bs : List MarketBar)
    → 0 < lookback
    → window_of lookback bs ≡ drop (length bs - lookback) bs
unfolding window_of
window_of-positive zero bs n = absurd (omega (arith, n))
window_of-positive (suc lookback) bs n = refl

pub latest-window :
    (bar u : MarketBar) (lookback : ℕ) (bs : List MarketBar)
    → 0 < lookback
    → InOrder bs
    → Mem u bs
    → bar_time u ≤ bar_time (last_or bar (window_of lookback bs))
latest-window bar u lookback [] n h m = absurd (not-mem-nil m)
latest-window bar u lookback (b ∷ bs) n h m = rw (window_of-positive lookback (b ∷ bs) n) (
    rw (last-drop bar (length (b ∷ bs) - lookback) (b ∷ bs) (omega (arith, n)))
      (mem-le _ u (b ∷ bs) m (last-latest bar b bs h)))
