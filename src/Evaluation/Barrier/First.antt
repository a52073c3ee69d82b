-- ===== src/Evaluation/Barrier/First.antt =====
-- The bar that ends the walk is the first that touches a barrier or reaches the limit of time.
use invest_quant_system.Prelude.{
  Bool, ◌≡◌, ◌⊎◌, inl, inr, refl, true, false, ◌++◌, none, some, List, [], ◌∷◌,
}
use invest_quant_system.Prelude.Tests.{Option-cases}
use invest_quant_system.Prelude.Int.{ℤ}
use invest_quant_system.Prelude.Decimal.{Decimal}
use invest_quant_system.Prelude.Lists.{All}
use invest_quant_system.Contracts.Moment.{Datetime}
use invest_quant_system.Contracts.Market.Bar.{MarketBar}
use invest_quant_system.Contracts.Evaluation.{BarrierConflictPolicy}
use invest_quant_system.Evaluation.Fill.{seconds_between}
use invest_quant_system.Evaluation.Barrier.{
  Walk, Hit, label_of, TripleBarrierConfig, walk, walk_of, label_at, profit_hit, loss_hit,
  conflict_label, is_over, time_only, profit_take, stop_loss, detect_first_barrier_hit,
}

-- No barrier is touched and the time is not over.
abbrev pub IsQuiet : Walk → Datetime → MarketBar → Type 0
IsQuiet w base b =
    (profit_hit w b ≡ false)
    × (loss_hit w b ≡ false)
    × (is_over w.time_limit (seconds_between b.market_data_time base) ≡ false)

-- Which label the hits and the limit of time stand for.
pub record IsLabelled (profit loss over : Bool) (policy : BarrierConflictPolicy) (label : ℤ)
    : Type 0 where
  pub both : profit ≡ true → loss ≡ true → label ≡ conflict_label policy
  pub profit_only : profit ≡ true → loss ≡ false → label ≡ profit_take
  pub loss_only : profit ≡ false → loss ≡ true → label ≡ stop_loss
  pub neither : profit ≡ false → loss ≡ false → (label ≡ time_only) × (over ≡ true)

label_of-none :
    (profit loss over : Bool) (policy : BarrierConflictPolicy)
    → label_of profit loss over policy ≡ none
    → (profit ≡ false) × (loss ≡ false) × (over ≡ false)
label_of-none true true over policy h = cc
label_of-none true false over policy h = cc
label_of-none false true over policy h = cc
label_of-none false false true policy h = cc
label_of-none false false false policy h = (refl, refl, refl)

label_of-some :
    (profit loss over : Bool) (policy : BarrierConflictPolicy) (label : ℤ)
    → label_of profit loss over policy ≡ some label
    → IsLabelled profit loss over policy label
label_of-some true true over policy label h = record {
  both = λ p q. cc;
  profit_only = λ p q. cc;
  loss_only = λ p q. cc;
  neither = λ p q. cc;
}
label_of-some true false over policy label h = record {
  both = λ p q. cc;
  profit_only = λ p q. cc;
  loss_only = λ p q. cc;
  neither = λ p q. cc;
}
label_of-some false true over policy label h = record {
  both = λ p q. cc;
  profit_only = λ p q. cc;
  loss_only = λ p q. cc;
  neither = λ p q. cc;
}
label_of-some false false true policy label h = record {
  both = λ p q. cc;
  profit_only = λ p q. cc;
  loss_only = λ p q. cc;
  neither = λ p q. (cc, refl);
}
label_of-some false false false policy label h = cc

label-IsQuiet :
    (w : Walk) (base : Datetime) (b : MarketBar)
    → label_at w (seconds_between b.market_data_time base) b ≡ none
    → IsQuiet w base b
unfolding label_at
label-IsQuiet w base b h =
    label_of-none (profit_hit w b) (loss_hit w b)
      (is_over w.time_limit (seconds_between b.market_data_time base)) w.policy h

-- The label of a bar that ends a walk.
abbrev pub Labels : Walk → Datetime → MarketBar → ℤ → Type 0
Labels w base b label =
    IsLabelled (profit_hit w b) (loss_hit w b)
      (is_over w.time_limit (seconds_between b.market_data_time base)) w.policy label

label-Labels :
    (w : Walk) (base : Datetime) (b : MarketBar) (label : ℤ)
    → label_at w (seconds_between b.market_data_time base) b ≡ some label
    → Labels w base b label
unfolding label_at
label-Labels w base b label h =
    label_of-some (profit_hit w b) (loss_hit w b)
      (is_over w.time_limit (seconds_between b.market_data_time base)) w.policy label h

pub record IsFirst (w : Walk) (base : Datetime) (path : List MarketBar) (hit : Hit) : Type 0 where
  pub before : List MarketBar
  pub bar : MarketBar
  pub after : List MarketBar
  pub split : path ≡ before ++ bar ∷ after
  pub quiet : All (IsQuiet w base) before
  pub time : hit.1 ≡ some (seconds_between bar.market_data_time base)
  pub label : Labels w base bar hit.0

-- a walk over a bar that is quiet
later :
    (w : Walk) (base : Datetime) (c : MarketBar) (path : List MarketBar) (hit : Hit)
    → IsQuiet w base c
    → IsFirst w base path hit
    → IsFirst w base (c ∷ path) hit
later w base c path hit q f = record {
  before = c ∷ f.before;
  bar = f.bar;
  after = f.after;
  split = rw f.split refl;
  quiet = (q, f.quiet);
  time = f.time;
  label = f.label;
}

walk-IsFirst :
    (w : Walk) (base : Datetime) (path : List MarketBar)
    → IsFirst w base path (walk w base path)
      ⊎ (All (IsQuiet w base) path × (walk w base path ≡ (time_only, none)))
unfolding walk
walk-IsFirst w base [] = inr (tt, refl)
walk-IsFirst w base (b ∷ bs) =
    let elapsed = seconds_between b.market_data_time base in
    elim (Option-cases (label_at w elapsed b)) [
      | inr (label, e) ↦ rw e (
          inl (record {
            before = [];
            bar = b;
            after = bs;
            split = refl;
            quiet = tt;
            time = refl;
            label = label-Labels w base b label e;
          }))
      | inl e ↦ rw e (elim (walk-IsFirst w base bs) [
        | inl f ↦ inl (later w base b bs (walk w base bs) (label-IsQuiet w base b e) f)
        | inr (quiet, r) ↦ inr ((label-IsQuiet w base b e, quiet), r)
      ])
    ]

-- On a path that is not empty, `detect_first_barrier_hit` answers for the first bar that touches a
-- barrier of the direction or reaches the limit of time: with the seconds from the first bar to
-- it, and with the profit take, the stop loss, the label of the policy if it touches both, or the
-- limit of time if it touches none; all bars before it touch none and are within the limit. If
-- there is no such bar, the answer is the limit of time without seconds.
pub detect_first_barrier_hit-IsFirst :
    (price : Decimal) (direction : ℤ) (b : MarketBar) (bs : List MarketBar)
    (c : TripleBarrierConfig)
    → let w = walk_of price direction c in
      let hit = detect_first_barrier_hit price direction (b ∷ bs) c in
      IsFirst w b.market_data_time (b ∷ bs) hit
      ⊎ (All (IsQuiet w b.market_data_time) (b ∷ bs) × (hit ≡ (time_only, none)))
unfolding detect_first_barrier_hit
detect_first_barrier_hit-IsFirst price direction b bs c =
    walk-IsFirst (walk_of price direction c) b.market_data_time (b ∷ bs)
