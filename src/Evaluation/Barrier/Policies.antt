-- ===== src/Evaluation/Barrier/Policies.antt =====
-- What the policy of conflicts changes of the answer: the label of a bar that touches both barriers.
use invest_quant_system.Prelude.{
  Bool, ◌≡◌, ◌≢◌, refl, true, false, Option, none, some, List, [], ◌∷◌, sym, ap, ◌∙◌, arith,
}
use invest_quant_system.Prelude.Tests.{if◌then◌else◌, ◌==◌}
use invest_quant_system.Prelude.Int.{ℤ, pos, negsuc}
use invest_quant_system.Prelude.Decimal.{Decimal}
use invest_quant_system.Contracts.Moment.{Datetime}
use invest_quant_system.Contracts.Market.Bar.{MarketBar}
use invest_quant_system.Contracts.Evaluation.{conservative, ambiguous}
use invest_quant_system.Evaluation.Fill.{seconds_between}
use invest_quant_system.Evaluation.Barrier.{
  Walk, Hit, TripleBarrierConfig, walk, walk_of, label_of, label_at, end_walk, profit_hit, loss_hit,
  is_over, stop_loss, both_hit, detect_first_barrier_hit,
}

-- The stop loss in place of the label of a conflict.
abbrev pub resolve : ℤ → ℤ
resolve (pos n) = if n == 2 then stop_loss else pos n
resolve (negsuc n) = negsuc n

abbrev resolve_label : Option ℤ → Option ℤ
resolve_label none = none
resolve_label (some label) = some (resolve label)

label_of-conservative :
    (profit loss over : Bool)
    → label_of profit loss over conservative ≡ resolve_label (label_of profit loss over ambiguous)
label_of-conservative true true over = refl
label_of-conservative true false over = refl
label_of-conservative false true over = refl
label_of-conservative false false true = refl
label_of-conservative false false false = refl

end_walk-resolve :
    (o : Option ℤ) (elapsed : ℤ) (rest : Hit)
    → end_walk (resolve_label o) elapsed (resolve rest.0, rest.1)
      ≡ (resolve (end_walk o elapsed rest).0, (end_walk o elapsed rest).1)
end_walk-resolve none elapsed rest = refl
end_walk-resolve (some label) elapsed rest = refl

walk-resolve :
    (w : Walk) (base : Datetime) (path : List MarketBar)
    → let a = walk (record w { policy = ambiguous }) base path in
      walk (record w { policy = conservative }) base path ≡ (resolve a.0, a.1)
unfolding walk label_at
walk-resolve w base [] = refl
walk-resolve w base (b ∷ bs) =
    let elapsed = seconds_between b.market_data_time base in
    let over = is_over w.time_limit elapsed in
    rw (label_of-conservative (profit_hit w b) (loss_hit w b) over, walk-resolve w base bs)
      (end_walk-resolve (label_of (profit_hit w b) (loss_hit w b) over ambiguous) elapsed
        (walk (record w { policy = ambiguous }) base bs))

resolve-settled : (label : ℤ) → resolve label ≢ both_hit
resolve-settled label p = ground arith

-- Under CONSERVATIVE the answer is that under AMBIGUOUS, at the same bar and with the same seconds,
-- with the stop loss in place of the label of a conflict, and is never a conflict.
conservative_resolves :
    (price : Decimal) (direction : ℤ) (path : List MarketBar) (c : TripleBarrierConfig)
    → let a =
        detect_first_barrier_hit price direction path (record c { conflict_policy = ambiguous }) in
      let d =
        detect_first_barrier_hit price direction path
          (record c { conflict_policy = conservative }) in
      (d ≡ (resolve a.0, a.1)) × (d.0 ≢ both_hit)
unfolding detect_first_barrier_hit
conservative_resolves price direction [] c = (refl, λ p. cc)
conservative_resolves price direction (b ∷ bs) c =
    let w = record (walk_of price direction c) { policy = ambiguous } in
    let p = walk-resolve (walk_of price direction c) b.market_data_time (b ∷ bs) in
    (
      p,
      λ q.
          resolve-settled (walk w b.market_data_time (b ∷ bs)).0
            (ap (λ (h : Hit). h.0) (sym p) ∙ q),
    )
