-- ===== src/Strategies/Composer/Weighted.antt =====
-- The candidate that the weighted policy emits: it has the direction of the score, and the action
-- of the first candidate.
use invest_quant_system.Prelude.{
  String, true, false, Option, some, List, ◌∷◌, ◌≡◌, refl, ap, ◌∙◌, arith,
}
use invest_quant_system.Prelude.Int.{pos, ltb_ℤ}
use invest_quant_system.Prelude.Decimal.{Decimal}
use invest_quant_system.Prelude.Text.{is_empty}
use invest_quant_system.Prelude.Result.{ok, is_ok}
use invest_quant_system.Contracts.Moment.{Datetime}
use invest_quant_system.Contracts.Market.Bar.{MarketBar}
use invest_quant_system.Contracts.Features.{FeatureSnapshot, MarketRegime}
use invest_quant_system.Contracts.Signals.{
  SignalCandidate, Direction, SignalAction, validate_candidate,
}
use invest_quant_system.Strategies.Composer.{
  score_weighted, StrategyComposer, DecisionKey, Call, Decided, collect,
}
use invest_quant_system.Strategies.Composer.Policies.{
  checked, is_zero, winner_direction, weighted_winner, weigh, decide_by_score, decide_weighted,
  by_policy, decide_among, call_of, decide,
}

-- a sale that acts as a purchase is refused
sells_as_buy :
    (w : SignalCandidate)
    → w.direction ≡ Direction.sell
    → w.signal_action ≡ SignalAction.buy
    → is_ok (validate_candidate w) ≡ false
unfolding validate_candidate
sells_as_buy w d a = ground arith

negative-sells :
    (score : Decimal)
    → ltb_ℤ score (pos 0) ≡ true
    → (is_zero score ≡ false) × (winner_direction score ≡ Direction.sell)
negative-sells score h = (ground arith, ground arith)

checked-passes :
    (m : Decided)
    → is_empty m.1.decision_id ≡ false
    → is_empty m.1.binding_id ≡ false
    → checked m ≡ ok m
unfolding checked
checked-passes m p q = rw p (rw q refl)

module _ (digest : DecisionKey → String) (through_float : Decimal → Decimal)
    (weight_text : Decimal → String) where
  among-weighted :
      (c : StrategyComposer) (call : Call) (first second : SignalCandidate)
      (others : List SignalCandidate)
      → c.policy ≡ score_weighted
      → decide_among digest through_float weight_text c call (first ∷ second ∷ others)
        ≡ decide_by_score digest through_float weight_text
            (weigh digest through_float weight_text (pos 0) (first ∷ second ∷ others) c.weights)
            call
            first
            (second ∷ others)
  unfolding decide_among by_policy decide_weighted
  among-weighted c call first second others p = rw p refl

  by_score-emits :
      (score : Decimal) (call : Call) (first : SignalCandidate) (others : List SignalCandidate)
      → is_zero score ≡ false
      → let d = decide_by_score digest through_float weight_text score call first others in
        (d.0 ≡ some (weighted_winner digest through_float weight_text first score))
        × (d.1.decision_id ≡ call.decision_id)
        × (d.1.binding_id ≡ call.key.binding_id)
  unfolding decide_by_score
  by_score-emits score call first others z = rw z (refl, refl, refl)

  -- Under the weighted policy, if at least two candidates are proposed, the first of them acts as
  -- a purchase, and their weighted score is negative, then `decide` (with ids that are not empty)
  -- emits a candidate that sells and acts as a purchase, which `SignalCandidate.validate` refuses.
  pub weighted_sale_refused :
      (c : StrategyComposer) (bar : MarketBar) (snapshot : FeatureSnapshot)
      (regime : Option MarketRegime) (binding_id : String) (now : Datetime)
      (first second : SignalCandidate) (others : List SignalCandidate)
      → c.policy ≡ score_weighted
      → collect c.runtimes bar snapshot regime ≡ first ∷ second ∷ others
      → first.signal_action ≡ SignalAction.buy
      → ltb_ℤ
          (weigh digest through_float weight_text (pos 0) (first ∷ second ∷ others) c.weights)
          (pos 0)
        ≡ true
      → is_empty (digest (call_of digest through_float weight_text c bar binding_id now).key)
        ≡ false
      → is_empty binding_id ≡ false
      → (d : Decided) × (decide digest through_float weight_text c bar snapshot regime binding_id
            now
          ≡ ok d)
        × (w : SignalCandidate) × (d.0 ≡ some w)
        × (w.direction ≡ Direction.sell)
        × (w.signal_action ≡ SignalAction.buy)
        × (is_ok (validate_candidate w) ≡ false)
  unfolding decide
  weighted_sale_refused c bar snapshot regime binding_id now first second others p q a n i b =
      let score =
        weigh digest through_float weight_text (pos 0) (first ∷ second ∷ others) c.weights in
      let (z, s) = negative-sells score n in
      let w = weighted_winner digest through_float weight_text first score in
      let call = call_of digest through_float weight_text c bar binding_id now in
      let d = decide_by_score digest through_float weight_text score call first (second ∷ others) in
      let (emits, known, bound) = by_score-emits score call first (second ∷ others) z in
      let decided : decide digest through_float weight_text c bar snapshot regime binding_id now
          ≡ ok d =
        rw q (
          rw (among-weighted c call first second others p)
            (checked-passes d (ap is_empty known ∙ i) (ap is_empty bound ∙ b))) in
      (d, decided, w, emits, s, a, sells_as_buy w s a)
