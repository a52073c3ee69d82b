-- ===== src/Strategies/Composer/Agreement.antt =====
-- What the strategies agree on when a candidate is emitted.
use invest_quant_system.Prelude.{
  ℕ, suc, String, Bool, true, false, Option, none, some, List, [], ◌∷◌, ◌≡◌, refl, sym, ap, ◌∙◌,
  arith, inl, inr,
}
use invest_quant_system.Prelude.Tests.{Bool-cases, and-split}
use invest_quant_system.Prelude.Decimal.{Decimal}
use invest_quant_system.Prelude.Lists.{All, All-map}
use invest_quant_system.Prelude.Sort.{sort-All}
use invest_quant_system.Prelude.Result.{ok}
use invest_quant_system.Contracts.Moment.{Datetime}
use invest_quant_system.Contracts.Market.Bar.{MarketBar}
use invest_quant_system.Contracts.Features.{FeatureSnapshot, MarketRegime}
use invest_quant_system.Contracts.Signals.{SignalCandidate, Direction}
use invest_quant_system.Strategies.Composer.{
  ConflictPolicy, priority_max_confidence, unanimous, score_weighted, StrategyComposer, DecisionKey,
  Call, Decided, same_direction, all_agree, in_direction, in_action, Placed, placed, head_or,
  collect,
}
use invest_quant_system.Strategies.Composer.Policies.{
  decide_unanimous, ranked, first_ranked, decide_priority, by_policy, decide_among, decide,
}
use invest_quant_system.Strategies.Composer.Recorded.{checked-ok}

-- what the agreement of the candidates gives
same_direction-eq : (a b : Direction) → same_direction a b ≡ true → a ≡ b
same_direction-eq a b h = ground arith

agree-All :
    (agree : SignalCandidate → SignalCandidate → Bool) (first : SignalCandidate)
    (cs : List SignalCandidate)
    → ((c : SignalCandidate) → agree c first ≡ true → c.direction ≡ first.direction)
    → all_agree agree first cs ≡ true
    → All (λ c. c.direction ≡ first.direction) cs
unfolding all_agree
agree-All agree first [] f h = tt
agree-All agree first (c ∷ cs) f h =
    let (p, q) = and-split (agree c first) (all_agree agree first cs) h in
    (f c p, agree-All agree first cs f q)

placed-All {κ} :
    (P : SignalCandidate → Type κ) (n : ℕ) (cs : List SignalCandidate)
    → All P cs
    → All (λ p. P p.1) (placed n cs)
unfolding placed
placed-All P n [] h = tt
placed-All P n (c ∷ cs) h = (h.0, placed-All P (suc n) cs h.1)

head_or-All {κ} :
    (P : Placed → Type κ) (first : Placed) (ps : List Placed)
    → P first
    → All P ps
    → P (head_or first ps)
head_or-All P first [] p h = p
head_or-All P first (q ∷ qs) p h = h.0

abbrev direction_or_hold : Option SignalCandidate → Direction
direction_or_hold none = Direction.hold
direction_or_hold (some c) = c.direction

-- the agreement carries over to a candidate that has the direction of the first
carried :
    (first winner w : SignalCandidate) (cs : List SignalCandidate)
    → All (λ c. c.direction ≡ first.direction) cs
    → some winner ≡ some w
    → winner.direction ≡ first.direction
    → All (λ c. c.direction ≡ w.direction) cs
carried first winner w cs h e k =
    All-map (λ c. c.direction ≡ first.direction) (λ c. c.direction ≡ w.direction)
      (λ c p. p ∙ sym k ∙ ap direction_or_hold e) cs h

abbrev pub is_weighted : ConflictPolicy → Bool
is_weighted score_weighted = true
is_weighted _ = false

module _ (digest : DecisionKey → String) (through_float : Decimal → Decimal)
    (weight_text : Decimal → String) where
  first_ranked-All {κ} :
      (P : SignalCandidate → Type κ) (c : StrategyComposer) (first : SignalCandidate)
      (others : List SignalCandidate)
      → All P (first ∷ others)
      → P (first_ranked digest through_float weight_text c first others).1
  unfolding first_ranked
  first_ranked-All P c first others h =
      head_or-All (λ p. P p.1) (0, first) _ h.0
        (sort-All (ranked digest through_float weight_text c) (λ p. P p.1)
          (placed 0 (first ∷ others)) (placed-All P 0 (first ∷ others) h))

  -- the emitted candidate has a direction that every candidate has
  abbrev Agrees : List SignalCandidate → Decided → Type 0
  Agrees candidates d =
      (w : SignalCandidate) → d.0 ≡ some w → All (λ c. c.direction ≡ w.direction) candidates

  priority-Agrees :
      (c : StrategyComposer) (call : Call) (first : SignalCandidate) (others : List SignalCandidate)
      → Agrees
          (first ∷ others)
          (decide_priority digest through_float weight_text c call first others)
  unfolding decide_priority
  priority-Agrees c call first others w = elim (Bool-cases (all_agree in_direction first others)) [
    | inr e ↦ rw e (λ h. cc h)
    | inl e ↦
        let base : All (λ c. c.direction ≡ first.direction) (first ∷ others) = (
          refl,
          agree-All in_direction first others
              (λ c k. same_direction-eq c.direction first.direction k) e,
        ) in
        rw e (λ h.
          carried first _ w (first ∷ others) base h
            (first_ranked-All (λ c. c.direction ≡ first.direction) c first others base))
  ]

  unanimous-Agrees :
      (call : Call) (first : SignalCandidate) (others : List SignalCandidate)
      → Agrees (first ∷ others) (decide_unanimous call first others)
  unfolding decide_unanimous
  unanimous-Agrees call first others w = elim (Bool-cases (all_agree in_action first others)) [
    | inr e ↦ rw e (λ h. cc h)
    | inl e ↦
        let base : All (λ c. c.direction ≡ first.direction) (first ∷ others) = (
          refl,
          agree-All in_action first others
              (λ c k. same_direction-eq c.direction first.direction (and-split _ _ k).0) e,
        ) in
        rw e (λ h. carried first _ w (first ∷ others) base h refl)
  ]

  by_policy-Agrees :
      (p : ConflictPolicy) (c : StrategyComposer) (call : Call) (first : SignalCandidate)
      (others : List SignalCandidate)
      → is_weighted p ≡ false
      → Agrees (first ∷ others) (by_policy digest through_float weight_text p c call first others)
  unfolding by_policy
  by_policy-Agrees priority_max_confidence c call first others n =
      priority-Agrees c call first others
  by_policy-Agrees unanimous c call first others n = unanimous-Agrees call first others
  by_policy-Agrees score_weighted c call first others n = absurd (cc n)

  decide_among-Agrees :
      (c : StrategyComposer) (call : Call) (candidates : List SignalCandidate)
      → is_weighted c.policy ≡ false
      → Agrees candidates (decide_among digest through_float weight_text c call candidates)
  unfolding decide_among
  decide_among-Agrees c call [] n w h = tt
  decide_among-Agrees c call (only ∷ []) n w h = (ap direction_or_hold h, tt)
  decide_among-Agrees c call (first ∷ second ∷ others) n w h =
      by_policy-Agrees c.policy c call first (second ∷ others) n w h

  -- Unless the policy is the weighted one, a candidate that `decide` emits has the direction of
  -- every candidate that the strategies proposed for the bar.
  pub decide_agrees :
      (c : StrategyComposer) (bar : MarketBar) (snapshot : FeatureSnapshot)
      (regime : Option MarketRegime) (binding_id : String) (now : Datetime) (d : Decided)
      (w : SignalCandidate)
      → is_weighted c.policy ≡ false
      → decide digest through_float weight_text c bar snapshot regime binding_id now ≡ ok d
      → d.0 ≡ some w
      → All (λ p. p.direction ≡ w.direction) (collect c.runtimes bar snapshot regime)
  unfolding decide
  decide_agrees c bar snapshot regime binding_id now d w n h e =
      decide_among-Agrees c _ (collect c.runtimes bar snapshot regime) n w
        (ap (λ (x : Decided). x.0) (checked-ok _ d h) ∙ e)
