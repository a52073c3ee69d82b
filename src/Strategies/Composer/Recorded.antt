-- ===== src/Strategies/Composer/Recorded.antt =====
-- What `decide` records beside the candidate that it emits.
use invest_quant_system.Prelude.{
  suc, String, not, Option, none, some, List, [], ◌∷◌, ◌≡◌, refl, ap, inl, inr,
}
use mathlib.Core.Path.{subst}
use invest_quant_system.Prelude.Tests.{Bool-cases}
use invest_quant_system.Prelude.Int.{pos}
use invest_quant_system.Prelude.Decimal.{Decimal}
use invest_quant_system.Prelude.Lists.{length}
use invest_quant_system.Prelude.Text.{is_empty}
use invest_quant_system.Prelude.Dict.{is_some}
use invest_quant_system.Prelude.Result.{ok, step-ok, value_error, raise_if}
use invest_quant_system.Contracts.Moment.{Datetime}
use invest_quant_system.Contracts.Market.Bar.{MarketBar}
use invest_quant_system.Contracts.Features.{FeatureSnapshot, MarketRegime}
use invest_quant_system.Contracts.Signals.{SignalCandidate}
use invest_quant_system.Strategies.Composer.{
  ConflictPolicy, priority_max_confidence, unanimous, score_weighted, StrategyComposer, DecisionKey,
  Call, Decided, named, all_agree, in_direction, in_action, collect,
}
use invest_quant_system.Strategies.Composer.Policies.{
  decide_unanimous, checked, decide_priority, weigh, decide_by_score, decide_weighted, by_policy,
  decide_among, decide, is_zero,
}

abbrev to_list : Option SignalCandidate → List SignalCandidate
to_list none = []
to_list (some c) = c ∷ []

-- The record names the candidate that is emitted, abstains with a reason exactly where there is
-- none, and has a reason for each rejected candidate.
pub record IsRecorded (d : Decided) : Type 0 where
  pub winning : d.1.winning_candidates ≡ to_list d.0
  pub abstained : d.1.abstained ≡ not (is_some d.0)
  pub explained : is_some d.1.abstention_reason ≡ not (is_some d.0)
  pub reasons : length d.1.rejection_reasons ≡ length d.1.rejected_candidates

length-named : (prefix : String) (cs : List SignalCandidate) → length (named prefix cs) ≡ length cs
length-named prefix [] = refl
length-named prefix (c ∷ cs) = ap suc (length-named prefix cs)

decide_unanimous-IsRecorded :
    (call : Call) (first : SignalCandidate) (others : List SignalCandidate)
    → IsRecorded (decide_unanimous call first others)
unfolding decide_unanimous
decide_unanimous-IsRecorded call first others =
    elim (Bool-cases (all_agree in_action first others)) [
      | inl e ↦ rw e (record { winning = refl; abstained = refl; explained = refl; reasons = refl })
      | inr e ↦ rw e (record {
        winning = refl;
        abstained = refl;
        explained = refl;
        reasons = length-named _ (first ∷ others);
      })
    ]

pub checked-ok : (m d : Decided) → checked m ≡ ok d → m ≡ d
unfolding checked
checked-ok m d h =
    let (p, q) =
      step-ok (raise_if (is_empty m.1.decision_id) (value_error "decision_id is required")) _ d h in
    let (r, s) =
      step-ok (raise_if (is_empty m.1.binding_id) (value_error "binding_id is required")) _ d q in
    cc s

module _ (digest : DecisionKey → String) (through_float : Decimal → Decimal)
    (weight_text : Decimal → String) where
  decide_priority-IsRecorded :
      (c : StrategyComposer) (call : Call) (first : SignalCandidate) (others : List SignalCandidate)
      → IsRecorded (decide_priority digest through_float weight_text c call first others)
  unfolding decide_priority
  decide_priority-IsRecorded c call first others =
      elim (Bool-cases (all_agree in_direction first others)) [
        | inl e ↦ rw e (record {
          winning = refl;
          abstained = refl;
          explained = refl;
          reasons = length-named _ _;
        })
        | inr e ↦ rw e (record {
          winning = refl;
          abstained = refl;
          explained = refl;
          reasons = length-named _ (first ∷ others);
        })
      ]

  decide_by_score-IsRecorded :
      (score : Decimal) (call : Call) (first : SignalCandidate) (others : List SignalCandidate)
      → IsRecorded (decide_by_score digest through_float weight_text score call first others)
  unfolding decide_by_score
  decide_by_score-IsRecorded score call first others = elim (Bool-cases (is_zero score)) [
    | inl e ↦ rw e (record {
      winning = refl;
      abstained = refl;
      explained = refl;
      reasons = length-named _ (first ∷ others);
    })
    | inr e ↦ rw e (record {
      winning = refl;
      abstained = refl;
      explained = refl;
      reasons = length-named _ others;
    })
  ]

  by_policy-IsRecorded :
      (p : ConflictPolicy) (c : StrategyComposer) (call : Call) (first : SignalCandidate)
      (others : List SignalCandidate)
      → IsRecorded (by_policy digest through_float weight_text p c call first others)
  unfolding by_policy decide_weighted
  by_policy-IsRecorded priority_max_confidence c call first others =
      decide_priority-IsRecorded c call first others
  by_policy-IsRecorded unanimous c call first others = decide_unanimous-IsRecorded call first others
  by_policy-IsRecorded score_weighted c call first others =
      decide_by_score-IsRecorded
        (weigh digest through_float weight_text (pos 0) (first ∷ others) c.weights) call first
        others

  decide_among-IsRecorded :
      (c : StrategyComposer) (call : Call) (candidates : List SignalCandidate)
      → IsRecorded (decide_among digest through_float weight_text c call candidates)
  unfolding decide_among
  decide_among-IsRecorded c call [] = record {
    winning = refl;
    abstained = refl;
    explained = refl;
    reasons = refl;
  }
  decide_among-IsRecorded c call (only ∷ []) = record {
    winning = refl;
    abstained = refl;
    explained = refl;
    reasons = refl;
  }
  decide_among-IsRecorded c call (first ∷ second ∷ others) =
      by_policy-IsRecorded c.policy c call first (second ∷ others)

  -- Under every policy, what `decide` returns is recorded: the winning candidates of the decision
  -- are the one that is emitted or none, it abstains with a reason exactly if none is, and it has
  -- a reason for each rejected candidate.
  pub decide-IsRecorded :
      (c : StrategyComposer) (bar : MarketBar) (snapshot : FeatureSnapshot)
      (regime : Option MarketRegime) (binding_id : String) (now : Datetime) (d : Decided)
      → decide digest through_float weight_text c bar snapshot regime binding_id now ≡ ok d
      → IsRecorded d
  unfolding decide
  decide-IsRecorded c bar snapshot regime binding_id now d h =
      subst IsRecorded (checked-ok _ d h)
        (decide_among-IsRecorded c _ (collect c.runtimes bar snapshot regime))
