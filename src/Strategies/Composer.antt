-- ===== src/Strategies/Composer.antt =====
-- strategies/composer.py and strategies/composer_decision.py: several strategies over one closed
-- bar, reduced to at most one candidate, and the record of the decision. The arguments are the
-- digest of the id, `Decimal(str(float(x)))`, and the text of a weighted score.
pub mod Policies
pub mod Decisions
pub mod Recorded
pub mod Agreement
pub mod Weighted
use invest_quant_system.Prelude.{
  ℕ, suc, ◌+◌, ◌-◌, String, Bool, true, false, not, ◌&&◌, ◌||◌, Option, none, some, List, [], ◌∷◌,
  ◌++◌, map, ite,
}
use invest_quant_system.Prelude.Tests.{ltb, leb, ◌==◌, String_discrete, if◌then◌else◌}
use invest_quant_system.Prelude.Int.{pos, ◌+ℤ◌, neg_ℤ, ltb_ℤ, leb_ℤ}
use invest_quant_system.Prelude.Decimal.{Decimal, mul_dec}
use invest_quant_system.Prelude.Text.{is_empty, text_append}
use invest_quant_system.Prelude.Lists.{length}
use invest_quant_system.Prelude.Sort.{keep, sort}
use invest_quant_system.Prelude.Result.{
  Result, ok, err, value_error, composer_conflict, raise_if, ◌>>◌,
}
use invest_quant_system.Contracts.Moment.{Datetime}
use invest_quant_system.Contracts.Market.Bar.{MarketBar}
use invest_quant_system.Contracts.Features.{FeatureSnapshot, MarketRegime}
use invest_quant_system.Contracts.Signals.{SignalCandidate, Direction, SignalAction}

pub data ConflictPolicy : Type 0 where
  priority_max_confidence unanimous score_weighted : ConflictPolicy

-- a strategy, by its name and what it proposes for a bar
pub record StrategyRuntime : Type 0 where
  pub name : String
  pub on_bar : MarketBar → FeatureSnapshot → Option MarketRegime → Option SignalCandidate

pub record StrategyComposer : Type 0 where
  pub runtimes : List StrategyRuntime
  pub weights : List Decimal
  pub policy : ConflictPolicy

abbrev conflict_if : Bool → String → Result (Unit {0})
conflict_if b message = raise_if b (composer_conflict message)

abbrev some_not_positive : List Decimal → Bool
some_not_positive [] = false
some_not_positive (w ∷ ws) = leb_ℤ w (pos 0) || some_not_positive ws

abbrev unaligned : StrategyComposer → Bool
unaligned c = not (length c.weights == length c.runtimes)

abbrev has_weights : StrategyComposer → Bool
has_weights c = ltb 0 (length c.weights)

unfoldable pub check_weights : ConflictPolicy → StrategyComposer → Result (Unit {0})
check_weights score_weighted c =
    conflict_if (unaligned c) "SCORE_WEIGHTED policy requires one weight per runtime"
    >> conflict_if (some_not_positive c.weights) "SCORE_WEIGHTED weights must be positive"
check_weights _ c =
    conflict_if (has_weights c && unaligned c)
      "weights, when provided, must align with the runtimes tuple"

-- `StrategyComposer.__post_init__`
unfoldable pub check_composer : StrategyComposer → Result (Unit {0})
unfolding check_weights
check_composer c =
    conflict_if (leb (length c.runtimes) 0) "StrategyComposer requires at least one runtime"
    >> check_weights c.policy c

pub record ComposerDecision : Type 0 where
  pub schema_version : String
  pub decision_id : String
  pub binding_id : String
  pub market_data_time : Datetime
  pub symbol : String
  pub policy : ConflictPolicy
  pub winning_candidates : List SignalCandidate
  pub abstained : Bool
  pub abstention_reason : Option String
  pub rejected_candidates : List SignalCandidate
  pub rejection_reasons : List String
  pub created_at : Datetime

-- what `_composer_decision_id` digests
pub record DecisionKey : Type 0 where
  pub binding_id : String
  pub market_data_time : Datetime
  pub symbol : String
  pub policy : ConflictPolicy

-- what every decision of a call has
pub record Call : Type 0 where
  pub key : DecisionKey
  pub decision_id : String
  pub now : Datetime

abbrev pub Decided : Type 0
Decided = Option SignalCandidate × ComposerDecision

abbrev pub decision :
    Call
    → List SignalCandidate
    → Bool
    → Option String
    → List SignalCandidate
    → List String
    → ComposerDecision
decision call winning abstained reason rejected reasons = record {
  schema_version = "composer-decision-v1";
  decision_id = call.decision_id;
  binding_id = call.key.binding_id;
  market_data_time = call.key.market_data_time;
  symbol = call.key.symbol;
  policy = call.key.policy;
  winning_candidates = winning;
  abstained = abstained;
  abstention_reason = reason;
  rejected_candidates = rejected;
  rejection_reasons = reasons;
  created_at = call.now;
}

-- `f"{prefix}{cand.strategy_name}" for cand in candidates`
abbrev pub named : String → List SignalCandidate → List String
named prefix = map (λ (c : SignalCandidate). text_append prefix c.strategy_name)

-- a candidate that won with more reason codes
abbrev pub with_codes : SignalCandidate → List String → SignalCandidate
with_codes c codes = record c { reason_codes = c.reason_codes ++ codes }

abbrev pub abstain : Call → String → String → List SignalCandidate → Decided
abstain call reason prefix candidates =
    (none, decision call [] true (some reason) candidates (named prefix candidates))

abbrev pub same_direction : Direction → Direction → Bool
same_direction Direction.sell Direction.sell = true
same_direction Direction.hold Direction.hold = true
same_direction Direction.buy Direction.buy = true
same_direction _ _ = false

abbrev pub same_action : SignalAction → SignalAction → Bool
same_action SignalAction.buy SignalAction.buy = true
same_action SignalAction.reduce_long SignalAction.reduce_long = true
same_action SignalAction.clear_long SignalAction.clear_long = true
same_action SignalAction.risk_avoid SignalAction.risk_avoid = true
same_action SignalAction.hold SignalAction.hold = true
same_action _ _ = false

-- every candidate agrees with the first
unfoldable pub all_agree :
    (SignalCandidate → SignalCandidate → Bool) → SignalCandidate → List SignalCandidate → Bool
all_agree agree first [] = true
all_agree agree first (c ∷ cs) = agree c first && all_agree agree first cs

abbrev pub in_direction : SignalCandidate → SignalCandidate → Bool
in_direction c first = same_direction c.direction first.direction

abbrev pub in_action : SignalCandidate → SignalCandidate → Bool
in_action c first = in_direction c first && same_action c.signal_action first.signal_action

-- a candidate with its place, which tells two objects apart
abbrev pub Placed : Type 0
Placed = ℕ × SignalCandidate

unfoldable pub placed : ℕ → List SignalCandidate → List Placed
placed n [] = []
placed n (c ∷ cs) = (n, c) ∷ placed (suc n) cs

abbrev pub head_or : Placed → List Placed → Placed
head_or first [] = first
head_or first (p ∷ ps) = p

abbrev elsewhere : ℕ → Placed → Bool
elsewhere place p = not (p.0 == place)

abbrev pub others_than : ℕ → List SignalCandidate → List SignalCandidate
others_than place candidates =
    map (λ (p : Placed). p.1) (keep (elsewhere place) (placed 0 candidates))

-- `_priority_of`, over the runtimes from some place on
unfoldable pub priority_from : List StrategyRuntime → String → ℕ
unfolding String_discrete
priority_from [] name = 0
priority_from (r ∷ rs) name =
    ite (String_discrete r.name name) (length (r ∷ rs)) (priority_from rs name)

unfoldable pub priority_of : StrategyComposer → String → ℕ
unfolding priority_from
priority_of c name = priority_from c.runtimes name

abbrev pub with_proposal : Option SignalCandidate → List SignalCandidate → List SignalCandidate
with_proposal none candidates = candidates
with_proposal (some c) candidates = c ∷ candidates

unfoldable pub collect :
    List StrategyRuntime → MarketBar → FeatureSnapshot → Option MarketRegime → List SignalCandidate
collect [] bar snapshot regime = []
collect (r ∷ rs) bar snapshot regime =
    with_proposal (r.on_bar bar snapshot regime) (collect rs bar snapshot regime)
