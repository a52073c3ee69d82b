-- ===== src/Strategies/Composer/Policies.antt =====
-- strategies/composer.py: the three policies, and `decide`.
use invest_quant_system.Prelude.{
  String, Bool, true, false, ◌||◌, ◌&&◌, Option, none, some, List, [], ◌∷◌,
}
use invest_quant_system.Prelude.Tests.{ltb, ◌==◌, if◌then◌else◌}
use invest_quant_system.Prelude.Int.{pos, ◌+ℤ◌, neg_ℤ, ltb_ℤ, leb_ℤ}
use invest_quant_system.Prelude.Decimal.{Decimal, mul_dec}
use invest_quant_system.Prelude.Text.{is_empty, text_append}
use invest_quant_system.Prelude.Sort.{sort}
use invest_quant_system.Prelude.Result.{Result, ok, value_error, raise_if, ◌>>◌}
use invest_quant_system.Contracts.Moment.{Datetime}
use invest_quant_system.Contracts.Market.Bar.{MarketBar}
use invest_quant_system.Contracts.Features.{FeatureSnapshot, MarketRegime}
use invest_quant_system.Contracts.Signals.{SignalCandidate, Direction}
use invest_quant_system.Strategies.Composer.{
  ConflictPolicy, priority_max_confidence, unanimous, score_weighted, StrategyComposer, DecisionKey,
  Call, Decided, decision, named, with_codes, abstain, all_agree, in_direction, in_action, Placed,
  placed, head_or, others_than, priority_of, collect,
}

-- `_decide_unanimous`
unfoldable pub decide_unanimous : Call → SignalCandidate → List SignalCandidate → Decided
unfolding all_agree
decide_unanimous call first others =
    if all_agree in_action first others
    then (let winner = with_codes first (named "UNANIMOUS:" others) in
        (some winner, decision call (winner ∷ []) false none [] []))
    else abstain call "ABSTAIN_UNANIMOUS_FAILED" "DIRECTION_OR_ACTION_DISAGREEMENT:"
        (first ∷ others)

-- `ComposerDecision.__post_init__`, and the return
unfoldable pub checked : Decided → Result Decided
checked decided =
    raise_if (is_empty decided.1.decision_id) (value_error "decision_id is required")
    >> (raise_if (is_empty decided.1.binding_id) (value_error "binding_id is required")
        >> ok decided)

abbrev pub is_zero : Decimal → Bool
is_zero score = leb_ℤ score (pos 0) && leb_ℤ (pos 0) score

abbrev pub winner_direction : Decimal → Direction
winner_direction score = if ltb_ℤ (pos 0) score then Direction.buy else Direction.sell

module _ (digest : DecisionKey → String) (through_float : Decimal → Decimal)
    (weight_text : Decimal → String) where
  -- the sort key: the higher priority first, then the higher confidence
  abbrev pub ranked : StrategyComposer → Placed → Placed → Bool
  ranked c p q =
      ltb (priority_of c q.1.strategy_name) (priority_of c p.1.strategy_name)
      || (priority_of c p.1.strategy_name == priority_of c q.1.strategy_name)
        && leb_ℤ (through_float q.1.confidence) (through_float p.1.confidence)

  -- `ordered[0]`
  unfoldable pub first_ranked : StrategyComposer → SignalCandidate → List SignalCandidate → Placed
  unfolding sort placed
  first_ranked c first others = head_or (0, first) (sort (ranked c) (placed 0 (first ∷ others)))

  abbrev pub won : Call → Placed → List SignalCandidate → Decided
  won call w candidates =
      let rest = others_than w.0 candidates in
      let winner = with_codes w.1 (named "AGGREGATED:" rest) in
      (
        some winner,
        decision call (winner ∷ []) false none rest (named "NOT_HIGHEST_PRIORITY:" rest),
      )

  -- `_decide_priority_max_confidence`
  unfoldable pub decide_priority :
      StrategyComposer → Call → SignalCandidate → List SignalCandidate → Decided
  unfolding all_agree first_ranked
  decide_priority c call first others =
      if all_agree in_direction first others
      then won call (first_ranked c first others) (first ∷ others)
      else abstain call "ABSTAIN_DIRECTION_CONFLICT" "DIRECTION_CONFLICT:" (first ∷ others)

  unfoldable pub signed_score : Direction → Decimal → Decimal
  signed_score Direction.buy score = through_float score
  signed_score Direction.hold score = pos 0
  signed_score Direction.sell score = neg_ℤ (through_float score)

  -- the loop over `zip(candidates, weights)`
  unfoldable pub weigh : Decimal → List SignalCandidate → List Decimal → Decimal
  unfolding signed_score
  weigh total [] weights = total
  weigh total (c ∷ cs) [] = total
  weigh total (c ∷ cs) (w ∷ ws) =
      weigh (total +ℤ mul_dec (signed_score c.direction c.score) w) cs ws

  abbrev pub weighted_winner : SignalCandidate → Decimal → SignalCandidate
  weighted_winner anchor score =
      record (with_codes anchor (text_append "WEIGHTED_SCORE:" (weight_text score) ∷ [])) {
        direction = winner_direction score;
      }

  unfoldable pub decide_by_score : Decimal → Call → SignalCandidate → List SignalCandidate → Decided
  decide_by_score score call anchor others =
      if is_zero score
      then abstain call "ABSTAIN_WEIGHTED_ZERO" "WEIGHTED_SCORE_ZERO:" (anchor ∷ others)
      else (let winner = weighted_winner anchor score in
          (some winner, decision call (winner ∷ []) false none others (named "NOT_ANCHOR:" others)))

  -- `_decide_score_weighted`
  unfoldable pub decide_weighted :
      StrategyComposer → Call → SignalCandidate → List SignalCandidate → Decided
  unfolding weigh decide_by_score
  decide_weighted c call anchor others =
      decide_by_score (weigh (pos 0) (anchor ∷ others) c.weights) call anchor others

  unfoldable pub by_policy :
      ConflictPolicy → StrategyComposer → Call → SignalCandidate → List SignalCandidate → Decided
  unfolding decide_priority decide_unanimous decide_weighted
  by_policy priority_max_confidence c = decide_priority c
  by_policy unanimous c = decide_unanimous
  by_policy score_weighted c = decide_weighted c

  unfoldable pub decide_among : StrategyComposer → Call → List SignalCandidate → Decided
  unfolding by_policy
  decide_among c call [] = (none, decision call [] true (some "NO_CANDIDATES") [] [])
  decide_among c call (only ∷ []) = (some only, decision call (only ∷ []) false none [] [])
  decide_among c call (first ∷ second ∷ others) = by_policy c.policy c call first (second ∷ others)

  abbrev pub call_of : StrategyComposer → MarketBar → String → Datetime → Call
  call_of c bar binding_id now =
      let key : DecisionKey = record {
        binding_id = binding_id;
        market_data_time = bar.market_data_time;
        symbol = bar.symbol;
        policy = c.policy;
      } in
      record { key = key; decision_id = digest key; now = now }

  -- `StrategyComposer.decide`
  unfoldable pub decide :
      StrategyComposer
      → MarketBar
      → FeatureSnapshot
      → Option MarketRegime
      → String
      → Datetime
      → Result Decided
  unfolding decide_among checked collect
  decide c bar snapshot regime binding_id now =
      checked
        (decide_among c (call_of c bar binding_id now) (collect c.runtimes bar snapshot regime))
