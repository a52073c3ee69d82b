-- ===== src/Tests/Composer.antt =====
-- Two strategies that agree on a bar, and two that the weighted policy sums up.
use invest_quant_system.Prelude.{String, ◌≡◌, refl, false, none, some, [], ◌∷◌}
use invest_quant_system.Prelude.Int.{◌+ℤ◌}
use invest_quant_system.Prelude.Decimal.{Decimal, mul_dec, whole, digits_behind}
use invest_quant_system.Prelude.Text.{is_empty}
use invest_quant_system.Prelude.Sort.{keep}
use invest_quant_system.Prelude.Lists.{All}
use invest_quant_system.Prelude.Result.{ok, is_ok}
use invest_quant_system.Contracts.Signals.{
  SignalCandidate, Direction, SignalAction, validate_candidate,
}
use invest_quant_system.Strategies.Composer.{
  ConflictPolicy, priority_max_confidence, score_weighted, StrategyRuntime, StrategyComposer,
  DecisionKey, Decided, collect, priority_of,
}
use invest_quant_system.Strategies.Composer.Policies.{decide, decide_among, call_of, weigh}
use invest_quant_system.Strategies.Composer.Recorded.{IsRecorded, decide-IsRecorded}
use invest_quant_system.Strategies.Composer.Agreement.{decide_agrees}
use invest_quant_system.Strategies.Composer.Weighted.{weighted_sale_refused}
use invest_quant_system.Tests.Data.{utc, candidate, snapshot, bar}

abbrev key_name : DecisionKey → String
key_name k = k.symbol

abbrev exact : Decimal → Decimal
exact x = x

abbrev no_text : Decimal → String
no_text x = ""

-- a strategy that always proposes the candidate
abbrev proposes : String → Direction → Decimal → StrategyRuntime
proposes name direction score = record {
  name = name;
  on_bar = λ b s r.
      some (record candidate { strategy_name = name; direction = direction; score = score });
}

abbrev composer : ConflictPolicy → Direction → StrategyComposer
composer policy second = record {
  runtimes =
      proposes "momentum" Direction.buy (digits_behind 8 1)
      ∷ proposes "fade" second (digits_behind 9 1)
      ∷ [];
  weights = whole 1 ∷ whole 2 ∷ [];
  policy = policy;
}

abbrev agreeing : StrategyComposer
agreeing = composer priority_max_confidence Direction.buy

-- the candidate of the strategy that comes first
abbrev emitted : SignalCandidate
emitted = record candidate { reason_codes = "momentum" ∷ "AGGREGATED:fade" ∷ [] }

abbrev decided : Decided
decided =
    decide_among key_name exact no_text agreeing
      (call_of key_name exact no_text agreeing bar "binding" (utc 400))
      (collect agreeing.runtimes bar snapshot none)

decides : decide key_name exact no_text agreeing bar snapshot none "binding" (utc 400) ≡ ok decided
unfolding decide is_empty
decides = refl

decide-IsRecorded_example : IsRecorded decided
decide-IsRecorded_example =
    decide-IsRecorded key_name exact no_text agreeing bar snapshot none "binding" (utc 400) decided
      decides

decide_agrees_example :
    All
      (λ (p : SignalCandidate). p.direction ≡ Direction.buy)
      (collect agreeing.runtimes bar snapshot none)
unfolding decide_among collect priority_of keep
decide_agrees_example =
    decide_agrees key_name exact no_text agreeing bar snapshot none "binding" (utc 400) decided
      emitted refl decides refl

abbrev weighing : StrategyComposer
weighing = composer score_weighted Direction.sell

weighted_sale_refused_example :
    (d : Decided) × (decide key_name exact no_text weighing bar snapshot none "binding" (utc 400)
      ≡ ok d)
    × (w : SignalCandidate) × (d.0 ≡ some w)
    × (w.direction ≡ Direction.sell)
    × (w.signal_action ≡ SignalAction.buy)
    × (is_ok (validate_candidate w) ≡ false)
unfolding weigh collect ◌+ℤ◌ mul_dec is_empty
weighted_sale_refused_example =
    weighted_sale_refused key_name exact no_text weighing bar snapshot none "binding" (utc 400)
      (record candidate {
        strategy_name = "momentum";
        direction = Direction.buy;
        score = digits_behind 8 1;
      })
      (record candidate {
        strategy_name = "fade";
        direction = Direction.sell;
        score = digits_behind 9 1;
      })
      [] refl refl refl refl refl refl
