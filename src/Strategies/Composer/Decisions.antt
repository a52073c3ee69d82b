-- ===== src/Strategies/Composer/Decisions.antt =====
-- strategies/composer_decision.py: the append-only store of decisions.
use invest_quant_system.Prelude.{ℕ, String, ite, Option, none, some, List}
use invest_quant_system.Prelude.Tests.{String_discrete}
use invest_quant_system.Prelude.Lists.{length}
use invest_quant_system.Prelude.Dict
use invest_quant_system.Prelude.Dict.{Dict, values}
use invest_quant_system.Prelude.Sort.{keep, sort_by}
use invest_quant_system.Prelude.Result.{Result, ok, err, decision_conflict}
use invest_quant_system.Contracts.Moment.{Datetime_discrete}
use invest_quant_system.Contracts.Signals.{SignalCandidate_discrete}
use invest_quant_system.Universe.{same}
use invest_quant_system.Strategies.Composer.{ComposerDecision, ConflictPolicy}

pub record DecisionRepository : Type 0 where
  pub records : Dict String ComposerDecision

ConflictPolicy_discrete : Discrete ConflictPolicy
ConflictPolicy_discrete = hlevel

-- `existing != decision`, the dataclass's equality
unfoldable pub ComposerDecision_discrete : Discrete ComposerDecision
unfolding ConflictPolicy_discrete SignalCandidate_discrete String_discrete Datetime_discrete
ComposerDecision_discrete =
    hlevel (ConflictPolicy_discrete, SignalCandidate_discrete, String_discrete, Datetime_discrete)

abbrev Outcome : Type 0
Outcome = Result ComposerDecision × DecisionRepository

unfoldable append_over : Option ComposerDecision → ComposerDecision → DecisionRepository → Outcome
append_over none d r =
    (ok d, record { records = Dict.put String_discrete r.records d.decision_id d })
append_over (some existing) d r =
    ite (ComposerDecision_discrete existing d) (ok existing, r)
      (err (decision_conflict "same decision_id with different content"), r)

-- `append`
unfoldable pub append_decision : ComposerDecision → DecisionRepository → Outcome
unfolding append_over
append_decision d r = append_over (Dict.get String_discrete r.records d.decision_id) d r

-- `get`
unfoldable pub get_decision : DecisionRepository → String → Option ComposerDecision
get_decision r decision_id = Dict.get String_discrete r.records decision_id

abbrev by_time : List ComposerDecision → List ComposerDecision
by_time = sort_by (λ (d : ComposerDecision). d.market_data_time.instant)

unfoldable pub all_decisions : DecisionRepository → List ComposerDecision
unfolding sort_by
all_decisions r = by_time (values r.records)

unfoldable pub list_for_binding : DecisionRepository → String → List ComposerDecision
unfolding sort_by String_discrete
list_for_binding r binding_id =
    by_time (keep (λ (d : ComposerDecision). same d.binding_id binding_id) (values r.records))

unfoldable pub list_for_symbol : DecisionRepository → String → List ComposerDecision
unfolding sort_by String_discrete
list_for_symbol r symbol =
    by_time (keep (λ (d : ComposerDecision). same d.symbol symbol) (values r.records))

-- `__len__`
unfoldable pub decision_count : DecisionRepository → ℕ
decision_count r = length r.records
