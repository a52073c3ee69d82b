-- ===== src/Signals/Repository/Evaluations.antt =====
-- `upsert_evaluation` of a valid evaluation: new, the same again, and another under its key.
use invest_quant_system.Prelude.{◌≡◌, ◌≢◌, refl, ◌∙◌, Option, none, some, arith}
use invest_quant_system.Prelude.Dict
use invest_quant_system.Prelude.Dict.{get-put_self}
use invest_quant_system.Prelude.Result.{ok, err, signal_conflict}
use invest_quant_system.Contracts.Evaluation.{
  SignalEvaluation, EvaluationKey_discrete, evaluation_key, validate_evaluation,
}
use invest_quant_system.Signals.Repository.{
  SignalRepository, upsert_evaluation, upsert_checked, inserted, duplicate,
}

abbrev pub evaluation_at : SignalRepository → SignalEvaluation → Option SignalEvaluation
evaluation_at r e = Dict.get EvaluationKey_discrete r.evaluations (evaluation_key e)

upsert_valid :
    (e : SignalEvaluation) (r : SignalRepository) (o : Option SignalEvaluation)
    → validate_evaluation e ≡ ok tt
    → evaluation_at r e ≡ o
    → upsert_evaluation e r ≡ upsert_checked o e r
unfolding upsert_evaluation
upsert_valid e r o valid held = rw (valid, held) refl

checked_same :
    (e : SignalEvaluation) (r : SignalRepository) → upsert_checked (some e) e r ≡ (ok duplicate, r)
unfolding upsert_checked
checked_same e r = ground arith

checked_other :
    (existing e : SignalEvaluation) (r : SignalRepository)
    → existing ≢ e
    → upsert_checked (some existing) e r
      ≡ (err (signal_conflict "SignalEvaluation idempotency conflict"), r)
unfolding upsert_checked
checked_other existing e r other = ground arith

-- A valid evaluation whose key is new is inserted, and answered as a duplicate the next time.
pub upsert_new :
    (e : SignalEvaluation) (r : SignalRepository)
    → validate_evaluation e ≡ ok tt
    → evaluation_at r e ≡ none
    → ((upsert_evaluation e r).0 ≡ ok inserted)
      × (upsert_evaluation e (upsert_evaluation e r).1 ≡ (ok duplicate, (upsert_evaluation e r).1))
unfolding upsert_checked
upsert_new e r valid new = rw (upsert_valid e r none valid new) (
  refl,
  upsert_valid e (upsert_checked none e r).1 (some e) valid
        (get-put_self EvaluationKey_discrete r.evaluations (evaluation_key e) e)
      ∙ checked_same e (upsert_checked none e r).1,
)

pub upsert_conflict :
    (existing e : SignalEvaluation) (r : SignalRepository)
    → validate_evaluation e ≡ ok tt
    → evaluation_at r e ≡ some existing
    → existing ≢ e
    → upsert_evaluation e r ≡ (err (signal_conflict "SignalEvaluation idempotency conflict"), r)
upsert_conflict existing e r valid held other =
    upsert_valid e r (some existing) valid held ∙ checked_other existing e r other
