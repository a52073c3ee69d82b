-- ===== src/Evaluation/Evaluator/Accepted.antt =====
-- The evaluation of a task against the store of evaluations.
use invest_quant_system.Prelude.{
  String, ◌≡◌, ◌≢◌, ◌&&◌, refl, ap, sym, ◌∙◌, false, none, some, arith, List,
}
use invest_quant_system.Prelude.Int.{ℤ, pos, leb_ℤ, ◌<ℤ◌}
use invest_quant_system.Prelude.Dict
use invest_quant_system.Prelude.Dict.{get-put_self}
use invest_quant_system.Prelude.Result.{ok, err, signal_conflict}
use invest_quant_system.Contracts.Moment.{Datetime, IsUtc, require_aware_utc_of_IsUtc}
use invest_quant_system.Contracts.Evaluation.{
  EvaluationTask, SignalEvaluation, EvaluationKey_discrete, evaluation_key, validate_evaluation,
  is_completed, is_none,
}
use invest_quant_system.Contracts.Signals.{SignalEvent}
use invest_quant_system.Contracts.Market.Bar.{MarketBar}
use invest_quant_system.MarketData.Repository.{MarketRepository, read_bars}
use invest_quant_system.Signals.Repository.{
  SignalRepository, get_signal, duplicate, upsert_evaluation, inserted,
}
use invest_quant_system.Signals.Repository.Evaluations.{evaluation_at, upsert_new, upsert_conflict}
use invest_quant_system.Evaluation.Findings.{Evaluator, Findings}
use invest_quant_system.Evaluation.Evaluator.{RunKey, in_utc, path_query, evaluation_of, evaluate}
use invest_quant_system.Evaluation.Evaluator.Results.{
  IsFound, no_path, not_filled, filled_at, IsEvaluationOf, evaluate-IsEvaluationOf,
}

-- Findings that are completed have a price.
found-evaluation_price :
    (v : Evaluator) (s : SignalEvent) (path : List MarketBar) (f : Findings)
    → IsFound v s path f
    → (is_completed f.status && is_none f.evaluation_price) ≡ false
found-evaluation_price v s path f (no_path e p q) = rw p refl
found-evaluation_price v s path f (not_filled e p q) = rw p refl
found-evaluation_price v s path f (filled_at b bs bar e i p) =
    rw (p.status, p.evaluation_price) refl

positive_horizon : (h : ℤ) → pos 0 <ℤ h → leb_ℤ h (pos 0) ≡ false
positive_horizon h p = ground arith

module _ (digest : RunKey → String) where
  -- What an evaluation needs to be valid: UTC times and a horizon.
  pub record IsProper (s : SignalEvent) (t : EvaluationTask) (now : Datetime) : Type 0 where
    pub due : IsUtc t.due_time
    pub executable : IsUtc s.executable_time
    pub created : IsUtc now
    pub horizon : pos 0 <ℤ t.horizon_seconds

  in_utc-IsUtc : (now : Datetime) → IsUtc now → IsUtc (in_utc now)
  in_utc-IsUtc now h = rw h refl

  in_utc-instant : (now : Datetime) → IsUtc now → (in_utc now).instant ≡ now.instant
  in_utc-instant now h = rw h refl

  evaluation_of-valid :
      (v : Evaluator) (s : SignalEvent) (t : EvaluationTask) (path : List MarketBar) (f : Findings)
      (now : Datetime)
      → IsProper s t now
      → IsFound v s path f
      → validate_evaluation (evaluation_of digest v s t f now) ≡ ok tt
  unfolding validate_evaluation evaluation_of
  evaluation_of-valid v s t path f now p i =
      rw
        (
          require_aware_utc_of_IsUtc t.due_time "evaluation_time" p.due,
          require_aware_utc_of_IsUtc s.executable_time "executable_time" p.executable,
          require_aware_utc_of_IsUtc (in_utc now) "created_at" (in_utc-IsUtc now p.created),
          found-evaluation_price v s path f i,
          positive_horizon t.horizon_seconds p.horizon,
        )
        refl

  -- The signal of the task, if the store has it, and what its evaluation needs.
  abbrev pub IsReady : SignalRepository → EvaluationTask → Datetime → Type 0
  IsReady signals t now =
      (s : SignalEvent) → get_signal signals t.signal_id ≡ ok s → IsProper s t now

  evaluate-valid :
      (v : Evaluator) (signals : SignalRepository) (market : MarketRepository) (t : EvaluationTask)
      (timeframe : String) (now : Datetime) (e : SignalEvaluation)
      → IsReady signals t now
      → evaluate digest v signals market t timeframe now ≡ ok e
      → validate_evaluation e ≡ ok tt
  evaluate-valid v signals market t timeframe now e ready h =
      let x = evaluate-IsEvaluationOf digest v signals market t timeframe now e h in
      rw x.built (
        evaluation_of-valid v x.signal t (read_bars market (path_query x.signal t timeframe))
          x.findings now (ready x.signal x.known) x.found)

  -- The evaluation that `evaluate` returns for a task with a positive horizon, in UTC, is inserted
  -- by the store if its key is new there, and inserting it again is answered as a duplicate.
  pub evaluate_inserted :
      (v : Evaluator) (signals : SignalRepository) (market : MarketRepository) (t : EvaluationTask)
      (timeframe : String) (now : Datetime) (e : SignalEvaluation)
      → IsReady signals t now
      → evaluate digest v signals market t timeframe now ≡ ok e
      → evaluation_at signals e ≡ none
      → ((upsert_evaluation e signals).0 ≡ ok inserted)
        × (upsert_evaluation e (upsert_evaluation e signals).1
            ≡ (ok duplicate, (upsert_evaluation e signals).1))
  evaluate_inserted v signals market t timeframe now e ready h new =
      upsert_new e signals (evaluate-valid v signals market t timeframe now e ready h) new

  -- the time at which an evaluation says that it was created
  evaluate-created_at :
      (v : Evaluator) (signals : SignalRepository) (market : MarketRepository) (t : EvaluationTask)
      (timeframe : String) (now : Datetime) (e : SignalEvaluation)
      → IsUtc now
      → IsEvaluationOf digest v signals market t timeframe now e
      → e.created_at.instant ≡ now.instant
  unfolding evaluation_of
  evaluate-created_at v signals market t timeframe now e u x =
      ap (λ (y : SignalEvaluation). y.created_at.instant) x.built ∙ in_utc-instant now u

  same_key :
      (v : Evaluator) (signals : SignalRepository) (market : MarketRepository) (t : EvaluationTask)
      (timeframe : String) (now now' : Datetime) (e e' : SignalEvaluation)
      → IsEvaluationOf digest v signals market t timeframe now e
      → IsEvaluationOf digest v signals market t timeframe now' e'
      → evaluation_key e' ≡ evaluation_key e
  unfolding evaluation_of
  same_key v signals market t timeframe now now' e e' x y =
      ap evaluation_key y.built ∙ sym (ap evaluation_key x.built)

  -- Two evaluations of one ready task at two times have one key and differ, so that the store that
  -- holds the first refuses the second and is as before.
  reevaluation_conflicts :
      (v : Evaluator) (signals : SignalRepository) (market : MarketRepository) (t : EvaluationTask)
      (timeframe : String) (now now' : Datetime) (e e' : SignalEvaluation)
      → IsReady signals t now
      → IsReady signals t now'
      → evaluate digest v signals market t timeframe now ≡ ok e
      → evaluate digest v signals market t timeframe now' ≡ ok e'
      → now.instant ≢ now'.instant
      → evaluation_at signals e ≡ some e
      → upsert_evaluation e' signals
        ≡ (err (signal_conflict "SignalEvaluation idempotency conflict"), signals)
  reevaluation_conflicts v signals market t timeframe now now' e e' ready ready' h h' differ held =
      let x = evaluate-IsEvaluationOf digest v signals market t timeframe now e h in
      let y = evaluate-IsEvaluationOf digest v signals market t timeframe now' e' h' in
      let p =
        evaluate-created_at v signals market t timeframe now e (ready x.signal x.known).created x in
      let q =
        evaluate-created_at v signals market t timeframe now' e' (ready' y.signal y.known).created
          y in
      upsert_conflict e e' signals (evaluate-valid v signals market t timeframe now' e' ready' h')
        (ap (Dict.get EvaluationKey_discrete signals.evaluations)
            (same_key v signals market t timeframe now now' e e' x y)
          ∙ held)
        (λ z. differ (sym p ∙ ap (λ (e : SignalEvaluation). e.created_at.instant) z ∙ q))
