-- ===== src/Evaluation/Evaluator/Results.antt =====
-- What an evaluation says of the path and the fill.
use invest_quant_system.Prelude.{
  String, ◌≡◌, refl, ap, sym, ◌∙◌, inl, inr, true, none, some, List, [], ◌∷◌,
}
use invest_quant_system.Prelude.Tests.{Bool-cases, Option-cases}
use invest_quant_system.Prelude.Int.{◌-ℤ◌, max_ℤ, min_ℤ}
use invest_quant_system.Prelude.Decimal.{Decimal}
use invest_quant_system.Prelude.Result.{ok, bind-ok}
use invest_quant_system.Contracts.Moment.{Datetime, leb_time}
use invest_quant_system.Contracts.Market.Bar.{MarketBar}
use invest_quant_system.Contracts.Signals.{SignalEvent}
use invest_quant_system.Contracts.Evaluation.{
  EvaluationTask, completed, censored, postponed, SignalEvaluation,
}
use invest_quant_system.MarketData.Repository.{MarketRepository, read_bars}
use invest_quant_system.Signals.Repository.{SignalRepository, get_signal}
use invest_quant_system.Evaluation.Costs.{cost_rate}
use invest_quant_system.Evaluation.Fill.{
  FillResult, fill, fill_at, is_shut, IsFilledBy, fill-IsFilledBy,
}
use invest_quant_system.Evaluation.Excursion.{
  directed, relative, best_price, worst_price, extreme, excursion, prefer_max, prefer_min,
  time_to_extreme,
}
use invest_quant_system.Evaluation.Findings.{
  Evaluator, Findings, find, filled, priced, is_executable, last_bar,
}
use invest_quant_system.Evaluation.Evaluator.{RunKey, path_query, evaluation_of, evaluate}

-- The returns of findings at a price, over a path that starts with `b`.
pub record IsPriced (v : Evaluator) (s : SignalEvent) (price : Decimal) (b : MarketBar)
    (bs : List MarketBar) (f : Findings) : Type 0 where
  pub raw : Decimal
  pub raw_of : relative (last_bar b bs).close_price price ≡ ok raw
  pub raw_return : f.raw_return ≡ some raw
  pub direction_return : f.direction_return ≡ some (directed s.direction raw)
  pub net_return :
      f.net_return ≡ some (directed s.direction raw -ℤ cost_rate v.cost_model s.direction)
  pub evaluation_price : f.evaluation_price ≡ some (last_bar b bs).close_price
  pub executable_price : f.executable_price ≡ some price
  pub status : f.status ≡ completed

priced-IsPriced :
    (v : Evaluator) (s : SignalEvent) (x : FillResult) (price : Decimal) (b : MarketBar)
    (bs : List MarketBar) (f : Findings)
    → priced v s x price b bs ≡ ok f
    → IsPriced v s price b bs f
unfolding priced
priced-IsPriced v s x price b bs f h =
    let d = s.direction in
    let (raw, p, h₁) = bind-ok (relative (last_bar b bs).close_price price) _ f h in
    let (mfe, _, h₂) = bind-ok (extreme max_ℤ (excursion best_price d price) b bs) _ f h₁ in
    let (mae, _, h₃) = bind-ok (extreme min_ℤ (excursion worst_price d price) b bs) _ f h₂ in
    let (t, _, h₄) = bind-ok (time_to_extreme prefer_max d price b bs) _ f h₃ in
    let (u, _, h₅) = bind-ok (time_to_extreme prefer_min d price b bs) _ f h₄ in
    record {
      raw = raw;
      raw_of = p;
      raw_return = cc;
      direction_return = cc;
      net_return = cc;
      evaluation_price = cc;
      executable_price = cc;
      status = cc;
    }

-- The three outcomes of an evaluation over a path.
pub data IsFound (v : Evaluator) (s : SignalEvent) (path : List MarketBar) (f : Findings)
    : Type 0 where
  no_path : path ≡ [] → f.status ≡ postponed → f.evaluation_price ≡ none → IsFound v s path f
  not_filled :
      (fill s path).executable_price ≡ none
      → f.status ≡ censored
      → f.evaluation_price ≡ none
      → IsFound v s path f
  filled_at :
      (b : MarketBar) (bs : List MarketBar) (bar : MarketBar)
      → path ≡ b ∷ bs
      → IsFilledBy s path bar
      → IsPriced v s bar.open_price b bs f
      → IsFound v s path f

-- A fill with a price is executable.
fill-executable :
    (s : SignalEvent) (path : List MarketBar) (price : Decimal)
    → (fill s path).executable_price ≡ some price
    → is_executable (fill s path).execution_status ≡ true
unfolding fill fill_at
fill-executable s [] price h = cc
fill-executable s (c ∷ path) price h =
    elim (Bool-cases (leb_time s.executable_time c.market_data_time)) [
      | inr early ↦ rw early (fill-executable s path price (rw early at h))
      | inl late ↦ elim (Bool-cases (is_shut c.trading_status)) [
        | inl shut ↦ cc (rw (late, shut) at h)
        | inr open_ ↦ rw (late, open_) refl
      ]
    ]

filled-IsFound :
    (v : Evaluator) (s : SignalEvent) (x : FillResult) (b : MarketBar) (bs : List MarketBar)
    (f : Findings)
    → fill s (b ∷ bs) ≡ x
    → filled v s x b bs ≡ ok f
    → IsFound v s (b ∷ bs) f
unfolding filled
filled-IsFound v s x b bs f e h = elim (Option-cases x.executable_price) [
  | inl p ↦
      not_filled (ap (λ (y : FillResult). y.executable_price) e ∙ p) (cc (rw p at h))
        (cc (rw p at h))
  | inr (price, p) ↦
      let held = ap (λ (y : FillResult). y.executable_price) e ∙ p in
      let (bar, i, q) = fill-IsFilledBy s (b ∷ bs) price held in
      let ready =
        ap (λ (y : FillResult). is_executable y.execution_status) (sym e)
        ∙ fill-executable s (b ∷ bs) price held in
      filled_at b bs bar refl i
        (rw (sym q) (priced-IsPriced v s x price b bs f (rw (p, ready) at h)))
]

find-IsFound :
    (v : Evaluator) (s : SignalEvent) (path : List MarketBar) (f : Findings)
    → find v s path ≡ ok f
    → IsFound v s path f
unfolding find
find-IsFound v s [] f h = no_path refl (cc) (cc)
find-IsFound v s (b ∷ bs) f h = filled-IsFound v s (fill s (b ∷ bs)) b bs f refl h

module _ (digest : RunKey → String) where
  -- What an evaluation rests on.
  pub record IsEvaluationOf (v : Evaluator) (signals : SignalRepository) (market : MarketRepository)
      (t : EvaluationTask) (timeframe : String) (now : Datetime) (e : SignalEvaluation)
      : Type 0 where
    pub signal : SignalEvent
    pub findings : Findings
    pub known : get_signal signals t.signal_id ≡ ok signal
    pub found : IsFound v signal (read_bars market (path_query signal t timeframe)) findings
    pub built : e ≡ evaluation_of digest v signal t findings now

  -- An evaluation that `evaluate` returns is one of three, over the stored bars from the signal's
  -- executable time to the due time. Without a bar it is POSTPONED and has no evaluation price. If the
  -- fill has no price it is CENSORED and has no evaluation price either. Else it is COMPLETED: the executable price is the
  -- open of the bar that fills the signal, the evaluation price the close of the last bar, the
  -- returns are those from one to the other, and the net return is less by the cost of the side.
  pub evaluate-IsEvaluationOf :
      (v : Evaluator) (signals : SignalRepository) (market : MarketRepository) (t : EvaluationTask)
      (timeframe : String) (now : Datetime) (e : SignalEvaluation)
      → evaluate digest v signals market t timeframe now ≡ ok e
      → IsEvaluationOf v signals market t timeframe now e
  unfolding evaluate
  evaluate-IsEvaluationOf v signals market t timeframe now e h =
      let (s, known, h₁) = bind-ok (get_signal signals t.signal_id) _ e h in
      let (f, found, h₂) =
        bind-ok (find v s (read_bars market (path_query s t timeframe))) _ e h₁ in
      record {
        signal = s;
        findings = f;
        known = known;
        found = find-IsFound v s (read_bars market (path_query s t timeframe)) f found;
        built = cc;
      }
