-- ===== src/Strategies/Rules/Proposals.antt =====
-- What the rule strategy proposes: candidates that the signal service accepts.
use invest_quant_system.Prelude.{
  ◌≡◌, ◌⊎◌, inl, inr, refl, ap, ◌∙◌, Bool, true, false, ◌&&◌, Option, none, some,
}
use invest_quant_system.Prelude.Tests.{Bool-cases, and-split, String_discrete}
use invest_quant_system.Prelude.Int.{pos, ltb_ℤ, leb_ℤ}
use invest_quant_system.Prelude.Decimal.{Decimal}
use invest_quant_system.Prelude.Dict
use invest_quant_system.Prelude.Result.{ok, bind-ok, step-ok}
use invest_quant_system.Contracts.Moment.{IsUtc, require_aware_utc_of_IsUtc}
use invest_quant_system.Contracts.Features.{FeatureSnapshot, MarketRegime}
use invest_quant_system.Contracts.Market.Bar
use invest_quant_system.Contracts.Market.Bar.{MarketBar}
use invest_quant_system.Contracts.Market.Bar.Valid.{validate-IsWellFormed_iff}
use invest_quant_system.Contracts.Signals.{SignalCandidate, validate_candidate}
use invest_quant_system.Features.{Platform}
use invest_quant_system.Strategies.Rules.{
  RuleStrategyRuntime, Verdict, breakout, pullback, spike, candidate_of, has_flags, verdict_of,
  proposed, number_or_zero, breaks_out, judge, propose, on_bar,
}

-- the three verdicts, and what each says of the features
abbrev Holds : RuleStrategyRuntime → Bool → Decimal → Decimal → Verdict → Type 0
Holds r broke_out return_1 ma_distance v =
    ((v ≡ breakout) × (broke_out ≡ true) × (ltb_ℤ (pos 0) return_1 ≡ true))
    ⊎ ((v ≡ pullback)
        × (leb_ℤ return_1 r.pullback_threshold ≡ true)
        × (ltb_ℤ ma_distance (pos 0) ≡ true))
    ⊎ ((v ≡ spike) × (leb_ℤ r.spike_threshold return_1 ≡ true) × (ltb_ℤ (pos 0) ma_distance ≡ true))

verdict_of-Holds :
    (r : RuleStrategyRuntime) (b : Bool) (x m : Decimal) (v : Verdict)
    → verdict_of r b x m ≡ some v
    → Holds r b x m v
unfolding verdict_of
verdict_of-Holds r b x m v h = elim (Bool-cases (b && ltb_ℤ (pos 0) x)) [
  | inl e ↦ let (p, q) = and-split b (ltb_ℤ (pos 0) x) e in inl (cc (rw e at h), p, q)
  | inr e ↦
      let h₁ = rw e at h in
      elim (Bool-cases (leb_ℤ x r.pullback_threshold && ltb_ℤ m (pos 0))) [
        | inl f ↦
            let (p, q) = and-split (leb_ℤ x r.pullback_threshold) (ltb_ℤ m (pos 0)) f in
            inr (inl (cc (rw f at h₁), p, q))
        | inr f ↦
            let h₂ = rw f at h₁ in
            elim (Bool-cases (leb_ℤ r.spike_threshold x && ltb_ℤ (pos 0) m)) [
              | inl g ↦
                  let (p, q) = and-split (leb_ℤ r.spike_threshold x) (ltb_ℤ (pos 0) m) g in
                  inr (inr (cc (rw g at h₂), p, q))
              | inr g ↦ cc (rw g at h₂)
            ]
      ]
]

-- no sale among the verdicts is a purchase or adds to a position
candidate-valid :
    (r : RuleStrategyRuntime) (bar : MarketBar) (snapshot : FeatureSnapshot)
    (regime : Option MarketRegime) (b : Bool) (x m : Decimal) (v : Verdict)
    → Holds r b x m v
    → IsUtc bar.market_data_time
    → leb_ℤ bar.close_price (pos 0) ≡ false
    → leb_ℤ r.horizon_seconds (pos 0) ≡ false
    → validate_candidate (candidate_of r bar snapshot regime v) ≡ ok tt
unfolding validate_candidate candidate_of
candidate-valid r bar snapshot regime b x m v h u p q =
    let utc = require_aware_utc_of_IsUtc bar.market_data_time "market_data_time" u in
    elim h [
      | inl e ↦ rw (e.0) (rw utc (rw p (rw q refl)))
      | inr (inl e) ↦ rw (e.0) (rw utc (rw p (rw q refl)))
      | inr (inr e) ↦ rw (e.0) (rw utc (rw p (rw q refl)))
    ]

bar-IsUtc : (bar : MarketBar) → Bar.validate bar true ≡ ok tt → IsUtc bar.market_data_time
bar-IsUtc bar h = ((validate-IsWellFormed_iff bar).0 h).times.1.1.0

proposed-some :
    (r : RuleStrategyRuntime) (bar : MarketBar) (snapshot : FeatureSnapshot)
    (regime : Option MarketRegime) (o : Option Verdict) (c : SignalCandidate)
    → ok (proposed r bar snapshot regime o) ≡ ok (some c)
    → (v : Verdict) × (o ≡ some v) × (c ≡ candidate_of r bar snapshot regime v)
unfolding proposed
proposed-some r bar snapshot regime none c h = cc
proposed-some r bar snapshot regime (some v) c h = (v, refl, cc h)

module _ (platform : Platform) where
  judged :
      (r : RuleStrategyRuntime) (snapshot : FeatureSnapshot) (v : Verdict)
      → judge platform r snapshot ≡ ok (some v)
      → (return_1 ma_distance : Decimal) × (broke_out : Bool) × (number_or_zero platform
            (Dict.get String_discrete snapshot.features "return_1")
          ≡ ok return_1)
        × (number_or_zero platform (Dict.get String_discrete snapshot.features "ma_distance")
            ≡ ok ma_distance)
        × (breaks_out platform
              (Dict.get String_discrete snapshot.features "volume_ratio")
              r.breakout_volume_ratio
            ≡ ok broke_out)
        × (verdict_of r broke_out return_1 ma_distance ≡ some v)
  unfolding judge
  judged r snapshot v h =
      let (x, p, h₁) =
        bind-ok (number_or_zero platform (Dict.get String_discrete snapshot.features "return_1")) _
          (some v) h in
      let (m, q, h₂) =
        bind-ok (number_or_zero platform (Dict.get String_discrete snapshot.features "ma_distance"))
          _ (some v) h₁ in
      let (b, o, h₃) =
        bind-ok
          (breaks_out platform (Dict.get String_discrete snapshot.features "volume_ratio")
            r.breakout_volume_ratio)
          _ (some v) h₂ in
      (x, m, b, p, q, o, cc h₃)

  propose-some :
      (flag : Bool) (r : RuleStrategyRuntime) (bar : MarketBar) (snapshot : FeatureSnapshot)
      (regime : Option MarketRegime) (c : SignalCandidate)
      → propose platform flag r bar snapshot regime ≡ ok (some c)
      → (flag ≡ false)
        × (v : Verdict) × (judge platform r snapshot ≡ ok (some v))
        × (c ≡ candidate_of r bar snapshot regime v)
  unfolding propose
  propose-some true r bar snapshot regime c h = cc
  propose-some false r bar snapshot regime c h =
      let (o, j, h₁) = bind-ok (judge platform r snapshot) _ (some c) h in
      let (v, e, built) = proposed-some r bar snapshot regime o c h₁ in
      (refl, v, j ∙ ap ok e, built)

  -- What stands behind a candidate of the rule strategy: a complete window, the numbers that were
  -- read off the features, and the first rule that holds of them.
  pub record IsProposal (r : RuleStrategyRuntime) (bar : MarketBar) (snapshot : FeatureSnapshot)
      (regime : Option MarketRegime) (c : SignalCandidate) : Type 0 where
    pub complete : has_flags snapshot.missing_data_flags ≡ false
    pub return_1 : Decimal
    pub read_return :
        number_or_zero platform (Dict.get String_discrete snapshot.features "return_1")
        ≡ ok return_1
    pub ma_distance : Decimal
    pub read_distance :
        number_or_zero platform (Dict.get String_discrete snapshot.features "ma_distance")
        ≡ ok ma_distance
    pub broke_out : Bool
    pub read_ratio :
        breaks_out platform
          (Dict.get String_discrete snapshot.features "volume_ratio")
          r.breakout_volume_ratio
        ≡ ok broke_out
    pub verdict : Verdict
    pub holds : Holds r broke_out return_1 ma_distance verdict
    pub built : c ≡ candidate_of r bar snapshot regime verdict
    pub valid : validate_candidate c ≡ ok tt

  -- If `on_bar` returns a candidate, the close is positive and so is the horizon, then the features
  -- were complete, one of the three rules holds of them, and the candidate is that rule's for the bar,
  -- which `SignalCandidate.validate` accepts.
  pub on_bar-IsProposal :
      (r : RuleStrategyRuntime) (bar : MarketBar) (snapshot : FeatureSnapshot)
      (regime : Option MarketRegime) (c : SignalCandidate)
      → leb_ℤ bar.close_price (pos 0) ≡ false
      → leb_ℤ r.horizon_seconds (pos 0) ≡ false
      → on_bar platform r bar snapshot regime ≡ ok (some c)
      → IsProposal r bar snapshot regime c
  unfolding on_bar
  on_bar-IsProposal r bar snapshot regime c p q h =
      let (closed, h₁) = step-ok (Bar.validate bar true) _ (some c) h in
      let (complete, v, j, built) =
        propose-some (has_flags snapshot.missing_data_flags) r bar snapshot regime c h₁ in
      let (x, m, b, read, read', ratio, verdict) = judged r snapshot v j in
      let holds = verdict_of-Holds r b x m v verdict in
      record {
        complete = complete;
        return_1 = x;
        read_return = read;
        ma_distance = m;
        read_distance = read';
        broke_out = b;
        read_ratio = ratio;
        verdict = v;
        holds = holds;
        built = built;
        valid =
            rw built
              (candidate-valid r bar snapshot regime b x m v holds (bar-IsUtc bar closed) p q);
      }

  -- a candidate is of the time of the bar
  pub on_bar-time :
      (r : RuleStrategyRuntime) (bar : MarketBar) (snapshot : FeatureSnapshot)
      (regime : Option MarketRegime) (c : SignalCandidate)
      → on_bar platform r bar snapshot regime ≡ ok (some c)
      → c.market_data_time ≡ bar.market_data_time
  unfolding on_bar candidate_of
  on_bar-time r bar snapshot regime c h =
      let (closed, h₁) = step-ok (Bar.validate bar true) _ (some c) h in
      let (complete, v, j, built) =
        propose-some (has_flags snapshot.missing_data_flags) r bar snapshot regime c h₁ in
      ap (λ (x : SignalCandidate). x.market_data_time) built
