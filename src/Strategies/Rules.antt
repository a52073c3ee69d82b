-- ===== src/Strategies/Rules.antt =====
-- strategies/runtime.py: the baseline rule strategy. A float is read as a `Decimal`; `float(s)` of a
-- text is the platform's.
pub mod Proposals
use invest_quant_system.Prelude.{
  ◌*◌, String, Bool, true, false, ◌&&◌, Option, none, some, List, [], ◌∷◌,
}
use invest_quant_system.Prelude.Tests.{String_discrete, if◌then◌else◌}
use invest_quant_system.Prelude.Int.{ℤ, pos, negsuc, is_negative, ltb_ℤ, leb_ℤ}
use invest_quant_system.Prelude.Decimal.{Decimal, one_unit, magnitude, signed, digits_behind}
use invest_quant_system.Prelude.Text.{is_empty}
use invest_quant_system.Prelude.Dict
use invest_quant_system.Prelude.Result.{Result, ok, err, type_error, ◌>>=◌, ◌>>◌}
use invest_quant_system.Contracts.Features.{
  FeatureSnapshot, MarketRegime, FeatureValue, float_value, int_value, text_value, missing,
}
use invest_quant_system.Contracts.Market.Bar
use invest_quant_system.Contracts.Market.Bar.{MarketBar}
use invest_quant_system.Contracts.Signals.{
  SignalCandidate, Direction, SignalAction, ExposureEffect, increase_long, decrease_long,
}
use invest_quant_system.Features.{Platform}

pub record RuleStrategyRuntime : Type 0 where
  pub strategy_name : String
  pub strategy_version : String
  pub code_version : String
  pub parameter_hash : String
  pub horizon_seconds : ℤ
  pub breakout_volume_ratio : Decimal
  pub pullback_threshold : Decimal
  pub spike_threshold : Decimal

-- what a rule says of a bar
pub record Verdict : Type 0 where
  pub direction : Direction
  pub action : SignalAction
  pub exposure : ExposureEffect
  pub score : Decimal
  pub confidence : Decimal
  pub reason : String

abbrev pub breakout : Verdict
breakout = record {
  direction = Direction.buy;
  action = SignalAction.buy;
  exposure = increase_long;
  score = digits_behind 70 2;
  confidence = digits_behind 60 2;
  reason = "VOLUME_BREAKOUT";
}

abbrev pub pullback : Verdict
pullback = record {
  direction = Direction.sell;
  action = SignalAction.risk_avoid;
  exposure = decrease_long;
  score = digits_behind 60 2;
  confidence = digits_behind 55 2;
  reason = "PULLBACK_RISK";
}

abbrev pub spike : Verdict
spike = record {
  direction = Direction.sell;
  action = SignalAction.reduce_long;
  exposure = decrease_long;
  score = digits_behind 65 2;
  confidence = digits_behind 55 2;
  reason = "SPIKE_FADE_RISK";
}

-- `_candidate`
unfoldable pub candidate_of :
    RuleStrategyRuntime
    → MarketBar
    → FeatureSnapshot
    → Option MarketRegime
    → Verdict
    → SignalCandidate
candidate_of r bar snapshot regime v = record {
  symbol = bar.symbol;
  direction = v.direction;
  signal_action = v.action;
  exposure_effect = v.exposure;
  market_data_time = bar.market_data_time;
  reference_price = bar.close_price;
  score = v.score;
  confidence = v.confidence;
  horizon_seconds = r.horizon_seconds;
  reason_codes = v.reason ∷ [];
  invalid_condition = none;
  feature_snapshot = snapshot;
  market_regime = regime;
  strategy_name = r.strategy_name;
  strategy_version = r.strategy_version;
  feature_version = snapshot.feature_version;
  code_version = r.code_version;
  parameter_hash = r.parameter_hash;
  data_source_version = bar.data_source_version;
  as_of_version = bar.as_of_version;
}

-- `float(n)`
abbrev int_to_float : ℤ → Decimal
int_to_float n = signed (is_negative n) (magnitude n * one_unit)

abbrev pub has_flags : List String → Bool
has_flags [] = false
has_flags (f ∷ fs) = true

-- which of the rules holds, the first that does
unfoldable pub verdict_of : RuleStrategyRuntime → Bool → Decimal → Decimal → Option Verdict
verdict_of r broke_out return_1 ma_distance =
    if broke_out && ltb_ℤ (pos 0) return_1
    then some breakout
    else if leb_ℤ return_1 r.pullback_threshold && ltb_ℤ ma_distance (pos 0)
    then some pullback
    else if leb_ℤ r.spike_threshold return_1 && ltb_ℤ (pos 0) ma_distance
    then some spike
    else none

unfoldable pub proposed :
    RuleStrategyRuntime
    → MarketBar
    → FeatureSnapshot
    → Option MarketRegime
    → Option Verdict
    → Option SignalCandidate
unfolding candidate_of
proposed r bar snapshot regime none = none
proposed r bar snapshot regime (some v) = some (candidate_of r bar snapshot regime v)

module _ (platform : Platform) where
  -- `float(x)`
  unfoldable pub number : FeatureValue → Result Decimal
  number (float_value d) = ok d
  number (int_value n) = ok (int_to_float n)
  number (text_value s) = platform.parse_float s
  number missing = err (type_error "float() argument must be a string or a real number")

  -- `float(features.get(…) or 0.0)`
  unfoldable pub number_or_zero : Option FeatureValue → Result Decimal
  unfolding number
  number_or_zero none = ok (pos 0)
  number_or_zero (some missing) = ok (pos 0)
  number_or_zero (some (float_value d)) = ok d
  number_or_zero (some (int_value n)) = ok (int_to_float n)
  number_or_zero (some (text_value s)) = if is_empty s then ok (pos 0) else platform.parse_float s

  -- `volume_ratio is not None and float(volume_ratio) >= self.breakout_volume_ratio`
  unfoldable pub breaks_out : Option FeatureValue → Decimal → Result Bool
  unfolding number
  breaks_out none least = ok false
  breaks_out (some missing) least = ok false
  breaks_out (some v) least = number v >>= λ ratio. ok (leb_ℤ least ratio)

  unfoldable pub judge : RuleStrategyRuntime → FeatureSnapshot → Result (Option Verdict)
  unfolding number_or_zero breaks_out verdict_of String_discrete
  judge r snapshot = do
    return_1 ← number_or_zero (Dict.get String_discrete snapshot.features "return_1")
    ma_distance ← number_or_zero (Dict.get String_discrete snapshot.features "ma_distance")
    broke_out ←
        breaks_out (Dict.get String_discrete snapshot.features "volume_ratio")
          r.breakout_volume_ratio
    ok (verdict_of r broke_out return_1 ma_distance)

  -- what follows the validation of the bar
  unfoldable pub propose :
      Bool
      → RuleStrategyRuntime
      → MarketBar
      → FeatureSnapshot
      → Option MarketRegime
      → Result (Option SignalCandidate)
  unfolding judge proposed
  propose true r bar snapshot regime = ok none
  propose false r bar snapshot regime =
      judge r snapshot >>= λ v. ok (proposed r bar snapshot regime v)

  unfoldable pub on_bar :
      RuleStrategyRuntime
      → MarketBar
      → FeatureSnapshot
      → Option MarketRegime
      → Result (Option SignalCandidate)
  unfolding propose
  on_bar r bar snapshot regime =
      Bar.validate bar true >> propose (has_flags snapshot.missing_data_flags) r bar snapshot regime
