-- ===== src/Contracts/Signals/Valid.antt =====
-- `SignalEvent.validate`: a valid event looks at nothing after its own time.
use invest_quant_system.Prelude.{◌<◌, ◌≤◌, ◌≡◌, ◌≢◌, Option, none, some, arith}
use invest_quant_system.Prelude.Lists.{All}
use invest_quant_system.Prelude.Int.{pos, ◌<ℤ◌}
use invest_quant_system.Prelude.Result.{ok, >>-ok}
use invest_quant_system.Contracts.Moment.{IsUtc, Datetime}
use invest_quant_system.Contracts.Checks.{require_all_utc, require_all_utc-ok}
use invest_quant_system.Contracts.Features.{
  FeatureSnapshot, MarketRegime, snapshot_visible_at, regime_visible_at,
}
use invest_quant_system.Contracts.Signals.{
  SignalEvent, Direction, increase_long, validate_event, check_event, check_regime, event_times,
}

-- The snapshot was generated, and its data dated, at or before the time.
pub record IsVisible (s : FeatureSnapshot) (t : Datetime) : Type 0 where
  pub generated : s.generated_at.instant ≤ t.instant
  pub dated : s.market_data_time.instant ≤ t.instant

abbrev pub IsRegimeVisible : Option MarketRegime → Datetime → Type 0
IsRegimeVisible none t = Unit
IsRegimeVisible (some r) t =
    (r.generated_at.instant ≤ t.instant) × (r.market_data_time.instant ≤ t.instant)

pub record IsSound (s : SignalEvent) : Type 0 where
  pub times : All (λ f. IsUtc f.0) (event_times s)
  pub data_before_event : s.market_data_time.instant ≤ s.event_time.instant
  pub event_before_execution : s.event_time.instant < s.executable_time.instant
  pub price_positive : pos 0 <ℤ s.reference_price
  pub no_short : s.direction ≡ Direction.sell → s.exposure_effect ≢ increase_long
  pub features_visible : IsVisible s.feature_snapshot s.event_time
  pub regime_visible : IsRegimeVisible s.market_regime s.event_time

snapshot_visible_at-ok :
    (s : FeatureSnapshot) (t : Datetime) → snapshot_visible_at s t ≡ ok tt → IsVisible s t
unfolding snapshot_visible_at
snapshot_visible_at-ok s t h = ground arith

check_regime-ok :
    (r : Option MarketRegime) (t : Datetime) → check_regime r t ≡ ok tt → IsRegimeVisible r t
unfolding check_regime regime_visible_at
check_regime-ok none t h = tt
check_regime-ok (some r) t h = ground arith

-- What `check_event` leaves of the claim.
record IsChecked (s : SignalEvent) : Type 0 where
  data_before_event : s.market_data_time.instant ≤ s.event_time.instant
  event_before_execution : s.event_time.instant < s.executable_time.instant
  price_positive : pos 0 <ℤ s.reference_price
  no_short : s.direction ≡ Direction.sell → s.exposure_effect ≢ increase_long

check_event-ok : (s : SignalEvent) → check_event s ≡ ok tt → IsChecked s
unfolding check_event
check_event-ok s h = record {
  data_before_event = ground arith;
  event_before_execution = ground arith;
  price_positive = ground arith;
  no_short = λ p q. ground arith;
}

-- A `SignalEvent` that validates has all its times in UTC, a positive reference price, uses market
-- data, features and a regime (if it has one) from no later than its event time, can be executed
-- only after that time, and does not raise the long exposure if its direction is SELL.
pub validate_event-IsSound : (s : SignalEvent) → validate_event s ≡ ok tt → IsSound s
unfolding validate_event
validate_event-IsSound s h =
    let (times, h₁) = >>-ok (require_all_utc (event_times s)) _ h in
    let (event, h₂) = >>-ok (check_event s) _ h₁ in
    let (features, regime) = >>-ok (snapshot_visible_at s.feature_snapshot s.event_time) _ h₂ in
    let c = check_event-ok s event in
    record {
      times = require_all_utc-ok (event_times s) times;
      data_before_event = c.data_before_event;
      event_before_execution = c.event_before_execution;
      price_positive = c.price_positive;
      no_short = c.no_short;
      features_visible = snapshot_visible_at-ok s.feature_snapshot s.event_time features;
      regime_visible = check_regime-ok s.market_regime s.event_time regime;
    }
