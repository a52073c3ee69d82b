-- ===== src/Features.antt =====
-- features/engine.py: the engine that turns the closed bars of a symbol into features. What it takes
-- from the standard library is a `Platform`; its clock is read once for each bar, as `now`.
pub mod Ordered
pub mod Windows
use invest_quant_system.Prelude.{
  ℕ, zero, suc, String, Bool, true, false, Option, none, some, List, [], ◌∷◌, ◌++◌,
}
use invest_quant_system.Prelude.Tests.{ltb, String_discrete, if◌then◌else◌}
use invest_quant_system.Prelude.Int.{pos, ◌+ℤ◌, ◌-ℤ◌}
use invest_quant_system.Prelude.Decimal.{Decimal, whole, div_dec}
use invest_quant_system.Prelude.Lists.{length, last_n}
use invest_quant_system.Prelude.Text.{text_append}
use invest_quant_system.Prelude.Dict
use invest_quant_system.Prelude.Dict.{Dict}
use invest_quant_system.Prelude.Sort.{sort_by}
use invest_quant_system.Prelude.Result.{Result, ok, err}
use invest_quant_system.Contracts.Moment.{Datetime}
use invest_quant_system.Contracts.Features.{FeatureSnapshot, FeatureValue, float_value, missing}
use invest_quant_system.Contracts.Market.Bar
use invest_quant_system.Contracts.Market.Bar.{MarketBar}

-- the texts that the snapshot's id digests
pub record SnapshotKey : Type 0 where
  pub symbol : String
  pub market_data_time : Datetime
  pub feature_version : String
  pub input_range : String

-- `float(x)` as the decimal of the float, `float(s)` of a text, `isoformat`, the text of a count,
-- and the digest
pub record Platform : Type 0 where
  pub to_float : Decimal → Decimal
  pub parse_float : String → Result Decimal
  pub isoformat : Datetime → String
  pub count_text : ℕ → String
  pub snapshot_digest : SnapshotKey → String

pub record RollingFeatureEngine : Type 0 where
  pub feature_version : String
  pub lookback : ℕ
  pub bars_by_symbol : Dict String (List MarketBar)

abbrev pub new_engine : ℕ → RollingFeatureEngine
new_engine lookback = record {
  feature_version = "rolling-feature-v1";
  lookback = lookback;
  bars_by_symbol = [];
}

abbrev pub or_empty : Option (List MarketBar) → List MarketBar
or_empty none = []
or_empty (some bars) = bars

abbrev pub bars_of : RollingFeatureEngine → String → List MarketBar
bars_of e symbol = or_empty (Dict.get String_discrete e.bars_by_symbol symbol)

abbrev pub bar_time : MarketBar → ℕ
bar_time b = b.market_data_time.instant

-- `bars.append(bar)`, `bars.sort(key=…)`
unfoldable pub with_bar : List MarketBar → MarketBar → List MarketBar
with_bar bars bar = sort_by bar_time (bars ++ bar ∷ [])

-- `bars[-lookback:]`, which for 0 is all of them
unfoldable pub window_of : ℕ → List MarketBar → List MarketBar
window_of zero bars = bars
window_of (suc n) bars = last_n (suc n) bars

-- `window[-2].close_price if len(window) >= 2 else close`
unfoldable pub previous_close : Decimal → List MarketBar → Decimal
previous_close close [] = close
previous_close close (b ∷ []) = close
previous_close close (b ∷ c ∷ []) = b.close_price
previous_close close (b ∷ c ∷ d ∷ bs) = previous_close close (c ∷ d ∷ bs)

abbrev pub sum_dec : List Decimal → Decimal
sum_dec [] = pos 0
sum_dec (x ∷ xs) = x +ℤ sum_dec xs

-- `_avg`; there is none of an empty list
unfoldable pub avg : List Decimal → Option Decimal
avg values = div_dec (sum_dec values) (whole (length values))

abbrev pub volumes : List MarketBar → List Decimal
volumes [] = []
volumes (b ∷ bs) = elim b.volume [ none ↦ volumes bs | some v ↦ v ∷ volumes bs ]

abbrev pub closes : List MarketBar → List Decimal
closes [] = []
closes (b ∷ bs) = b.close_price ∷ closes bs

abbrev pub first_or : MarketBar → List MarketBar → MarketBar
first_or bar [] = bar
first_or bar (b ∷ bs) = b

abbrev pub last_or : MarketBar → List MarketBar → MarketBar
last_or bar [] = bar
last_or bar (b ∷ []) = b
last_or bar (b ∷ c ∷ bs) = last_or bar (c ∷ bs)

module _ (platform : Platform) where
  -- `float(x / y) if y else 0.0`
  abbrev pub ratio_or_zero : Option Decimal → Decimal
  ratio_or_zero none = pos 0
  ratio_or_zero (some q) = platform.to_float q

  -- `float((close - base) / base) if base else 0.0`
  unfoldable pub change_from : Decimal → Decimal → Decimal
  change_from close base = ratio_or_zero (div_dec (close -ℤ base) base)

  abbrev pub distance : Decimal → Option Decimal → Decimal
  distance close none = pos 0
  distance close (some base) = change_from close base

  abbrev pub ratio_value : Option Decimal → FeatureValue
  ratio_value none = missing
  ratio_value (some q) = float_value (platform.to_float q)

  -- `float(volume / average)`, unless one is None or the average is 0
  unfoldable pub volume_ratio : Option Decimal → Option Decimal → FeatureValue
  volume_ratio none average = missing
  volume_ratio (some volume) none = missing
  volume_ratio (some volume) (some average) = ratio_value (div_dec volume average)

  abbrev pub flags : ℕ → List MarketBar → List String
  flags lookback window = if ltb (length window) lookback then "INSUFFICIENT_LOOKBACK" ∷ [] else []

  abbrev pub input_range : MarketBar → List MarketBar → String
  input_range bar window =
      text_append (platform.isoformat (first_or bar window).market_data_time)
        (text_append ".." (platform.isoformat (last_or bar window).market_data_time))

  unfoldable pub snapshot_of :
      RollingFeatureEngine → MarketBar → List MarketBar → Datetime → FeatureSnapshot
  unfolding previous_close avg change_from volume_ratio
  snapshot_of e bar window now =
      let range = input_range bar window in
      record {
        schema_version = "feature-snapshot-v1";
        feature_snapshot_id = platform.snapshot_digest (record {
          symbol = bar.symbol;
          market_data_time = bar.market_data_time;
          feature_version = e.feature_version;
          input_range = range;
        });
        symbol = bar.symbol;
        market_data_time = bar.market_data_time;
        generated_at = now;
        feature_version = e.feature_version;
        lookback_window = text_append (platform.count_text (length window)) "bars";
        features =
            (
              "return_1",
              float_value (change_from bar.close_price (previous_close bar.close_price window)),
            )
            ∷ ("volume_ratio", volume_ratio bar.volume (avg (volumes window)))
            ∷ ("ma_distance", float_value (distance bar.close_price (avg (closes window))))
            ∷ ("close", float_value (platform.to_float bar.close_price))
            ∷ [];
        missing_data_flags = flags e.lookback window;
        input_bar_range = range;
      }

  abbrev pub Outcome : Type 0
  Outcome = Result FeatureSnapshot × RollingFeatureEngine

  -- behind the validation of the bar
  abbrev pub update_checked :
      Result (Unit {0}) → RollingFeatureEngine → MarketBar → Datetime → Outcome
  update_checked (err raised) e bar now = (err raised, e)
  update_checked (ok checked) e bar now =
      let bars = with_bar (bars_of e bar.symbol) bar in
      (
        ok (snapshot_of e bar (window_of e.lookback bars) now),
        record e { bars_by_symbol = Dict.put String_discrete e.bars_by_symbol bar.symbol bars },
      )

  unfoldable pub update_closed_bar : RollingFeatureEngine → MarketBar → Datetime → Outcome
  unfolding with_bar window_of snapshot_of
  update_closed_bar e bar now = update_checked (Bar.validate bar true) e bar now
