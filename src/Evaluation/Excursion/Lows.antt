-- ===== src/Evaluation/Excursion/Lows.antt =====
-- What the times of the extremes look at, for a purchase.
use invest_quant_system.Prelude.{◌≡◌, refl, inl, inr, Option, none, some, List, [], ◌∷◌, map}
use invest_quant_system.Prelude.Tests.{Bool-cases}
use invest_quant_system.Prelude.Int.{ℤ}
use invest_quant_system.Prelude.Decimal.{Decimal}
use invest_quant_system.Prelude.Result.{Result-cases}
use invest_quant_system.Contracts.Moment.{Datetime}
use invest_quant_system.Contracts.Market.Bar.{MarketBar}
use invest_quant_system.Contracts.Signals.{Direction}
use invest_quant_system.Evaluation.Fill.{seconds_between}
use invest_quant_system.Evaluation.Excursion.{Prefer, improves, delta, time_from, time_to_extreme}

-- The bar with another low.
abbrev pub with_low : Decimal → MarketBar → MarketBar
with_low x b = record b { low_price = x }

delta-with_low :
    (base x : Decimal) (b : MarketBar)
    → delta Direction.buy base (with_low x b) ≡ delta Direction.buy base b
unfolding delta
delta-with_low base x b = refl

time_from-with_low :
    (p : Prefer) (base x : Decimal) (start : Datetime) (best : Option Decimal) (at : Option ℤ)
    (bs : List MarketBar)
    → time_from p Direction.buy base start best at (map (with_low x) bs)
      ≡ time_from p Direction.buy base start best at bs
unfolding time_from
time_from-with_low p base x start best at [] = refl
time_from-with_low p base x start best at (b ∷ bs) =
    elim (Result-cases (delta Direction.buy base b)) [
      | inr (e, q) ↦ rw (delta-with_low base x b, q) refl
      | inl (d, q) ↦ elim (Bool-cases (improves p d best)) [
        | inl better ↦
            rw (delta-with_low base x b, q, better)
              (time_from-with_low p base x start (some d)
                (some (seconds_between b.market_data_time start)) bs)
        | inr worse ↦
            rw (delta-with_low base x b, q, worse) (time_from-with_low p base x start best at bs)
      ]
    ]

-- For a purchase neither `time_to_mfe_seconds` nor `time_to_mae_seconds` depends on the lows of the
-- path: `_time_to_extreme` answers the same when every low is replaced.
pub time_to_extreme-with_low :
    (p : Prefer) (base x : Decimal) (b : MarketBar) (bs : List MarketBar)
    → time_to_extreme p Direction.buy base (with_low x b) (map (with_low x) bs)
      ≡ time_to_extreme p Direction.buy base b bs
unfolding time_to_extreme
time_to_extreme-with_low p base x b bs =
    time_from-with_low p base x b.market_data_time none none (b ∷ bs)
