-- ===== src/MarketData/Replay.antt =====
-- market_data/replay.py: a generator over the bars of a read. It is the list of the bars that it
-- yields, and the error that it raises behind them, if any.
pub mod Order
use invest_quant_system.Prelude.{ℕ, String, Bool, true, false, Option, none, some, List, [], ◌∷◌}
use invest_quant_system.Prelude.Tests.{leb, if◌then◌else◌}
use invest_quant_system.Prelude.Result.{Result, Error, ok, err, market_data_validation}
use invest_quant_system.Contracts.Moment.{Datetime}
use invest_quant_system.Contracts.Market.Bar
use invest_quant_system.Contracts.Market.Bar.{MarketBar}
use invest_quant_system.MarketData.Repository.{MarketRepository, Query, read_bars}

pub record Replayed : Type 0 where
  pub bars : List MarketBar
  pub raised : Option Error

abbrev stop : Error → Replayed
stop e = record { bars = []; raised = some e }

abbrev yield_bar : MarketBar → Replayed → Replayed
yield_bar b rest = record rest { bars = b ∷ rest.bars }

-- `previous_time is not None and bar.market_data_time <= previous_time`
abbrev is_stale : Option ℕ → ℕ → Bool
is_stale none t = false
is_stale (some previous) t = leb t previous

-- one round of the loop, on what `bar.validate` says and on the rest of the generator
abbrev emit : Result (Unit {0}) → Option ℕ → MarketBar → Replayed → Replayed
emit (err e) previous b rest = stop e
emit (ok _) previous b rest =
    if is_stale previous b.market_data_time.instant
    then stop (market_data_validation "replay source emitted non-increasing bars")
    else yield_bar b rest

unfoldable pub replay_from : Option ℕ → List MarketBar → Replayed
replay_from previous [] = record { bars = []; raised = none }
replay_from previous (b ∷ bs) =
    emit (Bar.validate b true) previous b (replay_from (some b.market_data_time.instant) bs)

unfoldable pub read : MarketRepository → Query → Replayed
unfolding replay_from
read r q = replay_from none (read_bars r q)
