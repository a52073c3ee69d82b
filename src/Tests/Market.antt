-- ===== src/Tests/Market.antt =====
-- A bar that is saved, read and replayed.
use mathlib.Core.List.{Mem}
use invest_quant_system.Prelude.{◌≡◌, refl, ◌↔◌, ℕ_discrete, true, none, some, [], ◌∷◌}
use invest_quant_system.Prelude.Tests.{String_discrete}
use invest_quant_system.Prelude.Int.{ℤ_discrete}
use invest_quant_system.Prelude.Text.{is_blank, is_space}
use invest_quant_system.Prelude.Dict.{get}
use invest_quant_system.Prelude.Sort.{IsSorted, by_key}
use invest_quant_system.Prelude.Result.{ok}
use invest_quant_system.Contracts.Moment.{require_aware_utc, require_offset, Datetime_discrete}
use invest_quant_system.Contracts.Checks.{
  require_texts, require_all_utc, require_non_negative, require_all_non_negative,
}
use invest_quant_system.Contracts.Market.Bar
use invest_quant_system.Contracts.Market.Bar.{
  MarketBar, version_key, VersionKey_discrete, check_times, check_range,
}
use invest_quant_system.Contracts.Market.Bar.Valid.{IsWellFormed, validate-IsWellFormed_iff}
use invest_quant_system.MarketData.Repository.{
  MarketRepository, raise, save_bar, Query, read_bars, bar_instant,
}
use invest_quant_system.MarketData.Repository.AppendOnly.{stored, IsValid, save_bar-keeps}
use invest_quant_system.MarketData.Repository.Reads.{IsAnswer, read_bars_complete}
use invest_quant_system.MarketData.Replay.{read}
use invest_quant_system.MarketData.Replay.Order.{IsRising, read-IsRising}
use invest_quant_system.Tests.Data.{utc, bar}

abbrev one_bar : MarketRepository
one_bar = record { duplicate_policy = raise; bars = (version_key bar, bar) ∷ []; quarantine = [] }

abbrev revised : MarketBar
revised = record bar { close_price = bar.open_price }

abbrev query : Query
query = record {
  symbol = "600000";
  from_time = utc 0;
  to_time = utc 600;
  timeframe = "5m";
  data_source_version = "v1";
  as_of_version = "v1";
}

bar_validates : Bar.validate bar true ≡ ok tt
unfolding Bar.validate require_texts is_blank is_space require_all_utc require_aware_utc
    require_offset ℤ_discrete check_times require_all_non_negative require_non_negative check_range
bar_validates = refl

bar-IsWellFormed : IsWellFormed bar
bar-IsWellFormed = (validate-IsWellFormed_iff bar).0 bar_validates

stored_bar : stored one_bar (version_key bar) ≡ some bar
unfolding get VersionKey_discrete String_discrete Datetime_discrete ℕ_discrete ℤ_discrete
stored_bar = refl

one_bar-IsValid : IsValid one_bar
one_bar-IsValid = (record { key = refl; well_formed = bar-IsWellFormed }, tt)

validate-IsWellFormed_iff_example : (Bar.validate bar true ≡ ok tt) ↔ IsWellFormed bar
validate-IsWellFormed_iff_example = validate-IsWellFormed_iff bar

save_bar-keeps_example : stored (save_bar revised (utc 400) one_bar).1 (version_key bar) ≡ some bar
save_bar-keeps_example = save_bar-keeps revised (utc 400) one_bar (version_key bar) bar stored_bar

read_bars_complete_example :
    IsSorted (by_key bar_instant) (read_bars one_bar query)
    × ((b : MarketBar)
        → stored one_bar (version_key b) ≡ some b
        → IsAnswer query b
        → Mem b (read_bars one_bar query))
read_bars_complete_example = read_bars_complete one_bar query

read-IsRising_example :
    IsRising none (read one_bar query).bars
    × (IsRising none (read_bars one_bar query)
        → read one_bar query ≡ record { bars = read_bars one_bar query; raised = none })
read-IsRising_example = read-IsRising one_bar query
