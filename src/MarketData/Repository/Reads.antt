-- ===== src/MarketData/Repository/Reads.antt =====
-- `read_bars`: the stored bars that the query asks for, all of them, in the order of their times.
use mathlib.Core.List.{Mem, mem-map_of_mem}
use mathlib.Core.List.Perm
use invest_quant_system.Prelude.{◌≤◌, ◌≡◌, ap, ◌∙◌, true, some, List, [], ◌∷◌, arith}
use invest_quant_system.Prelude.Lists.{All}
use invest_quant_system.Prelude.Dict.{get-mem, values}
use invest_quant_system.Prelude.Sort.{
  keep, keep-All, mem-keep, by_key, IsSorted, sort_by-IsSorted, sort_by-perm, sort_by-All,
}
use invest_quant_system.Contracts.Market.Bar.{
  MarketBar, VersionKey, VersionKey_discrete, version_key,
}
use invest_quant_system.Contracts.Market.Bar.Valid.{IsWellFormed}
use invest_quant_system.MarketData.Repository.{
  MarketRepository, Query, is_wanted, entry_wanted, bar_instant, read_bars,
}
use invest_quant_system.MarketData.Repository.AppendOnly.{IsFiled, IsValid, stored}

-- What the query asks of a bar.
pub record IsAnswer (q : Query) (b : MarketBar) : Type 0 where
  pub symbol : b.symbol ≡ q.symbol
  pub timeframe : b.timeframe ≡ q.timeframe
  pub not_before : q.from_time.instant ≤ b.market_data_time.instant
  pub not_after : b.market_data_time.instant ≤ q.to_time.instant
  pub data_source_version : b.data_source_version ≡ q.data_source_version
  pub as_of_version : b.as_of_version ≡ q.as_of_version
  pub well_formed : IsWellFormed b

wanted-IsAnswer :
    (q : Query) (b : MarketBar) → is_wanted q (version_key b) ≡ true → IsWellFormed b → IsAnswer q b
wanted-IsAnswer q b h w = record {
  symbol = ground arith;
  timeframe = ground arith;
  not_before = ground arith;
  not_after = ground arith;
  data_source_version = ground arith;
  as_of_version = ground arith;
  well_formed = w;
}

answer-is_wanted : (q : Query) (b : MarketBar) → IsAnswer q b → is_wanted q (version_key b) ≡ true
answer-is_wanted q b a = ground arith

All-values :
    (q : Query) (xs : List (VersionKey × MarketBar))
    → All (λ e. IsAnswer q e.1) xs
    → All (IsAnswer q) (values xs)
All-values q [] h = tt
All-values q (x ∷ xs) h = (h.0, All-values q xs h.1)

-- If the stored bars are well formed and under their keys, every bar that `read_bars` returns is
-- well formed and is one that the query asks for: of its
-- symbol, timeframe and versions, and dated within its bounds.
read_bars-IsAnswer :
    (r : MarketRepository) (q : Query) → IsValid r → All (IsAnswer q) (read_bars r q)
unfolding read_bars
read_bars-IsAnswer r q h =
    sort_by-All bar_instant (IsAnswer q) (values (keep (entry_wanted q) r.bars)) (
      All-values q (keep (entry_wanted q) r.bars) (
        keep-All (entry_wanted q) (λ e. IsFiled e.0 e.1) (λ e. IsAnswer q e.1)
          (λ e f w. wanted-IsAnswer q e.1 (ap (is_wanted q) f.key ∙ w) f.well_formed) r.bars h))

-- The bars come in the order of their times, and every stored bar that the query asks for is
-- among them.
pub read_bars_complete :
    (r : MarketRepository) (q : Query)
    → IsSorted (by_key bar_instant) (read_bars r q)
      × ((b : MarketBar) → stored r (version_key b) ≡ some b → IsAnswer q b → Mem b (read_bars r q))
unfolding read_bars
read_bars_complete r q = (
  sort_by-IsSorted bar_instant _,
  λ b e a. (Perm.mem_iff (sort_by-perm bar_instant (values (keep (entry_wanted q) r.bars)))).1 (
      mem-map_of_mem (λ (e : VersionKey × MarketBar). e.1)
        (mem-keep (entry_wanted q) (version_key b, b) r.bars (answer-is_wanted q b a)
          (get-mem VersionKey_discrete r.bars (version_key b) b e))),
)
