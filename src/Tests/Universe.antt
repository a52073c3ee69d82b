-- ===== src/Tests/Universe.antt =====
-- Two versions of a universe, one of which takes effect later, and the decision between.
use invest_quant_system.Prelude.{◌≡◌, refl, ◌≤◌, String, true, none, [], ◌∷◌, arith}
use invest_quant_system.Prelude.Dict
use invest_quant_system.Prelude.Result.{ok}
use invest_quant_system.Contracts.Moment.{Datetime, require_aware_utc}
use invest_quant_system.Universe.{
  UniverseSnapshot, UniverseRepository, UniverseKey_discrete, get_version, resolve,
}
use invest_quant_system.Universe.Latest.{IsSeen, resolve-IsSeen}
use invest_quant_system.Tests.Data.{utc}

abbrev pool : String → Datetime → Datetime → UniverseSnapshot
pool version effective available = record {
  universe_id = "hs300";
  universe_version = version;
  effective_time = effective;
  available_at = available;
  symbols = "600000" ∷ "000001" ∷ [];
  inclusion_reason = "index_constituent";
  source = "CSI";
  source_version = "v1";
  revision_id = "r1";
  as_of_version = "a1";
  schema_version = "universe-snapshot-v1";
  replaced_by = none;
  created_at = utc 0;
  description = "";
}

abbrev now_in_effect : UniverseSnapshot
now_in_effect = pool "1" (utc 100) (utc 90)

abbrev pub announced : UniverseSnapshot
announced = pool "2" (utc 300) (utc 150)

abbrev pub pools : UniverseRepository
pools = record {
  by_id_and_version = (("hs300", "1"), now_in_effect) ∷ (("hs300", "2"), announced) ∷ [];
}

resolve-IsSeen_example :
    (s : UniverseSnapshot) × (resolve pools "hs300" (utc 200) true ≡ ok s)
    × IsSeen pools "hs300" (utc 200) s
    × (now_in_effect.effective_time.instant ≤ s.effective_time.instant)
unfolding get_version UniverseKey_discrete Dict.get
resolve-IsSeen_example =
    resolve-IsSeen pools "hs300" "1" (utc 200) true now_in_effect refl refl (omega arith)

-- The announced pool is what a decision before its effective time gets.
announced_resolves : resolve pools "hs300" (utc 200) true ≡ ok announced
unfolding resolve UniverseKey_discrete require_aware_utc
announced_resolves = refl
