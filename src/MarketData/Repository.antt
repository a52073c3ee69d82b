-- ===== src/MarketData/Repository.antt =====
-- market_data/repository.py and market_data/quarantine.py: the append-only store of bars.
pub mod AppendOnly
pub mod Reads
use invest_quant_system.Prelude.{
  ℕ, String, Bool, true, false, ◌&&◌, ite, Option, none, some, List, [], ◌∷◌, ◌++◌, map,
}
use invest_quant_system.Prelude.Tests.{leb, String_discrete, if◌then◌else◌}
use invest_quant_system.Prelude.Dict
use invest_quant_system.Prelude.Dict.{Dict, contains, values}
use invest_quant_system.Prelude.Sort.{keep, sort_by}
use invest_quant_system.Prelude.Result.{Result, ok, err, version_conflict}
use invest_quant_system.Contracts.Moment.{Datetime, leb_time}
use invest_quant_system.Contracts.Market.Bar
use invest_quant_system.Contracts.Market.Bar.{
  MarketBar, VersionKey, VersionKey_discrete, version_key, Fingerprint_discrete,
  content_fingerprint,
}

pub data DuplicatePolicy : Type 0 where
  idempotent conflict_to_quarantine raise : DuplicatePolicy

-- The identity of a bar that the payload of a quarantine record shows.
pub record Payload : Type 0 where
  pub symbol : String
  pub timeframe : String
  pub market_data_time : Datetime
  pub data_source_version : String
  pub as_of_version : String

pub record QuarantineRecord : Type 0 where
  pub provider : String
  pub reason_code : String
  pub reason_detail : String
  pub raw_payload : Payload
  pub data_source_version : String
  pub as_of_version : String
  pub created_at : Datetime

pub record MarketRepository : Type 0 where
  pub duplicate_policy : DuplicatePolicy
  pub bars : Dict VersionKey MarketBar
  pub quarantine : List QuarantineRecord

-- the text that `save_bar` returns
pub data Saved : Type 0 where
  inserted duplicate quarantined : Saved

-- What a call leaves, and what it returned or raised.
abbrev pub Outcome : Type 0 → Type 0
Outcome A = Result A × MarketRepository

abbrev pub conflict_detail : String
conflict_detail = "same version key has different OHLCV or metadata"

abbrev pub quarantine_record : MarketBar → Datetime → QuarantineRecord
quarantine_record b now = record {
  provider = b.source;
  reason_code = "VERSION_CONFLICT";
  reason_detail = conflict_detail;
  raw_payload = record {
    symbol = b.symbol;
    timeframe = b.timeframe;
    market_data_time = b.market_data_time;
    data_source_version = b.data_source_version;
    as_of_version = b.as_of_version;
  };
  data_source_version = b.data_source_version;
  as_of_version = b.as_of_version;
  created_at = now;
}

-- `add_quarantine`
unfoldable pub add_quarantine : MarketRepository → QuarantineRecord → MarketRepository
add_quarantine r q = record r { quarantine = r.quarantine ++ q ∷ [] }

-- a bar whose key holds another content
unfoldable pub conflict : DuplicatePolicy → MarketBar → Datetime → MarketRepository → Outcome Saved
unfolding add_quarantine
conflict conflict_to_quarantine b now r =
    (ok quarantined, add_quarantine r (quarantine_record b now))
conflict idempotent b now r = (err (version_conflict conflict_detail), r)
conflict raise b now r = (err (version_conflict conflict_detail), r)

-- a valid bar, against what its key holds
unfoldable pub store : Option MarketBar → MarketBar → Datetime → MarketRepository → Outcome Saved
unfolding conflict
store none b now r =
    (ok inserted, record r { bars = Dict.put VersionKey_discrete r.bars (version_key b) b })
store (some existing) b now r =
    ite (Fingerprint_discrete (content_fingerprint existing) (content_fingerprint b))
      (ok duplicate, r) (conflict r.duplicate_policy b now r)

-- `save_bar`, behind `bar.validate(require_closed=True)`
abbrev pub save_checked :
    Result (Unit {0}) → MarketBar → Datetime → MarketRepository → Outcome Saved
save_checked (err e) b now r = (err e, r)
save_checked (ok _) b now r = store (Dict.get VersionKey_discrete r.bars (version_key b)) b now r

unfoldable pub save_bar : MarketBar → Datetime → MarketRepository → Outcome Saved
unfolding store
save_bar b now r = save_checked (Bar.validate b true) b now r

-- What a read asks for.
pub record Query : Type 0 where
  pub symbol : String
  pub from_time : Datetime
  pub to_time : Datetime
  pub timeframe : String
  pub data_source_version : String
  pub as_of_version : String

abbrev same_text : String → String → Bool
same_text s t = ite (String_discrete s t) true false

-- the condition of the comprehension in `read_bars`, on a key
abbrev pub is_wanted : Query → VersionKey → Bool
is_wanted q (symbol, timeframe, time, source_version, as_of) =
    same_text symbol q.symbol
    && (same_text timeframe q.timeframe
        && (leb_time q.from_time time
            && (leb_time time q.to_time
                && (same_text source_version q.data_source_version
                    && same_text as_of q.as_of_version))))

abbrev pub entry_wanted : Query → VersionKey × MarketBar → Bool
entry_wanted q (key, b) = is_wanted q key

abbrev pub bar_instant : MarketBar → ℕ
bar_instant b = b.market_data_time.instant

unfoldable pub read_bars : MarketRepository → Query → List MarketBar
read_bars r q = sort_by bar_instant (values (keep (entry_wanted q) r.bars))

-- the key that `query_missing` looks up for a time; it leaves the two bounds of the query aside
abbrev pub key_at : Query → Datetime → VersionKey
key_at q time = (q.symbol, q.timeframe, time, q.data_source_version, q.as_of_version)

unfoldable pub query_missing : MarketRepository → Query → List Datetime → List Datetime
query_missing r q [] = []
query_missing r q (time ∷ times) =
    let rest = query_missing r q times in
    if contains VersionKey_discrete r.bars (key_at q time) then rest else time ∷ rest
