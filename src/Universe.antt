-- ===== src/Universe.antt =====
-- universe/contracts.py, universe/repository.py and universe/resolver.py: versioned stock pools and
-- the one that a decision sees. The digest of a snapshot is an argument.
pub mod Latest
use invest_quant_system.Prelude.{
  String, Bool, true, false, ◌||◌, ite, Option, none, some, List, [], ◌∷◌, map, ◌≡◌,
}
use invest_quant_system.Prelude.Tests.{String_discrete, if◌then◌else◌}
use invest_quant_system.Prelude.Text.{is_empty, is_blank, leb_text}
use invest_quant_system.Prelude.Lists.{last?}
use invest_quant_system.Prelude.Sort.{keep, sort, sort_by}
use invest_quant_system.Prelude.Dict
use invest_quant_system.Prelude.Dict.{Dict, values}
use invest_quant_system.Prelude.Result.{
  Result, ok, err, duplicate_universe, universe_not_found, universe_unavailable, or_raise, ◌>>=◌,
  ◌>>◌,
}
use invest_quant_system.Contracts.Moment.{Datetime, leb_time, ltb_time, require_aware_utc}
use invest_quant_system.Contracts.Checks.{invalid_if}

pub record UniverseSnapshot : Type 0 where
  pub universe_id : String
  pub universe_version : String
  pub effective_time : Datetime
  pub available_at : Datetime
  pub symbols : List String
  pub inclusion_reason : String
  pub source : String
  pub source_version : String
  pub revision_id : String
  pub as_of_version : String
  pub schema_version : String
  pub replaced_by : Option String
  pub created_at : Datetime
  pub description : String

abbrev missing : String → Bool
missing s = is_empty s || is_blank s

abbrev no_symbols : List String → Bool
no_symbols [] = true
no_symbols (s ∷ ss) = false

-- `UniverseSnapshot.validate`
unfoldable pub validate_snapshot : UniverseSnapshot → Result (Unit {0})
validate_snapshot s =
    require_aware_utc s.effective_time "effective_time"
    >> (require_aware_utc s.available_at "available_at"
        >> (invalid_if (missing s.universe_id) "universe_id is required"
            >> (invalid_if (missing s.universe_version) "universe_version is required"
                >> (invalid_if (no_symbols s.symbols) "symbols must not be empty"
                    >> (invalid_if (ltb_time s.effective_time s.available_at)
                          "available_at must not be after effective_time"
                        >> (invalid_if (missing s.source_version) "source_version is required"
                            >> (invalid_if (missing s.revision_id) "revision_id is required"
                                >> invalid_if (missing s.as_of_version)
                                    "as_of_version is required")))))))

unfoldable pub is_visible_at : UniverseSnapshot → Datetime → Result Bool
is_visible_at s decision_time = do
  require_aware_utc decision_time "decision_time"
  ok (leb_time s.available_at decision_time)

-- `universe_id`, `universe_version`
abbrev pub UniverseKey : Type 0
UniverseKey = String × String

unfoldable pub UniverseKey_discrete : Discrete UniverseKey
unfolding String_discrete
UniverseKey_discrete = hlevel String_discrete

-- `_by_id_and_version`; `_snapshots` has the same snapshots under joined keys
pub record UniverseRepository : Type 0 where
  pub by_id_and_version : Dict UniverseKey UniverseSnapshot

abbrev pub same : String → String → Bool
same s t = elim (String_discrete s t) [ yes _ ↦ true | no _ ↦ false ]

-- one more snapshot behind its test, which may raise
unfoldable pub add_visible :
    Result Bool → UniverseSnapshot → Result (List UniverseSnapshot) → Result (List UniverseSnapshot)
add_visible (err raised) s others = err raised
add_visible (ok false) s others = others
add_visible (ok true) s others = others >>= λ found. ok (s ∷ found)

-- `candidates` of `latest_visible`: the snapshots of an id that are visible
unfoldable pub candidates :
    String → Datetime → Dict UniverseKey UniverseSnapshot → Result (List UniverseSnapshot)
unfolding is_visible_at add_visible
candidates id at_time [] = ok []
candidates id at_time ((k, s) ∷ rest) =
    let others = candidates id at_time rest in
    if same k.0 id then add_visible (is_visible_at s at_time) s others else others

-- `max(candidates, key=effective_time)`: the first of the greatest
unfoldable pub latest_of : UniverseSnapshot → List UniverseSnapshot → UniverseSnapshot
latest_of s [] = s
latest_of s (t ∷ ts) =
    if ltb_time s.effective_time t.effective_time then latest_of t ts else latest_of s ts

abbrev pub latest? : List UniverseSnapshot → Option UniverseSnapshot
latest? [] = none
latest? (s ∷ ss) = some (latest_of s ss)

unfoldable pub latest_visible :
    UniverseRepository → String → Datetime → Result (Option UniverseSnapshot)
unfolding candidates latest_of
latest_visible r id at_time =
    candidates id at_time r.by_id_and_version >>= λ found. ok (latest? found)

unfoldable pub get_by_id : UniverseRepository → String → List UniverseSnapshot
unfolding String_discrete
get_by_id r id =
    sort_by (λ (s : UniverseSnapshot). s.effective_time.instant)
      (values (keep (λ (e : UniverseKey × UniverseSnapshot). same e.0.0 id) r.by_id_and_version))

-- `UniverseRepository.get`
unfoldable pub get_version : UniverseRepository → String → String → Result UniverseSnapshot
get_version r id version =
    or_raise (Dict.get UniverseKey_discrete r.by_id_and_version (id, version))
      (universe_not_found "universe version not found")

-- what `resolve` answers where nothing is visible
unfoldable pub unseen : Bool → List UniverseSnapshot → Result UniverseSnapshot
unseen true versions = err (universe_unavailable "no visible universe")
unseen false versions = or_raise (last? versions) (universe_not_found "universe not found")

abbrev pub seen_or : Option UniverseSnapshot → Result UniverseSnapshot → Result UniverseSnapshot
seen_or none other = other
seen_or (some s) other = ok s

-- `UniverseResolver.resolve`
unfoldable pub resolve : UniverseRepository → String → Datetime → Bool → Result UniverseSnapshot
unfolding latest_visible unseen get_by_id
resolve r id at_time require_strict =
    latest_visible r id at_time >>= λ seen. seen_or seen (unseen require_strict (get_by_id r id))

unfoldable pub symbols_for : UniverseRepository → String → Datetime → Result (List String)
unfolding resolve
symbols_for r id at_time = do s ← resolve r id at_time true; ok s.symbols

-- what `universe_hash` digests
pub record HashKey : Type 0 where
  pub universe_id : String
  pub universe_version : String
  pub effective_time : Datetime
  pub available_at : Datetime
  pub symbols : List String

unfoldable pub hash_key : UniverseSnapshot → HashKey
hash_key s = record {
  universe_id = s.universe_id;
  universe_version = s.universe_version;
  effective_time = s.effective_time;
  available_at = s.available_at;
  symbols = sort leb_text s.symbols;
}

abbrev pub Outcome : Type 0
Outcome = Result (Unit {0}) × UniverseRepository

module _ (digest : HashKey → String) where
  unfoldable pub universe_hash : UniverseSnapshot → String
  unfolding hash_key
  universe_hash s = digest (hash_key s)

  -- what follows the lookup of the stored snapshot
  unfoldable pub save_over :
      Option UniverseSnapshot → UniverseRepository → UniverseSnapshot → Outcome
  save_over none r s = (
    ok tt,
    record r {
      by_id_and_version =
          Dict.put UniverseKey_discrete r.by_id_and_version (s.universe_id, s.universe_version) s;
    },
  )
  save_over (some existing) r s =
      if same (universe_hash existing) (universe_hash s)
      then (ok tt, r)
      else (err (duplicate_universe "already stored with different content"), r)

  abbrev pub save_checked : Result (Unit {0}) → UniverseRepository → UniverseSnapshot → Outcome
  save_checked (err raised) r s = (err raised, r)
  save_checked (ok checked) r s =
      save_over
        (Dict.get UniverseKey_discrete r.by_id_and_version (s.universe_id, s.universe_version)) r s

  unfoldable pub save : UniverseRepository → UniverseSnapshot → Outcome
  unfolding validate_snapshot save_over universe_hash UniverseKey_discrete
  save r s = save_checked (validate_snapshot s) r s
