-- ===== src/Versions.antt =====
-- config/versions.py and contracts/versions.py: which identities of strategies are frozen. The lock
-- makes every method one step; the time of the system clock is an argument.
pub mod Frozen
use invest_quant_system.Prelude.{
  String, Bool, false, ◌&&◌, ◌||◌, ◌≡◌, Option, none, some, List, [], map,
}
use invest_quant_system.Prelude.Tests.{if◌then◌else◌, String_discrete}
use invest_quant_system.Prelude.Dict
use invest_quant_system.Prelude.Dict.{Dict, values}
use invest_quant_system.Prelude.Text.{is_empty, is_blank}
use invest_quant_system.Prelude.Result.{
  Result, ok, err, market_data_validation, duplicate_freeze, ◌>>◌,
}
use invest_quant_system.Contracts.Moment.{Datetime}
use invest_quant_system.Contracts.Checks.{invalid_if}

pub data StrategyStatus : Type 0 where
  draft shadow active_research deprecated : StrategyStatus

pub record StrategyVersion : Type 0 where
  pub strategy_name : String
  pub strategy_version : String
  pub feature_version : String
  pub parameter_hash : String
  pub code_version : String
  pub created_at : Datetime
  pub description : String
  pub status : StrategyStatus

-- `_FrozenStrategy`
pub record FrozenStrategy : Type 0 where
  pub name : String
  pub strategy_version : String
  pub parameter_hash : String
  pub code_version : String
  pub frozen_at : Datetime

pub record VersionRegistry : Type 0 where
  pub frozen : Dict String FrozenStrategy

-- the four texts that `freeze_strategy` and `is_strategy_frozen` take
pub record Identity : Type 0 where
  pub strategy_name : String
  pub strategy_version : String
  pub parameter_hash : String
  pub code_version : String

abbrev same : String → String → Bool
same s t = elim (String_discrete s t) [ yes _ ↦ Bool.true | no _ ↦ false ]

-- the three comparisons of an identity with what is frozen under its name
abbrev pub agrees : FrozenStrategy → Identity → Bool
agrees f i =
    same f.strategy_version i.strategy_version
    && (same f.parameter_hash i.parameter_hash && same f.code_version i.code_version)

abbrev missing : String → Bool
missing s = is_empty s || is_blank s

unfoldable pub check_identity : Identity → Result (Unit {0})
check_identity i =
    invalid_if (missing i.strategy_name) "strategy_name is required"
    >> (invalid_if (missing i.strategy_version) "strategy_version is required"
        >> (invalid_if (missing i.parameter_hash) "parameter_hash is required"
            >> invalid_if (missing i.code_version) "code_version is required"))

-- the `StrategyVersion` of a frozen identity
abbrev pub frozen_version : Identity → Datetime → StrategyVersion
frozen_version i at = record {
  strategy_name = i.strategy_name;
  strategy_version = i.strategy_version;
  feature_version = "unknown";
  parameter_hash = i.parameter_hash;
  code_version = i.code_version;
  created_at = at;
  description = "frozen";
  status = active_research;
}

abbrev pub Outcome : Type 0
Outcome = Result StrategyVersion × VersionRegistry

abbrev pub frozen_strategy : Identity → Datetime → FrozenStrategy
frozen_strategy i now = record {
  name = i.strategy_name;
  strategy_version = i.strategy_version;
  parameter_hash = i.parameter_hash;
  code_version = i.code_version;
  frozen_at = now;
}

-- a checked identity, against what its name holds
unfoldable pub freeze_checked :
    Option FrozenStrategy → Identity → Datetime → VersionRegistry → Outcome
freeze_checked none i now r = (
  ok (frozen_version i now),
  record r { frozen = Dict.put String_discrete r.frozen i.strategy_name (frozen_strategy i now) },
)
freeze_checked (some existing) i now r =
    if agrees existing i
    then (ok (frozen_version i existing.frozen_at), r)
    else (err (duplicate_freeze "strategy already frozen with a different identity"), r)

abbrev pub freeze_behind : Result (Unit {0}) → Identity → Datetime → VersionRegistry → Outcome
freeze_behind (err e) i now r = (err e, r)
freeze_behind (ok _) i now r =
    freeze_checked (Dict.get String_discrete r.frozen i.strategy_name) i now r

unfoldable pub freeze_strategy : Identity → Datetime → VersionRegistry → Outcome
unfolding freeze_checked
freeze_strategy i now r = freeze_behind (check_identity i) i now r

abbrev pub holds : Option FrozenStrategy → Identity → Bool
holds none i = false
holds (some existing) i = agrees existing i

unfoldable pub is_strategy_frozen : VersionRegistry → Identity → Bool
is_strategy_frozen r i = holds (Dict.get String_discrete r.frozen i.strategy_name) i

unfoldable pub frozen_strategies : VersionRegistry → List StrategyVersion
frozen_strategies r =
    map
      (λ (f : FrozenStrategy).
        frozen_version
          (record {
            strategy_name = f.name;
            strategy_version = f.strategy_version;
            parameter_hash = f.parameter_hash;
            code_version = f.code_version;
          })
          f.frozen_at)
      (values r.frozen)

pub record ConfigSnapshot : Type 0 where
  pub snapshot_id : String
  pub created_at : Datetime
  pub versions : Dict String String
  pub parameter_hash : String

-- `freeze`: `digest` is the hash of the sorted dictionary, and `head` its first 16 characters
unfoldable pub freeze :
    (Dict String String → String)
    → (String → String)
    → Dict String String
    → Datetime
    → ConfigSnapshot
freeze digest head versions now = record {
  snapshot_id = head (digest versions);
  created_at = now;
  versions = versions;
  parameter_hash = digest versions;
}
