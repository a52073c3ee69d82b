-- ===== src/Versions/Frozen.antt =====
-- A frozen identity stays frozen, and it is the only one of its name.
use invest_quant_system.Prelude.{
  String, ◌≡◌, refl, ap, sym, ◌∙◌, inl, inr, Option, none, some, true, arith,
}
use invest_quant_system.Prelude.Tests.{String_discrete, Bool-cases, Option-cases}
use invest_quant_system.Prelude.Dict
use invest_quant_system.Prelude.Dict.{get-put, get-put_self, get-put_ne}
use invest_quant_system.Prelude.Result.{Result, ok, Result-cases}
use invest_quant_system.Contracts.Moment.{Datetime}
use invest_quant_system.Versions.{
  VersionRegistry, FrozenStrategy, StrategyVersion, Identity, agrees, holds, frozen_strategy,
  check_identity, freeze_checked, freeze_behind, freeze_strategy, is_strategy_frozen,
}

abbrev lookup : VersionRegistry → String → Option FrozenStrategy
lookup r name = Dict.get String_discrete r.frozen name

freeze_checked-keeps :
    (o : Option FrozenStrategy) (i : Identity) (now : Datetime) (r : VersionRegistry)
    (name : String) (f : FrozenStrategy)
    → lookup r i.strategy_name ≡ o
    → lookup r name ≡ some f
    → lookup (freeze_checked o i now r).1 name ≡ some f
unfolding freeze_checked
freeze_checked-keeps none i now r name f p h =
    get-put_ne String_discrete r.frozen i.strategy_name name (frozen_strategy i now)
      (λ q. cc (ap (lookup r) q))
    ∙ h
freeze_checked-keeps (some existing) i now r name f p h = elim (Bool-cases (agrees existing i)) [
  | inl e ↦ rw e h
  | inr e ↦ rw e h
]

freeze_strategy-lookup :
    (i : Identity) (now : Datetime) (r : VersionRegistry) (name : String) (f : FrozenStrategy)
    → lookup r name ≡ some f
    → lookup (freeze_strategy i now r).1 name ≡ some f
unfolding freeze_strategy
freeze_strategy-lookup i now r name f h = elim (Result-cases (check_identity i)) [
  | inl (_, p) ↦ rw p (freeze_checked-keeps (lookup r i.strategy_name) i now r name f refl h)
  | inr (e, p) ↦ rw p h
]

-- An identity that is frozen is still frozen after any `freeze_strategy`, whatever its outcome.
pub freeze_strategy-keeps :
    (i j : Identity) (now : Datetime) (r : VersionRegistry)
    → is_strategy_frozen r j ≡ true
    → is_strategy_frozen (freeze_strategy i now r).1 j ≡ true
unfolding is_strategy_frozen
freeze_strategy-keeps i j now r h = elim (Option-cases (lookup r j.strategy_name)) [
  | inl e ↦ cc (rw e at h)
  | inr (f, e) ↦ rw (freeze_strategy-lookup i now r j.strategy_name f e) (rw e at h)
]

agrees_self : (i : Identity) (now : Datetime) → agrees (frozen_strategy i now) i ≡ true
agrees_self i now = ground arith

freeze_checked-frozen :
    (o : Option FrozenStrategy) (i : Identity) (now : Datetime) (r : VersionRegistry)
    (v : StrategyVersion)
    → lookup r i.strategy_name ≡ o
    → (freeze_checked o i now r).0 ≡ ok v
    → is_strategy_frozen (freeze_checked o i now r).1 i ≡ true
unfolding freeze_checked is_strategy_frozen
freeze_checked-frozen none i now r v p h =
    rw (get-put_self String_discrete r.frozen i.strategy_name (frozen_strategy i now))
      (agrees_self i now)
freeze_checked-frozen (some existing) i now r v p h = elim (Bool-cases (agrees existing i)) [
  | inl e ↦ rw (e, p) e
  | inr e ↦ cc (rw e at h)
]

identity_eq :
    (i j : Identity)
    → i.strategy_name ≡ j.strategy_name
    → i.strategy_version ≡ j.strategy_version
    → i.parameter_hash ≡ j.parameter_hash
    → i.code_version ≡ j.code_version
    → i ≡ j
identity_eq i j n v h c = cc

only_one :
    (o : Option FrozenStrategy) (i j : Identity)
    → i.strategy_name ≡ j.strategy_name
    → holds o i ≡ true
    → holds o j ≡ true
    → i ≡ j
only_one none i j n p q = cc
only_one (some f) i j n p q = identity_eq i j n (ground arith) (ground arith) (ground arith)

freeze_strategy-is_frozen :
    (i : Identity) (now : Datetime) (r : VersionRegistry) (v : StrategyVersion)
    → (freeze_strategy i now r).0 ≡ ok v
    → is_strategy_frozen (freeze_strategy i now r).1 i ≡ true
unfolding freeze_strategy
freeze_strategy-is_frozen i now r v h = elim (Result-cases (check_identity i)) [
  | inl (u, p) ↦ rw p (
      freeze_checked-frozen (lookup r i.strategy_name) i now r v refl
        (ap (λ (x : Result Unit). (freeze_behind x i now r).0) (sym p) ∙ h))
  | inr (e, p) ↦ cc (rw p at h)
]

-- When `freeze_strategy` has returned, its identity is frozen, and every identity that is frozen
-- under the same name is that one.
freeze_strategy-frozen :
    (i : Identity) (now : Datetime) (r : VersionRegistry) (v : StrategyVersion)
    → (freeze_strategy i now r).0 ≡ ok v
    → let r' = (freeze_strategy i now r).1 in
      (is_strategy_frozen r' i ≡ true)
      × ((j : Identity)
          → j.strategy_name ≡ i.strategy_name
          → is_strategy_frozen r' j ≡ true
          → j ≡ i)
unfolding is_strategy_frozen
freeze_strategy-frozen i now r v h =
    let r' = (freeze_strategy i now r).1 in
    let frozen = freeze_strategy-is_frozen i now r v h in
    (
      frozen,
      λ j n f.
          only_one (lookup r' i.strategy_name) j i n
            (ap (λ (s : String). holds (lookup r' s) j) (sym n) ∙ f) frozen,
    )
