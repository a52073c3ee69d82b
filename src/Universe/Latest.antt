-- ===== src/Universe/Latest.antt =====
-- `resolve`: the snapshot that a decision sees.
use mathlib.Core.List.{Mem, mem-map_of_mem, not-mem-nil}
use mathlib.Core.Path.{subst}
use native.Mathlib.Bridge.{le_prop}
use mathlib.Core.Logic.{inl, inr}
use invest_quant_system.Prelude.{
  String, Bool, true, ◌&&◌, List, [], ◌∷◌, ◌≡◌, ◌≤◌, refl, ℕ, Option, none, some, arith,
}
use invest_quant_system.Prelude.Tests.{String_discrete, Bool-cases}
use invest_quant_system.Prelude.Lists.{All}
use invest_quant_system.Prelude.Sort.{keep, keep-All, mem-keep}
use invest_quant_system.Prelude.Perms.{All-mem, at_mem}
use invest_quant_system.Prelude.Dict
use invest_quant_system.Prelude.Dict.{Dict, values, get-mem}
use invest_quant_system.Prelude.Result.{ok, Error, or_raise}
use invest_quant_system.Contracts.Moment.{
  Datetime, leb_time, ltb_time, IsUtc, require_aware_utc_of_IsUtc,
}
use invest_quant_system.Universe.{
  UniverseSnapshot, UniverseRepository, UniverseKey, UniverseKey_discrete, same, is_visible_at,
  candidates, latest_of, latest?, latest_visible, get_version, resolve,
}

Entry : Type 0
Entry = UniverseKey × UniverseSnapshot

-- the condition of the comprehension
abbrev is_seen : String → Datetime → UniverseKey × UniverseSnapshot → Bool
is_seen id t e = same e.0.0 id && leb_time e.1.available_at t

is_visible_at_lem :
    (s : UniverseSnapshot) (t : Datetime)
    → IsUtc t
    → is_visible_at s t ≡ ok (leb_time s.available_at t)
unfolding is_visible_at
is_visible_at_lem s t h = rw (require_aware_utc_of_IsUtc t "decision_time" h) refl

candidates_lem :
    (id : String) (t : Datetime) (d : Dict UniverseKey UniverseSnapshot)
    → IsUtc t
    → candidates id t d ≡ ok (values (keep (is_seen id t) d))
unfolding candidates keep
candidates_lem id t [] h = refl
candidates_lem id t ((k, s) ∷ d) h = elim (Bool-cases (same k.0 id)) [
  | inr e ↦ rw e (candidates_lem id t d h)
  | inl e ↦ rw e (
      rw (is_visible_at_lem s t h) (
        rw (candidates_lem id t d h) (elim (Bool-cases (leb_time s.available_at t)) [
          | inl v ↦ rw v refl
          | inr v ↦ rw v refl
        ])))
]

-- The latest is no earlier than the others.
module _ {κ} (P : UniverseSnapshot → Type κ) where
  latest_of-All :
      (s : UniverseSnapshot) (ss : List UniverseSnapshot) → P s → All P ss → P (latest_of s ss)
  unfolding latest_of
  latest_of-All s [] p h = p
  latest_of-All s (t ∷ ts) p h = elim (Bool-cases (ltb_time s.effective_time t.effective_time)) [
    | inl e ↦ rw e (latest_of-All t ts h.0 h.1)
    | inr e ↦ rw e (latest_of-All s ts p h.1)
  ]

abbrev instant_of : UniverseSnapshot → ℕ
instant_of s = s.effective_time.instant

latest_of-bounds :
    (n : ℕ) (s : UniverseSnapshot) (ss : List UniverseSnapshot)
    → instant_of (latest_of s ss) ≤ n
    → All (λ u. instant_of u ≤ n) (s ∷ ss)
unfolding latest_of
latest_of-bounds n s [] = λ h. (h, tt)
latest_of-bounds n s (t ∷ ts) = elim (Bool-cases (ltb_time s.effective_time t.effective_time)) [
  | inl e ↦ rw e (λ h. let r = latest_of-bounds n t ts h in (ground (arith, e, r.0), r))
  | inr e ↦ rw e (λ h. let r = latest_of-bounds n s ts h in (r.0, (ground (arith, e, r.0), r.1)))
]

-- A snapshot of the repository under its id, visible at the time.
pub record IsSeen (r : UniverseRepository) (id : String) (t : Datetime) (s : UniverseSnapshot)
    : Type 0 where
  pub version : String
  pub stored : Mem ((id, version), s) r.by_id_and_version
  pub visible : s.available_at.instant ≤ t.instant

stored-IsSeen :
    (r : UniverseRepository) (id : String) (t : Datetime) (k : UniverseKey) (s : UniverseSnapshot)
    → Mem (k, s) r.by_id_and_version
    → is_seen id t (k, s) ≡ true
    → IsSeen r id t s
unfolding String_discrete
stored-IsSeen r id t k s m h =
    let same_id : k.0 ≡ id = ground arith in
    record {
      version = k.1;
      stored = subst (λ i. Mem ((i, k.1), s) r.by_id_and_version) same_id m;
      visible = ground arith;
    }

All-values :
    (P : UniverseSnapshot → Type 0) (xs : List (UniverseKey × UniverseSnapshot))
    → All (λ e. P e.1) xs
    → All P (values xs)
All-values P [] h = tt
All-values P (x ∷ xs) h = (h.0, All-values P xs h.1)

or_raise-some :
    (o : Option UniverseSnapshot) (raised : Error) (u : UniverseSnapshot)
    → or_raise o raised ≡ ok u
    → o ≡ some u
or_raise-some none raised u h = cc
or_raise-some (some s) raised u h = cc

got-stored :
    (r : UniverseRepository) (id version : String) (u : UniverseSnapshot)
    → get_version r id version ≡ ok u
    → Dict.get UniverseKey_discrete r.by_id_and_version (id, version) ≡ some u
unfolding get_version
got-stored r id version u h = or_raise-some _ _ u h

candidates-IsSeen :
    (r : UniverseRepository) (id : String) (t : Datetime)
    → All (IsSeen r id t) (values (keep (is_seen id t) r.by_id_and_version))
candidates-IsSeen r id t = All-values (IsSeen r id t) (keep (is_seen id t) r.by_id_and_version) (
    keep-All (is_seen id t) (λ e. Mem e r.by_id_and_version) (λ e. IsSeen r id t e.1)
      (λ e m w. stored-IsSeen r id t e.0 e.1 m w) r.by_id_and_version (All-mem r.by_id_and_version))

-- what the comprehension found has the latest
latest-found :
    (P : UniverseSnapshot → Type 0) (found : List UniverseSnapshot) (u : UniverseSnapshot)
    → Mem u found
    → All P found
    → (s : UniverseSnapshot) × (latest? found ≡ some s) × P s × (instant_of u ≤ instant_of s)
latest-found P [] u m h = absurd (not-mem-nil m)
latest-found P (s ∷ ss) u m h = (
  latest_of s ss,
  refl,
  latest_of-All P s ss h.0 h.1,
  at_mem (λ v. instant_of v ≤ instant_of (latest_of s ss)) (λ v. le_prop) u (s ∷ ss) m
      (latest_of-bounds (instant_of (latest_of s ss)) s ss (omega arith)),
)

-- If the time of the decision is in UTC and a stored version of a universe is visible at it, then
-- `resolve` answers, strict or not, with a stored and visible version of that universe, and its
-- effective time is not before that of the given one.
pub resolve-IsSeen :
    (r : UniverseRepository) (id version : String) (t : Datetime) (strict : Bool)
    (u : UniverseSnapshot)
    → IsUtc t
    → get_version r id version ≡ ok u
    → u.available_at.instant ≤ t.instant
    → (s : UniverseSnapshot) × (resolve r id t strict ≡ ok s)
      × IsSeen r id t s
      × (u.effective_time.instant ≤ s.effective_time.instant)
unfolding resolve latest_visible String_discrete
resolve-IsSeen r id version t strict u h g v =
    let is_stored =
      get-mem UniverseKey_discrete r.by_id_and_version (id, version) u
        (got-stored r id version u g) in
    let found =
      mem-map_of_mem (λ (e : UniverseKey × UniverseSnapshot). e.1)
        (mem-keep (is_seen id t) ((id, version), u) r.by_id_and_version (ground arith) is_stored) in
    let (s, e, seen, later) =
      latest-found (IsSeen r id t) (values (keep (is_seen id t) r.by_id_and_version)) u found
        (candidates-IsSeen r id t) in
    (s, rw (candidates_lem id t r.by_id_and_version h) (rw e refl), seen, later)
