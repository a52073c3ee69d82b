-- ===== src/Prelude/Perms.antt =====
-- What holds of the elements of a list, of what a comprehension keeps of it and of its images, whatever
-- the order of the elements.
use mathlib.Core.Path.{◌≡◌, refl, sym, subst, subst₂}
use mathlib.Core.Logic.{inl, inr}
use mathlib.Core.Logic.Or
use mathlib.Core.Bool.{Bool, true, false}
use mathlib.Core.Option.{Option, some, none}
use mathlib.Core.List.{List, [], ◌∷◌, map, filter_map, Mem, mem-cons, not-mem-nil, Perm}
use mathlib.Core.List.Perm
use invest_quant_system.Prelude.Tests.{Bool-cases}
use invest_quant_system.Prelude.Lists.{All, All-map}
use invest_quant_system.Prelude.Sort.{keep, keep-All, IsSorted}

pub All-mem {ℓ} : {A : Type ℓ} (xs : List A) → All (λ x. Mem x xs) xs
All-mem [] = tt
All-mem (x ∷ xs) = (
  mem-cons.1 (Or.inl refl),
  All-map (λ y. Mem y xs) (λ y. Mem y (x ∷ xs)) (λ y m. mem-cons.1 (Or.inr m)) xs (All-mem xs),
)

pub at_mem {ℓ κ} :
    {A : Type ℓ} (P : A → Type κ)
    → ((x : A) → IsProp (P x))
    → (x : A) (xs : List A) → Mem x xs
    → All P xs
    → P x
at_mem P prop x [] m h = absurd (not-mem-nil m)
at_mem P prop x (y ∷ ys) m h =
    Or.elim (prop x) (mem-cons.0 m) (λ here. subst P (sym here) h.0)
      (λ there. at_mem P prop x ys there h.1)

pub All-Perm {ℓ κ} :
    {A : Type ℓ} (P : A → Type κ)
    → ((x : A) → IsProp (P x))
    → (xs ys : List A) → Perm xs ys
    → All P ys
    → All P xs
All-Perm P prop xs ys p h =
    All-map (λ x. Mem x xs) P (λ x m. at_mem P prop x ys ((Perm.mem_iff p).0 m) h) xs (All-mem xs)

picked {ℓ} : {A : Type ℓ} → Bool → A → Option A
picked true x = some x
picked false x = none

keep-filter_map {ℓ} :
    {A : Type ℓ} (p : A → Bool) (xs : List A) → filter_map (λ x. picked (p x) x) xs ≡ keep p xs
unfolding keep filter_map picked
keep-filter_map p [] = refl
keep-filter_map p (x ∷ xs) = elim (Bool-cases (p x)) [
  | inl e ↦ rw e (rw (keep-filter_map p xs) refl)
  | inr e ↦ rw e (keep-filter_map p xs)
]

pub keep-Perm {ℓ} :
    {A : Type ℓ} (p : A → Bool) (xs ys : List A) → Perm xs ys → Perm (keep p xs) (keep p ys)
keep-Perm p xs ys h =
    subst₂ Perm (keep-filter_map p xs) (keep-filter_map p ys)
      (Perm.filter_map (λ x. picked (p x) x) h)

pub keep-IsSorted {ℓ} :
    {A : Type ℓ} (le : A → A → Bool) (p : A → Bool) (xs : List A)
    → IsSorted le xs
    → IsSorted le (keep p xs)
unfolding keep
keep-IsSorted le p [] h = tt
keep-IsSorted le p (x ∷ xs) h = elim (Bool-cases (p x)) [
  | inl e ↦ rw e (
    keep-All p (λ y. le x y ≡ true) (λ y. le x y ≡ true) (λ y k _. k) xs h.0,
    keep-IsSorted le p xs h.1,
  )
  | inr e ↦ rw e (keep-IsSorted le p xs h.1)
]

module _ {ℓ κ} {A B : Type ℓ} (f : A → B) (P : A → Type κ) (le : A → A → Bool) (le' : B → B → Bool)
    (g : (x y : A) → P x → P y → le x y ≡ true → le' (f x) (f y) ≡ true) where
  map-All :
      (x : A) (ys : List A)
      → P x
      → All P ys
      → All (λ y. le x y ≡ true) ys
      → All (λ z. le' (f x) z ≡ true) (map f ys)
  map-All x [] p h b = tt
  map-All x (y ∷ ys) p h b = (g x y p h.0 b.0, map-All x ys p h.1 b.1)

  pub map-IsSorted : (xs : List A) → All P xs → IsSorted le xs → IsSorted le' (map f xs)
  map-IsSorted [] h s = tt
  map-IsSorted (x ∷ xs) h s = (map-All x xs h.0 h.1 s.0, map-IsSorted xs h.1 s.1)
