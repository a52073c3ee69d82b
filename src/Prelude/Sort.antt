-- ===== src/Prelude/Sort.antt =====
-- Python's `sorted`: a stable sort by a total preorder on the elements, and by a number.
use Prim.Native.Nat.{ℕ, suc}
use mathlib.Core.Path.{◌≡◌, refl, ap, ◌∙◌}
use mathlib.Core.Logic.{inl, inr, ∥∥₁_prop}
use mathlib.Core.Bool.{Bool, true, false}
use mathlib.Core.List.{List, [], ◌∷◌, Perm, Mem, mem-cons, not-mem-nil}
use mathlib.Core.Logic.Or
use mathlib.Core.List.Perm
use native.Mathlib.Omega.{arith}
use invest_quant_system.Prelude.Tests.{leb, if◌then◌else◌, Bool-cases}
use invest_quant_system.Prelude.Lists.{length, All}

-- `[x for x in xs if p(x)]`
unfoldable pub keep {ℓ} : {A : Type ℓ} → (A → Bool) → List A → List A
keep p [] = []
keep p (x ∷ xs) = if p x then x ∷ keep p xs else keep p xs

module _ {ℓ} {A : Type ℓ} (le : A → A → Bool) where
  -- before the first element that is not below `x`
  unfoldable pub insert : A → List A → List A
  insert x [] = x ∷ []
  insert x (y ∷ ys) = if le x y then x ∷ y ∷ ys else y ∷ insert x ys

  unfoldable pub sort : List A → List A
  unfolding insert
  sort [] = []
  sort (x ∷ xs) = insert x (sort xs)

  abbrev pub IsSorted : List A → Type 0
  IsSorted [] = Unit
  IsSorted (x ∷ xs) = All (λ y. le x y ≡ true) xs × IsSorted xs

  insert-perm : (x : A) (xs : List A) → Perm (insert x xs) (x ∷ xs)
  unfolding insert
  insert-perm x [] = Perm.refl (x ∷ [])
  insert-perm x (y ∷ ys) =
      elim (le x y) as (λ b. Perm (if b then x ∷ y ∷ ys else y ∷ insert x ys) (x ∷ y ∷ ys)) [
        | true ↦ Perm.refl (x ∷ y ∷ ys)
        | false ↦ Perm.trans (Perm.cons y (insert-perm x ys)) (Perm.swap x y ys)
      ]

  pub sort-perm : (xs : List A) → Perm (sort xs) xs
  unfolding sort
  sort-perm [] = Perm.refl []
  sort-perm (x ∷ xs) = Perm.trans (insert-perm x (sort xs)) (Perm.cons x (sort-perm xs))

  length-insert : (x : A) (xs : List A) → length (insert x xs) ≡ suc (length xs)
  unfolding insert
  length-insert x [] = refl
  length-insert x (y ∷ ys) = elim (Bool-cases (le x y)) [
    | inl e ↦ rw e refl
    | inr e ↦ rw e (ap suc (length-insert x ys))
  ]

  pub length-sort : (xs : List A) → length (sort xs) ≡ length xs
  unfolding sort
  length-sort [] = refl
  length-sort (x ∷ xs) = length-insert x (sort xs) ∙ ap suc (length-sort xs)

  insert-All {κ} : (P : A → Type κ) (x : A) (xs : List A) → P x → All P xs → All P (insert x xs)
  unfolding insert
  insert-All P x [] p h = (p, tt)
  insert-All P x (y ∷ ys) p h =
      elim (le x y) as (λ b. All P (if b then x ∷ y ∷ ys else y ∷ insert x ys)) [
        | true ↦ (p, h)
        | false ↦ (h.0, insert-All P x ys p h.1)
      ]

  pub sort-All {κ} : (P : A → Type κ) (xs : List A) → All P xs → All P (sort xs)
  unfolding sort
  sort-All P [] h = tt
  sort-All P (x ∷ xs) h = insert-All P x (sort xs) h.0 (sort-All P xs h.1)

  module _ (total : (x y : A) → le x y ≡ false → le y x ≡ true)
      (trans : (x y z : A) → le x y ≡ true → le y z ≡ true → le x z ≡ true) where
    All-trans :
        (x y : A) (ys : List A)
        → le x y ≡ true
        → All (λ z. le y z ≡ true) ys
        → All (λ z. le x z ≡ true) ys
    All-trans x y [] p h = tt
    All-trans x y (z ∷ zs) p h = (trans x y z p h.0, All-trans x y zs p h.1)

    insert-IsSorted : (x : A) (xs : List A) → IsSorted xs → IsSorted (insert x xs)
    unfolding insert
    insert-IsSorted x [] h = (tt, tt)
    insert-IsSorted x (y ∷ ys) h = elim (Bool-cases (le x y)) [
      | inl e ↦ rw e ((e, All-trans x y ys e h.0), h)
      | inr e ↦
          rw e (insert-All (λ z. le y z ≡ true) x ys (total x y e) h.0, insert-IsSorted x ys h.1)
    ]

    pub sort-IsSorted : (xs : List A) → IsSorted (sort xs)
    unfolding sort
    sort-IsSorted [] = tt
    sort-IsSorted (x ∷ xs) = insert-IsSorted x (sort xs) (sort-IsSorted xs)

-- `sorted(xs, key=key)` for a key that is a number
module _ {ℓ} {A : Type ℓ} (key : A → ℕ) where
  abbrev pub by_key : A → A → Bool
  by_key x y = leb (key x) (key y)

  unfoldable pub sort_by : List A → List A
  unfolding sort
  sort_by = sort by_key

  pub sort_by-perm : (xs : List A) → Perm (sort_by xs) xs
  unfolding sort_by
  sort_by-perm = sort-perm by_key

  pub sort_by-IsSorted : (xs : List A) → IsSorted by_key (sort_by xs)
  unfolding sort_by
  sort_by-IsSorted = sort-IsSorted by_key (λ x y h. ground arith) (λ x y z p q. ground arith)

module _ {ℓ} {A : Type ℓ} (p : A → Bool) where
  -- what a comprehension keeps satisfies its condition
  pub keep-All {κ μ} :
      (P : A → Type κ) (Q : A → Type μ)
      → ((x : A) → P x → p x ≡ true → Q x)
      → (xs : List A) → All P xs
      → All Q (keep p xs)
  unfolding keep
  keep-All P Q f [] h = tt
  keep-All P Q f (x ∷ xs) h = elim (Bool-cases (p x)) [
    | inl e ↦ rw e (f x h.0 e, keep-All P Q f xs h.1)
    | inr e ↦ rw e (keep-All P Q f xs h.1)
  ]

  pub keep-All_of {μ} :
      (Q : A → Type μ) → ((x : A) → p x ≡ true → Q x) → (xs : List A) → All Q (keep p xs)
  unfolding keep
  keep-All_of Q f [] = tt
  keep-All_of Q f (x ∷ xs) = elim (Bool-cases (p x)) [
    | inl e ↦ rw e (f x e, keep-All_of Q f xs)
    | inr e ↦ rw e (keep-All_of Q f xs)
  ]

  -- and it keeps every element that does
  pub mem-keep : (x : A) (xs : List A) → p x ≡ true → Mem x xs → Mem x (keep p xs)
  unfolding keep
  mem-keep x [] e m = absurd (not-mem-nil m)
  mem-keep x (y ∷ ys) e m = elim (Bool-cases (p y)) [
    | inl k ↦ rw k (
        Or.elim ∥∥₁_prop (mem-cons.0 m) (λ here. mem-cons.1 (Or.inl here))
          (λ there. mem-cons.1 (Or.inr (mem-keep x ys e there))))
    | inr k ↦ rw k (
        Or.elim ∥∥₁_prop (mem-cons.0 m) (λ here. cc (e, k, ap p here))
          (λ there. mem-keep x ys e there))
  ]

module _ {ℓ κ} {A : Type ℓ} (key : A → ℕ) (P : A → Type κ) where
  pub sort_by-All : (xs : List A) → All P xs → All P (sort_by key xs)
  unfolding sort_by
  sort_by-All xs h = sort-All (by_key key) P xs h
