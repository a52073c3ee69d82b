-- ===== src/Prelude/Comprehensions.antt =====
-- Comprehensions whose conditions agree, over a list of images, and one over another.
use mathlib.Core.Path.{◌≡◌, refl, ap}
use mathlib.Core.Logic.{inl, inr}
use mathlib.Core.Bool.{Bool, ◌&&◌}
use mathlib.Core.List.{List, [], ◌∷◌, map}
use invest_quant_system.Prelude.Tests.{Bool-cases}
use invest_quant_system.Prelude.Lists.{All}
use invest_quant_system.Prelude.Sort.{keep}

module _ {ℓ κ} {A : Type ℓ} (P : A → Type κ) where
  pub keep-agree :
      (p q : A → Bool)
      → ((x : A) → P x → p x ≡ q x)
      → (xs : List A) → All P xs
      → keep p xs ≡ keep q xs
  unfolding keep
  keep-agree p q f [] h = refl
  keep-agree p q f (x ∷ xs) h = rw (f x h.0) (rw (keep-agree p q f xs h.1) refl)

module _ {ℓ} {A B : Type ℓ} (f : A → B) where
  pub keep-map : (p : B → Bool) (xs : List A) → keep p (map f xs) ≡ map f (keep (λ x. p (f x)) xs)
  unfolding keep
  keep-map p [] = refl
  keep-map p (x ∷ xs) = elim (Bool-cases (p (f x))) [
    | inl e ↦ rw e (ap (λ (ys : List B). f x ∷ ys) (keep-map p xs))
    | inr e ↦ rw e (keep-map p xs)
  ]

module _ {ℓ} {A : Type ℓ} (p : A → Bool) where
  pub keep-keep : (q : A → Bool) (xs : List A) → keep p (keep q xs) ≡ keep (λ x. q x && p x) xs
  unfolding keep
  keep-keep q [] = refl
  keep-keep q (x ∷ xs) = elim (Bool-cases (q x)) [
    | inl e ↦ rw e (rw (keep-keep q xs) refl)
    | inr e ↦ rw e (keep-keep q xs)
  ]
