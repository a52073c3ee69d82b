-- ===== src/Prelude/Dict.antt =====
-- Python's `dict`: an association list in insertion order, over keys with a decidable equality.
use Prim.Native.Nat.{◌+◌}
use mathlib.Core.Path.{◌≡◌, refl, sym, ap, ap₂, subst₂, ◌∙◌}
use mathlib.Core.Logic.{ite, ◌≢◌}
use mathlib.Core.Bool.{Bool, true, false}
use mathlib.Core.Option.{Option, none, some}
use mathlib.Core.Logic.Or
use mathlib.Core.List.{Mem, mem-cons, List, [], ◌∷◌, map}
use native.Mathlib.Omega.{arith}
use invest_quant_system.Prelude.Lists.{length, All}

abbrev pub Dict {ℓ} : Type ℓ → Type ℓ → Type ℓ
Dict K V = List (K × V)

module _ {ℓ} {K V : Type ℓ} where
  -- `d.keys()` and `d.values()`
  abbrev pub keys : Dict K V → List K
  keys = map (λ e. e.0)

  abbrev pub values : Dict K V → List V
  values = map (λ e. e.1)

abbrev pub is_some {ℓ} : {A : Type ℓ} → Option A → Bool
is_some none = false
is_some (some a) = true

module _ {ℓ} {K V : Type ℓ} (dec : Discrete K) where
  -- `d.get(k)`
  unfoldable pub get : Dict K V → K → Option V
  get [] k = none
  get ((j, v) ∷ d) k = ite (dec j k) (some v) (get d k)

  -- `k in d`
  abbrev pub contains : Dict K V → K → Bool
  contains d k = is_some (get d k)

  -- `d[k] = v`: the place of a key that is there stays, and a new key goes to the end
  unfoldable pub put : Dict K V → K → V → Dict K V
  put [] k v = (k, v) ∷ []
  put ((j, w) ∷ d) k v = ite (dec j k) ((j, v) ∷ d) ((j, w) ∷ put d k v)

  -- `del d[k]`
  unfoldable pub del : Dict K V → K → Dict K V
  del [] k = []
  del ((j, v) ∷ d) k = ite (dec j k) (del d k) ((j, v) ∷ del d k)

  -- `d.setdefault(k, v)`, for its effect
  abbrev put_unless : Option V → Dict K V → K → V → Dict K V
  put_unless none d k v = put d k v
  put_unless (some w) d k v = d

  unfoldable pub set_default : Dict K V → K → V → Dict K V
  set_default d k v = put_unless (get d k) d k v

  pub get-put :
      (d : Dict K V) (k j : K) (v : V) → get (put d k v) j ≡ ite (dec k j) (some v) (get d j)
  unfolding get put
  get-put [] k j v = refl
  get-put ((i, w) ∷ d) k j v = ground (arith, get-put d k j v)

  pub get-put_self : (d : Dict K V) (k : K) (v : V) → get (put d k v) k ≡ some v
  get-put_self d k v = ground (arith, get-put d k k v)

  pub contains-put_self : (d : Dict K V) (k : K) (v : V) → contains (put d k v) k ≡ true
  contains-put_self d k v = ap is_some (get-put_self d k v)

  pub get-put_ne : (d : Dict K V) (k j : K) (v : V) → k ≢ j → get (put d k v) j ≡ get d j
  get-put_ne d k j v h = ground (arith, get-put d k j v)

  -- A default is stored where nothing was, and overwrites nothing.
  put_unless-keeps :
      (o : Option V) (d : Dict K V) (k j : K) (v w : V)
      → get d k ≡ o
      → get d j ≡ some w
      → get (put_unless o d k v) j ≡ some w
  put_unless-keeps none d k j v w p h = get-put_ne d k j v (λ q. cc (ap (get d) q)) ∙ h
  put_unless-keeps (some x) d k j v w p h = h

  pub set_default-keeps :
      (d : Dict K V) (k j : K) (v w : V) → get d j ≡ some w → get (set_default d k v) j ≡ some w
  unfolding set_default
  set_default-keeps d k j v w h = put_unless-keeps (get d k) d k j v w refl h

  put_unless-present :
      (o : Option V) (d : Dict K V) (k : K) (v : V)
      → get d k ≡ o
      → (w : V) × (get (put_unless o d k v) k ≡ some w)
  put_unless-present none d k v p = (v, get-put_self d k v)
  put_unless-present (some x) d k v p = (x, p)

  pub set_default-present :
      (d : Dict K V) (k : K) (v : V) → (w : V) × (get (set_default d k v) k ≡ some w)
  unfolding set_default
  set_default-present d k v = put_unless-present (get d k) d k v refl

  pub get-del : (d : Dict K V) (k j : K) → get (del d k) j ≡ ite (dec k j) none (get d j)
  unfolding get del
  get-del [] k j = ground arith
  get-del ((i, w) ∷ d) k j = ground (arith, get-del d k j)

  pub length-put :
      (d : Dict K V) (k : K) (v : V) → get d k ≡ none → length (put d k v) ≡ length d + 1
  unfolding get put
  length-put [] k v h = omega arith
  length-put ((j, w) ∷ d) k v h = ground (arith, length-put d k v)

  module _ {κ} (P : K → V → Type κ) where
    -- every entry of the dict satisfies `P`
    abbrev pub Entries : Dict K V → Type κ
    Entries = All (λ e. P e.0 e.1)

    pub Entries-put : (d : Dict K V) (k : K) (v : V) → Entries d → P k v → Entries (put d k v)
    unfolding put
    Entries-put [] k v h p = (p, tt)
    Entries-put ((j, w) ∷ d) k v h p =
        elim (dec j k) as (λ t. Entries (ite t ((j, v) ∷ d) ((j, w) ∷ put d k v))) [
          | yes e ↦ (rw e p, h.1)
          | no n ↦ (h.0, Entries-put d k v h.1 p)
        ]

    Entries-put_unless :
        (o : Option V) (d : Dict K V) (k : K) (v : V)
        → Entries d
        → P k v
        → Entries (put_unless o d k v)
    Entries-put_unless none d k v h p = Entries-put d k v h p
    Entries-put_unless (some w) d k v h p = h

    pub Entries-set_default :
        (d : Dict K V) (k : K) (v : V) → Entries d → P k v → Entries (set_default d k v)
    unfolding set_default
    Entries-set_default d k v h p = Entries-put_unless (get d k) d k v h p

    pub Entries-get : (d : Dict K V) (k : K) (v : V) → Entries d → get d k ≡ some v → P k v
    unfolding get
    Entries-get [] k v h e = cc
    Entries-get ((j, w) ∷ d) k v h e =
        elim (dec j k) as (λ t. ite t (some w) (get d k) ≡ some v → P k v) [
          | yes p ↦ λ q. let r : w ≡ v = cc q in subst₂ P p r h.0
          | no n ↦ λ q. Entries-get d k v h.1 q
        ]
          e

  -- what is found is among the entries
  pub get-mem : (d : Dict K V) (k : K) (v : V) → get d k ≡ some v → Mem (k, v) d
  unfolding get
  get-mem [] k v h = cc
  get-mem ((j, w) ∷ d) k v h =
      elim (dec j k) as (λ t. ite t (some w) (get d k) ≡ some v → Mem (k, v) ((j, w) ∷ d)) [
        | yes p ↦
            λ q. let r : w ≡ v = cc q in mem-cons.1 (Or.inl (ap₂ (λ a b. (a, b)) (sym p) (sym r)))
        | no n ↦ λ q. mem-cons.1 (Or.inr (get-mem d k v q))
      ]
        h

-- the dictionary with another value for each key
abbrev pub map_values {ℓ} : {K V W : Type ℓ} → (V → W) → Dict K V → Dict K W
map_values f [] = []
map_values f ((k, v) ∷ d) = (k, f v) ∷ map_values f d

abbrev pub map_option {ℓ} : {V W : Type ℓ} → (V → W) → Option V → Option W
map_option f none = none
map_option f (some v) = some (f v)

module _ {ℓ} {K V W : Type ℓ} (dec : Discrete K) (f : V → W) where
  pub get-map_values :
      (d : Dict K V) (k : K) → get dec (map_values f d) k ≡ map_option f (get dec d k)
  unfolding get
  get-map_values [] k = refl
  get-map_values ((j, v) ∷ d) k =
      elim (dec j k)
        as (λ t.
          ite t (some (f v)) (get dec (map_values f d) k)
          ≡ map_option f (ite t (some v) (get dec d k))) [
            | yes e ↦ refl
            | no n ↦ get-map_values d k
          ]

  pub put-map_values :
      (d : Dict K V) (k : K) (v : V)
      → put dec (map_values f d) k (f v) ≡ map_values f (put dec d k v)
  unfolding put
  put-map_values [] k v = refl
  put-map_values ((j, w) ∷ d) k v =
      elim (dec j k)
        as (λ t.
          ite t ((j, f v) ∷ map_values f d) ((j, f w) ∷ put dec (map_values f d) k (f v))
          ≡ map_values f (ite t ((j, v) ∷ d) ((j, w) ∷ put dec d k v))) [
            | yes e ↦ refl
            | no n ↦ ap (λ (r : Dict K W). (j, f w) ∷ r) (put-map_values d k v)
          ]

  unless-map_values :
      (o : Option V) (d : Dict K V) (k : K) (v : V)
      → put_unless dec (map_option f o) (map_values f d) k (f v)
        ≡ map_values f (put_unless dec o d k v)
  unless-map_values none d k v = put-map_values d k v
  unless-map_values (some w) d k v = refl

  pub set_default-map_values :
      (d : Dict K V) (k : K) (v : V)
      → set_default dec (map_values f d) k (f v) ≡ map_values f (set_default dec d k v)
  unfolding set_default
  set_default-map_values d k v = rw (get-map_values d k) (unless-map_values (get dec d k) d k v)
