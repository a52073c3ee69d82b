-- ===== src/MarketData/Repository/AppendOnly.antt =====
-- What is stored stays: no call overwrites or drops a bar.
use invest_quant_system.Prelude.{◌≡◌, refl, ap, ◌∙◌, ite, true, inl, inr, Option, none, some, arith}
use invest_quant_system.Prelude.Dict
use invest_quant_system.Prelude.Dict.{Dict, Entries, Entries-put, get-put_ne, get-put_self}
use invest_quant_system.Prelude.Result.{ok, Result-cases}
use invest_quant_system.Contracts.Moment.{Datetime}
use invest_quant_system.Contracts.Market.Bar
use invest_quant_system.Contracts.Market.Bar.{
  MarketBar, VersionKey, VersionKey_discrete, version_key, Fingerprint_discrete,
  content_fingerprint,
}
use invest_quant_system.Contracts.Market.Bar.Valid.{IsWellFormed, validate-IsWellFormed_iff}
use invest_quant_system.MarketData.Repository.{
  MarketRepository, DuplicatePolicy, idempotent, conflict_to_quarantine, raise, duplicate, store,
  save_bar, conflict,
}

abbrev pub stored : MarketRepository → VersionKey → Option MarketBar
stored r k = Dict.get VersionKey_discrete r.bars k

conflict-bars :
    (p : DuplicatePolicy) (b : MarketBar) (now : Datetime) (r : MarketRepository)
    → (conflict p b now r).1.bars ≡ r.bars
unfolding conflict
conflict-bars idempotent b now r = refl
conflict-bars conflict_to_quarantine b now r = refl
conflict-bars raise b now r = refl

-- The branch of a key that is taken changes no bar.
taken-bars :
    (existing b : MarketBar) (now : Datetime) (r : MarketRepository)
    → (store (some existing) b now r).1.bars ≡ r.bars
unfolding store
taken-bars existing b now r =
    elim (Fingerprint_discrete (content_fingerprint existing) (content_fingerprint b))
      as (λ t. (ite t (ok duplicate, r) (conflict r.duplicate_policy b now r)).1.bars ≡ r.bars) [
        | yes same ↦ refl
        | no other ↦ conflict-bars r.duplicate_policy b now r
      ]

store-keeps :
    (o : Option MarketBar) (b : MarketBar) (now : Datetime) (r : MarketRepository) (k : VersionKey)
    (old : MarketBar)
    → stored r (version_key b) ≡ o
    → stored r k ≡ some old
    → stored (store o b now r).1 k ≡ some old
unfolding store
store-keeps (some existing) b now r k old e h =
    ap (λ (d : Dict VersionKey MarketBar). Dict.get VersionKey_discrete d k)
      (taken-bars existing b now r)
    ∙ h
store-keeps none b now r k old e h =
    get-put_ne VersionKey_discrete r.bars (version_key b) k b (λ p. cc (ap (stored r) p)) ∙ h

-- A bar that is stored under a key is still there, unchanged, after any `save_bar`, whatever its
-- outcome.
pub save_bar-keeps :
    (b : MarketBar) (now : Datetime) (r : MarketRepository) (k : VersionKey) (old : MarketBar)
    → stored r k ≡ some old
    → stored (save_bar b now r).1 k ≡ some old
unfolding save_bar
save_bar-keeps b now r k old h = elim (Result-cases (Bar.validate b true)) [
  | inl (_, p) ↦ rw p (store-keeps (stored r (version_key b)) b now r k old refl h)
  | inr (e, p) ↦ rw p h
]

-- Every stored bar is well formed and filed under its own key.
pub record IsFiled (k : VersionKey) (b : MarketBar) : Type 0 where
  pub key : version_key b ≡ k
  pub well_formed : IsWellFormed b

abbrev pub IsValid : MarketRepository → Type 0
IsValid r = Entries VersionKey_discrete IsFiled r.bars

store-IsValid :
    (o : Option MarketBar) (b : MarketBar) (now : Datetime) (r : MarketRepository)
    → IsWellFormed b
    → IsValid r
    → IsValid (store o b now r).1
unfolding store
store-IsValid none b now r w h =
    Entries-put VersionKey_discrete IsFiled r.bars (version_key b) b h
      (record { key = refl; well_formed = w })
store-IsValid (some existing) b now r w h = rw (taken-bars existing b now r) h

-- `save_bar` keeps every stored bar well formed and under its own key.
save_bar-IsValid :
    (b : MarketBar) (now : Datetime) (r : MarketRepository)
    → IsValid r
    → IsValid (save_bar b now r).1
unfolding save_bar
save_bar-IsValid b now r h = elim (Result-cases (Bar.validate b true)) [
  | inl (_, p) ↦
      rw p (store-IsValid (stored r (version_key b)) b now r ((validate-IsWellFormed_iff b).0 p) h)
  | inr (e, p) ↦ rw p h
]

duplicate_content :
    (b : MarketBar) (now : Datetime) (r : MarketRepository)
    → store (some b) b now r ≡ (ok duplicate, r)
unfolding store
duplicate_content b now r = ground arith

-- Saving a well-formed bar that is stored under its key already is answered as a duplicate and
-- changes nothing.
pub save_bar_again :
    (b : MarketBar) (now : Datetime) (r : MarketRepository)
    → IsWellFormed b
    → stored r (version_key b) ≡ some b
    → save_bar b now r ≡ (ok duplicate, r)
unfolding save_bar
save_bar_again b now r w h = rw ((validate-IsWellFormed_iff b).1 w, h) (duplicate_content b now r)
