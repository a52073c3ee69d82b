-- ===== src/MarketData/Replay/Order.antt =====
-- What a replay yields: well-formed bars whose times strictly rise.
use invest_quant_system.Prelude.{
  ℕ, ◌<◌, ◌≡◌, refl, inl, inr, true, false, Option, none, some, List, [], ◌∷◌, arith,
}
use invest_quant_system.Prelude.Tests.{Bool-cases}
use invest_quant_system.Prelude.Result.{Result-cases}
use invest_quant_system.Contracts.Market.Bar
use invest_quant_system.Contracts.Market.Bar.{MarketBar}
use invest_quant_system.Contracts.Market.Bar.Valid.{IsWellFormed, validate-IsWellFormed_iff}
use invest_quant_system.MarketData.Repository.{MarketRepository, Query, read_bars, bar_instant}
use invest_quant_system.MarketData.Replay.{replay_from, read, is_stale}

abbrev pub IsAfter : Option ℕ → ℕ → Type 0
IsAfter none t = Unit
IsAfter (some previous) t = previous < t

-- Well formed, and each later than the one before it.
abbrev pub IsRising : Option ℕ → List MarketBar → Type 0
IsRising previous [] = Unit
IsRising previous (b ∷ bs) =
    IsAfter previous (bar_instant b) × IsWellFormed b × IsRising (some (bar_instant b)) bs

not_stale-IsAfter : (previous : Option ℕ) (t : ℕ) → is_stale previous t ≡ false → IsAfter previous t
not_stale-IsAfter none t h = tt
not_stale-IsAfter (some p) t h = ground arith

after_not_stale : (previous : Option ℕ) (t : ℕ) → IsAfter previous t → is_stale previous t ≡ false
after_not_stale none t h = refl
after_not_stale (some p) t h = ground arith

replay_from-IsRising :
    (previous : Option ℕ) (bs : List MarketBar) → IsRising previous (replay_from previous bs).bars
unfolding replay_from
replay_from-IsRising previous [] = tt
replay_from-IsRising previous (b ∷ bs) = elim (Result-cases (Bar.validate b true)) [
  | inr (e, p) ↦ rw p tt
  | inl (_, p) ↦ elim (Bool-cases (is_stale previous (bar_instant b))) [
    | inl stale ↦ rw (p, stale) tt
    | inr fresh ↦
        rw (p, fresh)
          (
            not_stale-IsAfter previous (bar_instant b) fresh,
            (validate-IsWellFormed_iff b).0 p,
            replay_from-IsRising (some (bar_instant b)) bs,
          )
  ]
]

replay_from-all :
    (previous : Option ℕ) (bs : List MarketBar)
    → IsRising previous bs
    → replay_from previous bs ≡ record { bars = bs; raised = none }
unfolding replay_from
replay_from-all previous [] h = refl
replay_from-all previous (b ∷ bs) (later, valid, rest) = rw (
  (validate-IsWellFormed_iff b).1 valid,
  after_not_stale previous (bar_instant b) later,
  replay_from-all (some (bar_instant b)) bs rest,
)

-- Whatever the store holds, the bars that a replay has yielded are well formed and their times
-- strictly rise; and if those of the read do so already, the replay yields them all and does not
-- raise.
pub read-IsRising :
    (r : MarketRepository) (q : Query)
    → IsRising none (read r q).bars
      × (IsRising none (read_bars r q) → read r q ≡ record { bars = read_bars r q; raised = none })
unfolding read
read-IsRising r q =
    (replay_from-IsRising none (read_bars r q), replay_from-all none (read_bars r q))
