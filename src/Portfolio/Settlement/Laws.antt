-- ===== src/Portfolio/Settlement/Laws.antt =====
-- What settles, and what `Settlement.settle` forgets.
use invest_quant_system.Prelude.{
  ◌≤◌, String, ◌≡◌, refl, inl, inr, true, false, List, [], ◌∷◌, ◌++◌, arith,
}
use invest_quant_system.Prelude.Tests.{if◌then◌else◌, Bool-cases}
use invest_quant_system.Prelude.Int.{pos, ◌+ℤ◌}
use invest_quant_system.Prelude.Decimal.{Decimal}
use invest_quant_system.Prelude.Sort.{keep}
use invest_quant_system.Prelude.Lists.{All}
use invest_quant_system.Contracts.Moment.{Datetime, ltb_time}
use invest_quant_system.Portfolio.Settlement.{
  SettlementRecord, Settlement, is_settled, settled_from, settled_in, settle, sellable_quantity,
}

-- One lot more adds its quantity, if it has settled, and nothing else.
pub settled_from-snoc :
    (total : Decimal) (rs : List SettlementRecord) (r : SettlementRecord) (s : String)
    (t : Datetime)
    → settled_from total (rs ++ r ∷ []) s t ≡ (
        if is_settled s t r
        then settled_from total rs s t +ℤ r.quantity
        else settled_from total rs s t)
unfolding settled_from
settled_from-snoc total [] r s t = refl
settled_from-snoc total (q ∷ rs) r s t =
    settled_from-snoc (if is_settled s t q then total +ℤ q.quantity else total) rs r s t

pub settled_in-snoc :
    (rs : List SettlementRecord) (r : SettlementRecord) (s : String) (t : Datetime)
    → settled_in (rs ++ r ∷ []) s t
      ≡ (if is_settled s t r then settled_in rs s t +ℤ r.quantity else settled_in rs s t)
unfolding settled_in
settled_in-snoc = settled_from-snoc (pos 0)

-- No lot that is left has settled: a sum over them adds nothing.
settled_from-unsettled :
    (total : Decimal) (rs : List SettlementRecord) (s : String) (t : Datetime)
    → All (λ r. is_settled s t r ≡ false) rs
    → settled_from total rs s t ≡ total
unfolding settled_from
settled_from-unsettled total [] s t h = refl
settled_from-unsettled total (r ∷ rs) s t (p, q) = rw p (settled_from-unsettled total rs s t q)

pub settled_in-unsettled :
    (rs : List SettlementRecord) (s : String) (t : Datetime)
    → All (λ r. is_settled s t r ≡ false) rs
    → settled_in rs s t ≡ pos 0
unfolding settled_in
settled_in-unsettled = settled_from-unsettled (pos 0)

not_settled_before :
    (r : SettlementRecord) (s : String) (t u : Datetime)
    → ltb_time t r.settle_date ≡ true
    → u.instant ≤ t.instant
    → is_settled s u r ≡ false
not_settled_before r s t u later h = ground arith

kept_unsettled :
    (rs : List SettlementRecord) (s : String) (t u : Datetime)
    → u.instant ≤ t.instant
    → All (λ r. is_settled s u r ≡ false) (keep (λ r. ltb_time t r.settle_date) rs)
unfolding keep
kept_unsettled [] s t u h = tt
kept_unsettled (r ∷ rs) s t u h = elim (Bool-cases (ltb_time t r.settle_date)) [
  | inl later ↦ rw later (not_settled_before r s t u later h, kept_unsettled rs s t u h)
  | inr due ↦ rw due (kept_unsettled rs s t u h)
]

-- After `settle(t)`, `sellable_quantity` is zero for every symbol at every time up to `t`: the
-- call drops just the lots that had become sellable.
settle_forgets_settled :
    (st : Settlement) (s : String) (t u : Datetime)
    → u.instant ≤ t.instant
    → sellable_quantity (settle st t) s u ≡ pos 0
unfolding settle sellable_quantity
settle_forgets_settled st s t u h =
    settled_in-unsettled (keep (λ r. ltb_time t r.settle_date) st.pending) s u
      (kept_unsettled st.pending s t u h)
