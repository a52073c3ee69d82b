-- ===== src/Portfolio/Paper/Once.antt =====
-- The paper portfolio executes a signal at most once.
use invest_quant_system.Prelude.{String, ◌≡◌, refl, ap, ◌∙◌, inl, inr, Option, none, some, true}
use invest_quant_system.Prelude.Tests.{String_discrete, Bool-cases}
use invest_quant_system.Prelude.Decimal.{Decimal}
use invest_quant_system.Prelude.Dict.{contains, contains-put_self}
use invest_quant_system.Contracts.Signals.{SignalEvent}
use invest_quant_system.Contracts.Portfolio.{OrderSide, PaperOrder, PaperFill}
use invest_quant_system.Portfolio.Position.{quantity_of}
use invest_quant_system.Portfolio.Paper.{
  PaperPortfolio, size_for, execute, paper_id, fill_for, apply_signal,
}

module _ (digest : String → String → String → String) where
  -- a portfolio that has the fill of a signal executes nothing for it
  execute_known :
      (o : Option (OrderSide × Decimal)) (p : PaperPortfolio) (s : SignalEvent) (price : Decimal)
      → contains String_discrete p.fills (paper_id digest p "fill" s.signal_id) ≡ true
      → execute digest o p s price ≡ (none, p)
  execute_known none p s price known = refl
  execute_known (some (side, quantity)) p s price known = rw known refl

  execute-contains :
      (o : Option (OrderSide × Decimal)) (p : PaperPortfolio) (s : SignalEvent) (price : Decimal)
      (x : PaperOrder × PaperFill)
      → (execute digest o p s price).0 ≡ some x
      → let p' = (execute digest o p s price).1 in
        contains String_discrete p'.fills (paper_id digest p' "fill" s.signal_id) ≡ true
  execute-contains none p s price x h = cc
  execute-contains (some (side, quantity)) p s price x h =
      elim (Bool-cases (contains String_discrete p.fills (paper_id digest p "fill" s.signal_id))) [
        | inl known ↦ cc (rw known at h)
        | inr new ↦ rw new (
            contains-put_self String_discrete p.fills (paper_id digest p "fill" s.signal_id)
              (fill_for digest p s price quantity))
      ]

  -- After `apply_signal` has executed a signal, it executes none with the same id again, at whatever
  -- price and with whatever action, and changes nothing.
  apply_signal_once :
      (p : PaperPortfolio) (s s' : SignalEvent) (price price' : Decimal)
      (x : PaperOrder × PaperFill)
      → (apply_signal digest p s price).0 ≡ some x
      → s'.signal_id ≡ s.signal_id
      → let p' = (apply_signal digest p s price).1 in apply_signal digest p' s' price' ≡ (none, p')
  unfolding apply_signal
  apply_signal_once p s s' price price' x h same =
      let o = size_for s.signal_action (quantity_of p.positions s.symbol) p.default_quantity in
      let p' = (execute digest o p s price).1 in
      execute_known
        (size_for s'.signal_action (quantity_of p'.positions s'.symbol) p'.default_quantity) p' s'
        price'
        (ap (λ (id : String). contains String_discrete p'.fills (paper_id digest p' "fill" id)) same
          ∙ execute-contains o p s price x h)
