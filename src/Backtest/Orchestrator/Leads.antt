-- ===== src/Backtest/Orchestrator/Leads.antt =====
-- Rules for the actions of a run: what a predicate leads to over calls one after another.
use invest_quant_system.Prelude.{List, [], ◌∷◌}
use invest_quant_system.Prelude.Result.{Result, ok, err}
use invest_quant_system.Backtest.Orchestrator.{Orchestrator, Action, then_with, each, ◌>>=◌}

-- An action leads from one predicate to another, whatever it returns or raises.
abbrev pub Leads {κ} : {A : Type 0} → (P Q : Orchestrator → Type κ) → Action A → Type κ
Leads P Q m = (o : Orchestrator) → P o → Q (m o).1

abbrev pub Keeps {κ} : {A : Type 0} → (Orchestrator → Type κ) → Action A → Type κ
Keeps P m = (o : Orchestrator) → P o → P (m o).1

module _ {κ} (P : Orchestrator → Type κ) where
  pub then_with-keeps :
      {A B : Type 0} (r : Result A) (o : Orchestrator) (next : A → Action B)
      → P o
      → ((a : A) → Keeps P (next a))
      → P (then_with (r, o) next).1
  then_with-keeps (err e) o next p h = p
  then_with-keeps (ok a) o next p h = h a o p

  pub each-Keeps :
      {A : Type 0} (body : A → Action (Unit {0})) (xs : List A)
      → ((x : A) → Keeps P (body x))
      → Keeps P (each body xs)
  unfolding each
  each-Keeps body [] h o p = p
  each-Keeps body (x ∷ xs) h o p =
      then_with-keeps (body x o).0 (body x o).1 (λ _. each body xs) (h x o p)
        (λ _. each-Keeps body xs h)

lead {κ} :
    {A B : Type 0} {R Q : Orchestrator → Type κ} (r : Result A) (o : Orchestrator)
    (next : A → Action B)
    → ((o : Orchestrator) → R o → Q o)
    → ((a : A) → Leads R Q (next a))
    → R o
    → Q (then_with (r, o) next).1
lead (err e) o next w h q = w o q
lead (ok a) o next w h q = h a o q

module _ {κ} (P R Q : Orchestrator → Type κ) where
  pub bind-Leads :
      {A B : Type 0} (m : Action A) (next : A → Action B)
      → Leads P R m
      → ((o : Orchestrator) → R o → Q o)
      → ((a : A) → Leads R Q (next a))
      → Leads P Q (m >>= next)
  bind-Leads m next k w h o p = lead (m o).0 (m o).1 next w h (k o p)
