-- ===== src/Signals/Repository/Leases.antt =====
-- Leases: while one holds, no worker can claim the task.
use invest_quant_system.Prelude.{
  ℕ, ◌+◌, ◌<◌, ◌≤◌, String, ◌≡◌, ap, sym, ◌∙◌, inl, inr, Option, none, some, arith,
}
use invest_quant_system.Prelude.Tests.{Bool-cases, Option-cases}
use invest_quant_system.Prelude.Dict
use invest_quant_system.Prelude.Dict.{Entries, Entries-put, Entries-get, get-put_self, get-put_ne}
use invest_quant_system.Prelude.Result.{ok, err, signal_conflict}
use invest_quant_system.Contracts.Moment.{ltb_time, Datetime, microseconds}
use invest_quant_system.Contracts.Evaluation.{EvaluationTask, TaskKey, TaskKey_discrete}
use invest_quant_system.Signals.Repository.{
  SignalRepository, claimed, put_task, claim_running, claim_task, claim, is_running,
}

abbrev pub task_at : SignalRepository → TaskKey → Option EvaluationTask
task_at r key = Dict.get TaskKey_discrete r.tasks key

-- A claim that goes through has stored the task with the lease that it grants.
claim_running-stored :
    (lease : Option Datetime) (key : TaskKey) (task task' : EvaluationTask) (w : String)
    (now : Datetime) (s : ℕ) (r : SignalRepository)
    → (claim_running lease key task w now s r).0 ≡ ok task'
    → (task' ≡ claimed task w now s)
      × ((claim_running lease key task w now s r).1 ≡ put_task r key task')
claim_running-stored none key task task' w now s r h = cc
claim_running-stored (some expiry) key task task' w now s r h =
    elim (Bool-cases (ltb_time now expiry)) [
      | inl e ↦ cc (rw e at h)
      | inr e ↦
          rw e (cc (rw e at h), ap (λ (t : EvaluationTask). put_task r key t) (cc (rw e at h)))
    ]

-- What a claim that goes through has found and what it leaves.
pub record IsGranted (key : TaskKey) (w : String) (now : Datetime) (s : ℕ) (r : SignalRepository)
    (task' : EvaluationTask) : Type 0 where
  pub before : EvaluationTask
  pub found : task_at r key ≡ some before
  pub granted : task' ≡ claimed before w now s
  pub stored : (claim key w now s r).1 ≡ put_task r key task'

claim_task-stored :
    (key : TaskKey) (task task' : EvaluationTask) (w : String) (now : Datetime) (s : ℕ)
    (r : SignalRepository)
    → (claim_task (some task) key w now s r).0 ≡ ok task'
    → (task' ≡ claimed task w now s)
      × ((claim_task (some task) key w now s r).1 ≡ put_task r key task')
claim_task-stored key task task' w now s r h = elim (Bool-cases (is_running task.status)) [
  | inl e ↦ rw e (claim_running-stored task.lease_expires_at key task task' w now s r (rw e at h))
  | inr e ↦ rw e (cc (rw e at h), ap (λ (t : EvaluationTask). put_task r key t) (cc (rw e at h)))
]

-- A claim that returns a task has found one under the key, and has stored and returned it running,
-- under the worker's name, with a lease from now for its seconds and one attempt more.
pub claim-IsGranted :
    (key : TaskKey) (w : String) (now : Datetime) (s : ℕ) (r : SignalRepository)
    (task' : EvaluationTask)
    → (claim key w now s r).0 ≡ ok task'
    → IsGranted key w now s r task'
unfolding claim
claim-IsGranted key w now s r task' h = elim (Option-cases (task_at r key)) [
  | inl e ↦ cc (rw e at h)
  | inr (before, e) ↦
      let parts =
        claim_task-stored key before task' w now s r
          (ap (λ (o : Option EvaluationTask). (claim_task o key w now s r).0) (sym e) ∙ h) in
      record {
        before = before;
        found = e;
        granted = parts.0;
        stored = ap (λ (o : Option EvaluationTask). (claim_task o key w now s r).1) e ∙ parts.1;
      }
]

-- What a claim answers on a task that has just been claimed.
claim_held :
    (key : TaskKey) (before : EvaluationTask) (w w' : String) (now now' : Datetime) (s s' : ℕ)
    (r : SignalRepository)
    → let task = claimed before w now s in
      let r' = put_task r key task in
      (now'.instant < now.instant + microseconds s
        → claim key w' now' s' r' ≡ (err (signal_conflict "task lease is still active"), r'))
      × (now.instant + microseconds s ≤ now'.instant
          → (claim key w' now' s' r').0 ≡ ok (claimed task w' now' s'))
unfolding claim
claim_held key before w w' now now' s s' r =
    rw (get-put_self TaskKey_discrete r.tasks key (claimed before w now s))
      (λ h. ground arith, λ h. ground arith)

-- After a claim at `now` for `s` seconds that was granted, a claim of the same task, by whatever worker and for
-- whatever time, is refused and changes nothing as long as the lease lasts, and is granted, as
-- one attempt more, from its end on.
pub claim_exclusive :
    (key : TaskKey) (w w' : String) (now now' : Datetime) (s s' : ℕ) (r : SignalRepository)
    (task : EvaluationTask)
    → (claim key w now s r).0 ≡ ok task
    → let r' = (claim key w now s r).1 in
      (now'.instant < now.instant + microseconds s
        → claim key w' now' s' r' ≡ (err (signal_conflict "task lease is still active"), r'))
      × (now.instant + microseconds s ≤ now'.instant
          → (claim key w' now' s' r').0 ≡ ok (claimed task w' now' s'))
claim_exclusive key w w' now now' s s' r task h =
    let g = claim-IsGranted key w now s r task h in
    rw (g.stored, g.granted) (claim_held key g.before w w' now now' s s' r)
