-- ===== src/Signals/Sqlite/Calls.antt =====
-- What the two stores are called with, one call after another, and what they answer: the store in
-- memory stands for both.
use invest_quant_system.Prelude.{ℕ, String, ◌≡◌, refl, false, some, List, [], ◌∷◌}
use invest_quant_system.Prelude.Lists.{All}
use invest_quant_system.Prelude.Result.{Result, ok, err}
use invest_quant_system.Contracts.Moment.{Datetime}
use invest_quant_system.Contracts.Signals.{SignalEvent}
use invest_quant_system.Contracts.Evaluation.{EvaluationTask, TaskKey, SignalEvaluation}
use invest_quant_system.Signals.Repository
use invest_quant_system.Signals.Repository.{SignalRepository, Upserted}
use invest_quant_system.Signals.Sqlite.Store
use invest_quant_system.Signals.Sqlite.Tables.{Database}
use invest_quant_system.Signals.Sqlite.Store.{is_naive}
use invest_quant_system.Signals.Sqlite.Refines.{
  db_of, stored_as, append_signal-refines, upsert_task-refines, upsert_evaluation-refines,
}
use invest_quant_system.Signals.Sqlite.Tasks.{
  AreFiled, claim-refines, complete_task-refines, postpone_task-refines,
}
use invest_quant_system.Signals.Sqlite.Filed.{
  IsFresh, append_signal-AreFiled, upsert_evaluation-AreFiled, upsert_task-AreFiled, claim-AreFiled,
  complete_task-AreFiled, postpone_task-AreFiled,
}

pub data Call : Type 0 where
  append : SignalEvent → Call
  upsert : EvaluationTask → Call
  claim : TaskKey → String → Datetime → ℕ → Call
  complete : TaskKey → Call
  postpone : TaskKey → Datetime → String → Call
  record_evaluation : SignalEvaluation → Call

pub data Answer : Type 0 where
  stored_id : String → Answer
  done : Answer
  granted : EvaluationTask → Answer
  recorded : Upserted → Answer

abbrev pub answered : {A S : Type 0} → (A → Answer) → Result A × S → Result Answer × S
answered f (err e, s) = (err e, s)
answered f (ok a, s) = (ok (f a), s)

abbrev pub done_with : Unit {0} → Answer
done_with u = done

unfoldable pub call_memory : Call → SignalRepository → Result Answer × SignalRepository
unfolding Repository.append_signal Repository.upsert_task Repository.claim Repository.complete_task
    Repository.postpone_task Repository.upsert_evaluation
call_memory (append event) r = answered stored_id (Repository.append_signal event r)
call_memory (upsert task) r = answered done_with (Repository.upsert_task task r)
call_memory (claim key worker_id now lease_seconds) r =
    answered granted (Repository.claim key worker_id now lease_seconds r)
call_memory (complete key) r = answered done_with (Repository.complete_task key r)
call_memory (postpone key next_retry_at reason) r =
    answered done_with (Repository.postpone_task key next_retry_at reason r)
call_memory (record_evaluation e) r = answered recorded (Repository.upsert_evaluation e r)

unfoldable pub call_sqlite : Call → Database → Result Answer × Database
unfolding Store.append_signal Store.upsert_task Store.claim Store.complete_task Store.postpone_task
    Store.upsert_evaluation
call_sqlite (append event) db = answered stored_id (Store.append_signal event db)
call_sqlite (upsert task) db = answered done_with (Store.upsert_task task db)
call_sqlite (claim key worker_id now lease_seconds) db =
    answered granted (Store.claim key worker_id now lease_seconds db)
call_sqlite (complete key) db = answered done_with (Store.complete_task key db)
call_sqlite (postpone key next_retry_at reason) db =
    answered done_with (Store.postpone_task key next_retry_at reason db)
call_sqlite (record_evaluation e) db = answered recorded (Store.upsert_evaluation e db)

-- the answers of calls one after another, and what they leave
unfoldable pub run_memory : List Call → SignalRepository → List (Result Answer) × SignalRepository
unfolding call_memory
run_memory [] r = ([], r)
run_memory (c ∷ cs) r =
    let (a, r') = call_memory c r in let (rest, last) = run_memory cs r' in (a ∷ rest, last)

unfoldable pub run_sqlite : List Call → Database → List (Result Answer) × Database
unfolding call_sqlite
run_sqlite [] db = ([], db)
run_sqlite (c ∷ cs) db =
    let (a, db') = call_sqlite c db in let (rest, last) = run_sqlite cs db' in (a ∷ rest, last)

-- a new task has no naive time to retry at and a lease if it runs, and a postponement is to no naive time
abbrev pub IsAdmissible : Call → Type 0
IsAdmissible (upsert task) = IsFresh task
IsAdmissible (postpone key next_retry_at reason) = is_naive (some next_retry_at) ≡ false
IsAdmissible _ = Unit {0}

answered-stored_as :
    {A : Type 0} (f : A → Answer) (o : Repository.Outcome A)
    → answered f (stored_as o) ≡ stored_as (answered f o)
answered-stored_as f (err e, r) = refl
answered-stored_as f (ok a, r) = refl

answered-left : {A S : Type 0} (f : A → Answer) (o : Result A × S) → (answered f o).1 ≡ o.1
answered-left f (err e, s) = refl
answered-left f (ok a, s) = refl

call-refines :
    (c : Call) (r : SignalRepository)
    → AreFiled r
    → IsAdmissible c
    → call_sqlite c (db_of r) ≡ stored_as (call_memory c r)
unfolding call_sqlite call_memory
call-refines (append event) r h a =
    rw (append_signal-refines event r)
      (answered-stored_as stored_id (Repository.append_signal event r))
call-refines (upsert task) r h a =
    rw (upsert_task-refines task r) (answered-stored_as done_with (Repository.upsert_task task r))
call-refines (claim key worker_id now lease_seconds) r h a =
    rw (claim-refines key worker_id now lease_seconds r h)
      (answered-stored_as granted (Repository.claim key worker_id now lease_seconds r))
call-refines (complete key) r h a =
    rw (complete_task-refines key r h)
      (answered-stored_as done_with (Repository.complete_task key r))
call-refines (postpone key next_retry_at reason) r h a =
    rw (postpone_task-refines key next_retry_at reason r h a)
      (answered-stored_as done_with (Repository.postpone_task key next_retry_at reason r))
call-refines (record_evaluation e) r h a =
    rw (upsert_evaluation-refines e r)
      (answered-stored_as recorded (Repository.upsert_evaluation e r))

call-AreFiled :
    (c : Call) (r : SignalRepository) → AreFiled r → IsAdmissible c → AreFiled (call_memory c r).1
unfolding call_memory
call-AreFiled (append event) r h a =
    rw (answered-left stored_id (Repository.append_signal event r))
      (append_signal-AreFiled event r h)
call-AreFiled (upsert task) r h a =
    rw (answered-left done_with (Repository.upsert_task task r)) (upsert_task-AreFiled task r h a)
call-AreFiled (claim key worker_id now lease_seconds) r h a =
    rw (answered-left granted (Repository.claim key worker_id now lease_seconds r))
      (claim-AreFiled key worker_id now lease_seconds r h)
call-AreFiled (complete key) r h a =
    rw (answered-left done_with (Repository.complete_task key r)) (complete_task-AreFiled key r h)
call-AreFiled (postpone key next_retry_at reason) r h a =
    rw (answered-left done_with (Repository.postpone_task key next_retry_at reason r))
      (postpone_task-AreFiled key next_retry_at reason r h a)
call-AreFiled (record_evaluation e) r h a =
    rw (answered-left recorded (Repository.upsert_evaluation e r))
      (upsert_evaluation-AreFiled e r h)

-- If every stored task is filed under its key, passes the checks of a replacement and has a lease where it runs,
-- and the calls of append_signal, upsert_task, claim, complete_task, postpone_task and upsert_evaluation, the six
-- that change the store, upsert no task with a naive time to retry at or that runs without a lease, and postpone none
-- to a naive time, then those calls on the SQLite store that holds what a store in memory holds give, one after another, the
-- answers and errors of the calls on that store, and leave the SQLite store with what that store then holds.
pub run_sqlite-refines :
    (calls : List Call) (r : SignalRepository)
    → AreFiled r
    → All IsAdmissible calls
    → run_sqlite calls (db_of r) ≡ ((run_memory calls r).0, db_of (run_memory calls r).1)
unfolding run_sqlite run_memory
run_sqlite-refines [] r h a = refl
run_sqlite-refines (c ∷ cs) r h a =
    rw (call-refines c r h a.0)
      (rw (run_sqlite-refines cs (call_memory c r).1 (call-AreFiled c r h a.0) a.1) refl)
