-- ===== src/Signals/Repository/AppendOnly.antt =====
-- Signals are appended: none is overwritten, and the same one again is no error.
use invest_quant_system.Prelude.{
  String, ◌≡◌, ◌≢◌, refl, ap, sym, ◌∙◌, inl, inr, Option, none, some, arith,
}
use invest_quant_system.Prelude.Tests.{String_discrete}
use invest_quant_system.Prelude.Dict
use invest_quant_system.Prelude.Dict.{Dict, get-put_ne, get-put_self}
use invest_quant_system.Prelude.Result.{Result, ok, err, signal_conflict, Result-cases}
use invest_quant_system.Contracts.Signals.{SignalEvent, SignalEvent_discrete, validate_event}
use invest_quant_system.Signals.Repository.{
  append_behind, SignalRepository, append_checked, append_signal,
}

abbrev pub stored : SignalRepository → String → Option SignalEvent
stored r id = Dict.get String_discrete r.signals id

-- An id that is taken keeps the store as it is.
taken-store :
    (existing e : SignalEvent) (r : SignalRepository) → (append_checked (some existing) e r).1 ≡ r
unfolding append_checked
taken-store existing e r = ground arith

append_checked-keeps :
    (o : Option SignalEvent) (e : SignalEvent) (r : SignalRepository) (id : String)
    (old : SignalEvent)
    → stored r e.signal_id ≡ o
    → stored r id ≡ some old
    → stored (append_checked o e r).1 id ≡ some old
unfolding append_checked
append_checked-keeps none e r id old p h =
    get-put_ne String_discrete r.signals e.signal_id id e (λ q. cc (ap (stored r) q)) ∙ h
append_checked-keeps (some existing) e r id old p h =
    ap (λ (s : SignalRepository). stored s id) (taken-store existing e r) ∙ h

-- A signal that is stored is still there, unchanged, after any `append_signal`, whatever its
-- outcome.
pub append_signal-keeps :
    (e : SignalEvent) (r : SignalRepository) (id : String) (old : SignalEvent)
    → stored r id ≡ some old
    → stored (append_signal e r).1 id ≡ some old
unfolding append_signal
append_signal-keeps e r id old h = elim (Result-cases (validate_event e)) [
  | inl (_, p) ↦ rw p (append_checked-keeps (stored r e.signal_id) e r id old refl h)
  | inr (x, p) ↦ rw p h
]

-- An id that is taken is answered with success only to the event it holds.
taken-same :
    (existing e : SignalEvent) (r : SignalRepository) (id : String)
    → (append_checked (some existing) e r).0 ≡ ok id
    → existing ≡ e
unfolding append_checked
taken-same existing e r id h = elim (SignalEvent_discrete existing e) [
  | yes p ↦ p
  | no p ↦ ground arith
]

append_checked-stored :
    (o : Option SignalEvent) (e : SignalEvent) (r : SignalRepository) (id : String)
    → stored r e.signal_id ≡ o
    → (append_checked o e r).0 ≡ ok id
    → stored (append_checked o e r).1 e.signal_id ≡ some e
unfolding append_checked
append_checked-stored none e r id p h = get-put_self String_discrete r.signals e.signal_id e
append_checked-stored (some existing) e r id p h =
    ap (λ (s : SignalRepository). stored s e.signal_id) (taken-store existing e r)
    ∙ p
    ∙ ap some (taken-same existing e r id h)

same_event :
    (e : SignalEvent) (r : SignalRepository) → append_checked (some e) e r ≡ (ok e.signal_id, r)
unfolding append_checked
same_event e r = ground arith

-- When `append_signal` has returned, the event is stored under its id, and appending it again
-- returns the same id and changes nothing.
pub append_signal_again :
    (e : SignalEvent) (r : SignalRepository) (id : String)
    → (append_signal e r).0 ≡ ok id
    → let r' = (append_signal e r).1 in
      (stored r' e.signal_id ≡ some e) × (append_signal e r' ≡ (ok e.signal_id, r'))
unfolding append_signal
append_signal_again e r id h = elim (Result-cases (validate_event e)) [
  | inr (x, p) ↦ cc (rw p at h)
  | inl (u, p) ↦
      let now_stored : stored (append_signal e r).1 e.signal_id ≡ some e = rw p (
        append_checked-stored (stored r e.signal_id) e r id refl
          (ap (λ (x : Result Unit). (append_behind x e r).0) (sym p) ∙ h)) in
      (
        now_stored,
        ap (λ (x : Result Unit). append_behind x e (append_signal e r).1) p
            ∙ ap (λ (o : Option SignalEvent). append_checked o e (append_signal e r).1) now_stored
            ∙ same_event e (append_signal e r).1,
      )
]

-- A valid event whose id is taken by an event that differs is refused, and the store is as before.
pub append_signal_conflict :
    (e existing : SignalEvent) (r : SignalRepository)
    → validate_event e ≡ ok tt
    → stored r e.signal_id ≡ some existing
    → existing ≢ e
    → append_signal e r ≡ (err (signal_conflict "SignalEvent append-only conflict"), r)
unfolding append_signal
append_signal_conflict e existing r valid p other = rw (valid, p) (ground arith)
