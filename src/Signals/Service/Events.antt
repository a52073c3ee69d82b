-- ===== src/Signals/Service/Events.antt =====
-- What `create_event` promises of its event, and what the signal store makes of it.
use invest_quant_system.Prelude.{String, ◌≡◌, ◌≢◌, ap, sym, ◌∙◌, Option, none, some, true, arith}
use invest_quant_system.Prelude.Result.{ok, err, signal_conflict, step-ok}
use invest_quant_system.Contracts.Moment.{Datetime}
use invest_quant_system.Contracts.Signals.{
  SignalCandidate, SignalEvent, validate_candidate, validate_event,
}
use invest_quant_system.Contracts.Signals.Valid.{IsSound, validate_event-IsSound}
use invest_quant_system.Versions.{VersionRegistry, is_strategy_frozen}
use invest_quant_system.Signals.Repository.{SignalRepository, append_signal}
use invest_quant_system.Signals.Repository.AppendOnly.{stored, append_signal_conflict}
use invest_quant_system.Signals.Service.{
  SignalPayload, SignalService, strategy_identity, verify_strategy_frozen, event_of, create_event,
}

abbrev pub IsFrozenIn : Option VersionRegistry → SignalCandidate → Type 0
IsFrozenIn none c = Unit
IsFrozenIn (some registry) c = is_strategy_frozen registry (strategy_identity c) ≡ true

verify-IsFrozenIn :
    (v : Option VersionRegistry) (c : SignalCandidate)
    → verify_strategy_frozen v c ≡ ok tt
    → IsFrozenIn v c
unfolding verify_strategy_frozen
verify-IsFrozenIn none c h = tt
verify-IsFrozenIn (some registry) c h = ground arith

module _ (digest : SignalPayload → String) where
  -- What an event has that was created from a candidate at a time.
  pub record IsEventOf (service : SignalService) (c : SignalCandidate) (now : Datetime)
      (e : SignalEvent) : Type 0 where
    pub sound : IsSound e
    pub frozen : IsFrozenIn service.version_registry c
    pub built : e ≡ event_of digest service c now
    pub valid : validate_event e ≡ ok tt

  created :
      (service : SignalService) (c : SignalCandidate) (now : Datetime) (e : SignalEvent)
      → create_event digest service c now ≡ ok e
      → (verify_strategy_frozen service.version_registry c ≡ ok tt)
        × (validate_event (event_of digest service c now) ≡ ok tt)
        × (e ≡ event_of digest service c now)
  unfolding create_event
  created service c now e h =
      let (_, h₁) = step-ok (validate_candidate c) _ e h in
      let (frozen, h₂) = step-ok (verify_strategy_frozen service.version_registry c) _ e h₁ in
      let (valid, h₃) = step-ok (validate_event (event_of digest service c now)) _ e h₂ in
      (frozen, valid, cc)

  -- An event that `create_event` returns is valid and so looks at nothing later than itself, is the
  -- candidate's event of that time, executable one second later, and its strategy is frozen if the
  -- service has a registry.
  pub create_event-IsEventOf :
      (service : SignalService) (c : SignalCandidate) (now : Datetime) (e : SignalEvent)
      → create_event digest service c now ≡ ok e
      → IsEventOf service c now e
  create_event-IsEventOf service c now e h =
      let (frozen, valid, built) = created service c now e h in
      record {
        sound = validate_event-IsSound e (rw built valid);
        frozen = verify-IsFrozenIn service.version_registry c frozen;
        built = built;
        valid = rw built valid;
      }

  -- The events of one candidate at two times have one id and differ, so that the second is refused
  -- by the store that holds the first: the store is as before.
  rerun_conflicts :
      (service : SignalService) (c : SignalCandidate) (now now' : Datetime) (e e' : SignalEvent)
      (r : SignalRepository)
      → create_event digest service c now ≡ ok e
      → create_event digest service c now' ≡ ok e'
      → now.instant ≢ now'.instant
      → stored r e.signal_id ≡ some e
      → append_signal e' r ≡ (err (signal_conflict "SignalEvent append-only conflict"), r)
  unfolding event_of
  rerun_conflicts service c now now' e e' r h h' differ held =
      let a = create_event-IsEventOf service c now e h in
      let b = create_event-IsEventOf service c now' e' h' in
      append_signal_conflict e' e r b.valid
        (ap (stored r) (
            ap (λ (s : SignalEvent). s.signal_id) b.built
            ∙ sym (ap (λ (s : SignalEvent). s.signal_id) a.built))
          ∙ held)
        (λ p. differ (
          sym (ap (λ (s : SignalEvent). s.event_time.instant) a.built)
          ∙ ap (λ (s : SignalEvent). s.event_time.instant) p
          ∙ ap (λ (s : SignalEvent). s.event_time.instant) b.built))
