-- ===== src/Tests/Service.antt =====
-- Frozen identities, and the events of one candidate at two times.
use invest_quant_system.Prelude.{String, ◌≡◌, ◌≢◌, refl, some, [], ◌∷◌, arith}
use invest_quant_system.Prelude.Tests.{String_discrete}
use invest_quant_system.Prelude.Int.{ℤ_discrete}
use invest_quant_system.Prelude.Text.{is_empty, is_blank, is_space}
use invest_quant_system.Prelude.Dict.{get, put}
use invest_quant_system.Prelude.Result.{ok}
use invest_quant_system.Contracts.Moment.{require_aware_utc, require_offset}
use invest_quant_system.Contracts.Checks.{require_all_utc}
use invest_quant_system.Contracts.Features.{snapshot_visible_at}
use invest_quant_system.Contracts.Signals.{
  SignalEvent, validate_candidate, validate_event, check_event, check_regime,
}
use invest_quant_system.Versions.{
  VersionRegistry, Identity, frozen_version, frozen_strategy, check_identity, freeze_checked,
  freeze_strategy, is_strategy_frozen,
}
use invest_quant_system.Signals.Repository.{SignalRepository}
use invest_quant_system.Signals.Repository.AppendOnly.{stored}
use invest_quant_system.Signals.Service.{
  SignalPayload, SignalService, deterministic_signal_id, event_of, create_event, strategy_identity,
  verify_strategy_frozen,
}
use invest_quant_system.Signals.Service.Events.{IsEventOf, create_event-IsEventOf}
use invest_quant_system.Tests.Data.{utc, candidate}

abbrev identity : Identity
identity = strategy_identity candidate

abbrev other_identity : Identity
other_identity = record identity { strategy_name = "reversal" }

abbrev registry : VersionRegistry
registry = record { frozen = ("momentum", frozen_strategy identity (utc 1)) ∷ [] }

abbrev service : SignalService
service = record { schema_version = "signal-event-v1"; version_registry = some registry }

abbrev payload_name : SignalPayload → String
payload_name p = p.strategy_name

abbrev first_event : SignalEvent
first_event = event_of payload_name service candidate (utc 301)

abbrev second_event : SignalEvent
second_event = event_of payload_name service candidate (utc 400)

abbrev event_store : SignalRepository
event_store = record { signals = ("momentum", first_event) ∷ []; tasks = []; evaluations = [] }

other_freezes :
    (freeze_strategy other_identity (utc 2) registry).0 ≡ ok (frozen_version other_identity (utc 2))
unfolding freeze_strategy check_identity freeze_checked get put String_discrete is_empty is_blank
    is_space
other_freezes = refl

first_created : create_event payload_name service candidate (utc 301) ≡ ok first_event
unfolding create_event event_of deterministic_signal_id validate_candidate verify_strategy_frozen
    is_strategy_frozen get String_discrete validate_event require_all_utc require_aware_utc
    require_offset ℤ_discrete check_event snapshot_visible_at check_regime is_empty
first_created = refl

second_created : create_event payload_name service candidate (utc 400) ≡ ok second_event
unfolding create_event event_of deterministic_signal_id validate_candidate verify_strategy_frozen
    is_strategy_frozen get String_discrete validate_event require_all_utc require_aware_utc
    require_offset ℤ_discrete check_event snapshot_visible_at check_regime is_empty
second_created = refl

first_stored : stored event_store first_event.signal_id ≡ some first_event
unfolding get String_discrete event_of deterministic_signal_id
first_stored = refl

times_differ : (utc 301).instant ≢ (utc 400).instant
times_differ = λ p. omega arith

create_event-IsEventOf_example : IsEventOf payload_name service candidate (utc 301) first_event
create_event-IsEventOf_example =
    create_event-IsEventOf payload_name service candidate (utc 301) first_event first_created
