-- ===== src/Domain/Reducer/Examples.antt =====
-- A session of reducer.rs from its creation to its archiving, and the theorems at it.
use fanzloud.Base.{ℕ, ◌+◌, ◌≡◌, refl, none, some, List, [], ◌∷◌, ok, true, length}
use fanzloud.Domain.Sequence.{checked_next}
use fanzloud.Domain.Event.{DomainEvent, DomainEventEnvelope, kind}
use fanzloud.Domain.Reducer.{
  SessionProjection, SessionReducer, running, archived, new, create, advance, apply_transition,
  apply, replay, ready,
}
use fanzloud.Domain.Reducer.Machine
use fanzloud.Domain.Reducer.Invariant.{IsValid, new-IsValid, replay-IsValid}
use fanzloud.Domain.Reducer.Machine.{
  turn_after, approval_after, sandbox_after, apply_transition-target, apply_transition-effect,
  apply_accepts,
}
use fanzloud.Domain.Reducer.Replay.{Follow, replay-Follow}

abbrev envelope : ℕ → DomainEvent → DomainEventEnvelope
envelope n d = record {
  event_id = 100 + n;
  stream_id = 7;
  seq = n;
  schema_version = 1;
  occurred_at = 1000 + n;
  causation_id = none;
  correlation_id = 9;
  payload = d;
}

abbrev opening : List DomainEventEnvelope
opening =
    envelope 1 DomainEvent.session_created
    ∷ envelope 2 (DomainEvent.sandbox_provisioned 3)
    ∷ envelope 3 (DomainEvent.turn_started 5)
    ∷ []

abbrev in_turn : SessionProjection
in_turn = record {
  session_id = 7;
  status = running;
  active_turn = some 5;
  pending_approval = none;
  sandbox_id = some 3;
  last_activity = 1003;
  last_seq = 3;
}

abbrev opened : SessionReducer
opened = record { stream_id = 7; last_seq = 3; projection = some in_turn }

replay_opening : replay (new 7) opening ≡ ok opened
unfolding replay apply advance create apply_transition checked_next new
replay_opening = refl

replay-IsValid_example : IsValid opened
replay-IsValid_example = replay-IsValid opening (new 7) opened (new-IsValid 7) replay_opening

replay-Follow_example : Follow 0 opening × (3 ≡ 0 + length opening)
unfolding new
replay-Follow_example = replay-Follow opening (new 7) opened replay_opening

apply_transition-target_example :
    Machine.status_after (apply_transition in_turn (DomainEvent.turn_completed 5)) ≡ some ready
unfolding kind
apply_transition-target_example = apply_transition-target in_turn (DomainEvent.turn_completed 5)

abbrev after_turn : SessionProjection
after_turn = record in_turn { status = ready; active_turn = none }

apply_accepts_example :
    Machine.is_ok (apply opened (envelope 4 (DomainEvent.turn_completed 5))) ≡ true
unfolding kind
apply_accepts_example = apply_accepts opened (envelope 4 (DomainEvent.turn_completed 5))

abbrev closed : SessionReducer
closed = record opened {
  projection = some (record in_turn { status = archived; active_turn = none });
}
