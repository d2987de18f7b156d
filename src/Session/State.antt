-- ===== src/Session/State.antt =====
-- The state behind the lock of crates/codebox-session-runtime/src/runtime.rs, and the functions
-- that write its event stream. A method takes the state and returns the new one.
use fanzloud.Base.{
  ℕ, suc, ◌+◌, Bool, true, false, not, ◌||◌, Option, none, some, List, [], ◌∷◌, ◌++◌, map, Result,
  ok, ensure, String, u64_max, length, ltb, leb, ◌==◌, if◌then◌else◌, option_map, and_then,
}
use fanzloud.Session.Config.{P0SessionConfig}
use fanzloud.Session.Error.Category.{P0SessionErrorCategory}
use fanzloud.Session.Error.{P0SessionError, new, for_operation}
use fanzloud.Session.Types.{
  P0SessionIdentity, P0SessionState, P0CloudLifecycle, P0TurnProjection, P0SessionSnapshot,
  P0SessionEvent, P0SessionEventEnvelope, operation_id,
}

abbrev pub event_schema_version : ℕ
event_schema_version = 1

-- The `CLOSE_*` constants.
pub data CloseReason : Type 0 where
  close_open close_lagged close_runtime_stopped close_normal : CloseReason

pub record Inner : Type 0 where
  pub config : P0SessionConfig
  pub identity : P0SessionIdentity

pub record TurnRecord : Type 0 where
  pub turn_id : ℕ
  pub projection : P0TurnProjection
  pub lower_start_admitted : Bool
  pub cancel_in_progress : Bool
  pub cancel_completed : Bool

-- An `Instant` is a number of nanoseconds; a prompt is its text.
pub data WorkerWork : Type 0 where
  -- turn_id, prompt
  start : ℕ → String → WorkerWork
  -- turn_id, due, failures
  monitor : ℕ → ℕ → ℕ → WorkerWork

-- Both ends of the bounded channel of one subscription. `registered` says that the sending end is
-- in the `subscribers` map, `receiving` that the receiving end has not been dropped; `queue` holds
-- what was sent and not yet received, oldest first.
pub record Subscriber : Type 0 where
  pub subscriber_id : ℕ
  pub registered : Bool
  pub receiving : Bool
  pub queue : List P0SessionEventEnvelope
  pub close_reason : CloseReason

-- `subscribers` keeps every subscription ever made, in the order of the identifiers, with the map's
-- entries marked `registered`; `history` is oldest first.
pub record RuntimeState : Type 0 where
  pub session_state : P0SessionState
  pub current_turn : Option TurnRecord
  pub high_water_seq : ℕ
  pub history : List P0SessionEventEnvelope
  pub subscribers : List Subscriber
  pub next_subscriber_id : ℕ
  pub work : Option WorkerWork
  pub shutdown_requested : Bool
  pub worker_stopped : Bool

unfoldable pub reserve_events : RuntimeState → ℕ → Result P0SessionError (Unit {0})
reserve_events s count =
    ensure (leb (s.high_water_seq + count) u64_max) (new P0SessionErrorCategory.sequence_exhausted)

-- `while history.len() > capacity { history.pop_front() }`.
unfoldable pub evict : ℕ → List P0SessionEventEnvelope → List P0SessionEventEnvelope
evict capacity [] = []
evict capacity (e ∷ es) =
    let rest = evict capacity es in if ltb capacity (length (e ∷ es)) then rest else e ∷ es

-- `try_send`, and the removal of a subscriber that it fails for.
unfoldable pub offer : ℕ → P0SessionEventEnvelope → Subscriber → Subscriber
offer live_capacity e sub =
    if not sub.registered
    then sub
    else if not sub.receiving
    then record sub { registered = false; close_reason = close_normal }
    else if ltb (length sub.queue) live_capacity
    then record sub { queue = sub.queue ++ e ∷ [] }
    else record sub { registered = false; close_reason = close_lagged }

abbrev pub envelope : Inner → ℕ → Option ℕ → P0SessionEvent → P0SessionEventEnvelope
envelope inner seq turn payload = record {
  schema_version = event_schema_version;
  session_id = inner.identity.session_id;
  seq = seq;
  turn_id = turn;
  payload = payload;
}

unfoldable pub append_event : Inner → RuntimeState → Option ℕ → P0SessionEvent → RuntimeState
append_event inner s turn payload =
    let e = envelope inner (s.high_water_seq + 1) turn payload in
    record s {
      high_water_seq = s.high_water_seq + 1;
      history = evict inner.config.history_capacity (s.history ++ e ∷ []);
      subscribers = map (offer inner.config.live_capacity e) s.subscribers;
    }

-- `if changed { reserve_events(state, 1) }` and `if changed { append_event(…) }`.
unfoldable pub reserve_change : RuntimeState → Bool → Result P0SessionError (Unit {0})
reserve_change s changed = if changed then reserve_events s 1 else ok tt

unfoldable pub append_change : Inner → RuntimeState → ℕ → Bool → P0CloudLifecycle → RuntimeState
append_change inner s turn_id changed lifecycle =
    if changed
    then append_event inner s (some turn_id) (P0SessionEvent.lifecycle_changed lifecycle)
    else s

unfoldable pub close : CloseReason → Subscriber → Subscriber
close reason sub =
    if sub.registered then record sub { registered = false; close_reason = reason } else sub

unfoldable pub close_subscribers : RuntimeState → CloseReason → RuntimeState
close_subscribers s reason = record s { subscribers = map (close reason) s.subscribers }

-- `subscribers.len()`.
unfoldable pub subscriber_count : List Subscriber → ℕ
subscriber_count [] = 0
subscriber_count (sub ∷ subs) =
    if sub.registered then suc (subscriber_count subs) else subscriber_count subs

abbrev pub snapshot_from : Inner → RuntimeState → P0SessionSnapshot
snapshot_from inner s = record {
  identity = inner.identity;
  state = s.session_state;
  current_turn =
      option_map
        (λ (turn : TurnRecord). record { turn_id = turn.turn_id; projection = turn.projection })
        s.current_turn;
  high_water_seq = s.high_water_seq;
}

abbrev pub require_running_worker : RuntimeState → Result P0SessionError (Unit {0})
require_running_worker s =
    ensure (not (s.worker_stopped || s.shutdown_requested))
      (new P0SessionErrorCategory.runtime_stopped)

abbrev pub projection_operation : P0TurnProjection → Option ℕ
projection_operation (P0TurnProjection.cloud lifecycle requested) = some (operation_id lifecycle)
projection_operation (P0TurnProjection.monitoring_degraded op last requested) = some op
projection_operation _ = none

abbrev pub projection_lifecycle : P0TurnProjection → Option P0CloudLifecycle
projection_lifecycle (P0TurnProjection.cloud lifecycle requested) = some lifecycle
projection_lifecycle (P0TurnProjection.monitoring_degraded op last requested) = some last
projection_lifecycle _ = none

abbrev pub projection_cancel_requested : P0TurnProjection → Bool
projection_cancel_requested (P0TurnProjection.starting requested) = requested
projection_cancel_requested (P0TurnProjection.cloud lifecycle requested) = requested
projection_cancel_requested (P0TurnProjection.monitoring_degraded op last requested) = requested
projection_cancel_requested _ = false

abbrev pub set_projection_cancel_requested : P0TurnProjection → P0TurnProjection
set_projection_cancel_requested (P0TurnProjection.starting requested) =
    P0TurnProjection.starting true
set_projection_cancel_requested (P0TurnProjection.cloud lifecycle requested) =
    P0TurnProjection.cloud lifecycle true
set_projection_cancel_requested (P0TurnProjection.monitoring_degraded op last requested) =
    P0TurnProjection.monitoring_degraded op last true
set_projection_cancel_requested p = p

abbrev pub current_operation : RuntimeState → Option ℕ
current_operation s = and_then s.current_turn λ turn. projection_operation turn.projection

abbrev pub some_eq : Option ℕ → ℕ → Bool
some_eq none a = false
some_eq (some b) a = b == a

abbrev pub require_current_operation : RuntimeState → ℕ → Result P0SessionError (Unit {0})
require_current_operation s op =
    ensure (some_eq (current_operation s) op)
      (for_operation P0SessionErrorCategory.wrong_operation op)
