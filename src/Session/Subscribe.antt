-- ===== src/Session/Subscribe.antt =====
-- `subscribe`, `P0LiveReceiver` and `shutdown` of crates/codebox-session-runtime/src/runtime.rs.
use fanzloud.Base.{
  ℕ, ◌+◌, ◌-◌, Bool, true, false, not, none, List, [], ◌∷◌, ◌++◌, Result, ok, err, ◌>>◌, ensure,
  ltb, ◌==◌, if◌then◌else◌, option_map, is_some_and, u64_max,
}
use fanzloud.Session.Error.Category.{P0SessionErrorCategory, P0LiveReceiveError}
use fanzloud.Session.Error.{P0SessionError, new, history_gap, future_cursor}
use fanzloud.Session.Types.{
  P0SessionState, P0TurnProjection, P0SessionSnapshot, P0RuntimeStopReason, P0SessionEvent,
  P0SessionEventEnvelope,
}
use fanzloud.Session.State.{
  Inner, RuntimeState, TurnRecord, Subscriber, CloseReason, close_open, close_lagged,
  close_runtime_stopped, close_normal, reserve_events, append_event, close_subscribers,
  subscriber_count, snapshot_from, require_running_worker,
}

-- The events above a cursor.
unfoldable pub after : ℕ → List P0SessionEventEnvelope → List P0SessionEventEnvelope
after cursor [] = []
after cursor (e ∷ es) = if ltb cursor e.seq then e ∷ after cursor es else after cursor es

-- A cursor below the event before the oldest retained one is refused.
abbrev pub check_gap : List P0SessionEventEnvelope → ℕ → ℕ → Result P0SessionError (Unit {0})
check_gap [] latest cursor = ok tt
check_gap (oldest ∷ es) latest cursor =
    ensure (not (ltb cursor (oldest.seq - 1))) (history_gap oldest.seq latest)

pub record P0SessionSubscription : Type 0 where
  pub replay : List P0SessionEventEnvelope
  pub snapshot : P0SessionSnapshot
  pub live : ℕ

abbrev pub opened : ℕ → Subscriber
opened subscriber_id = record {
  subscriber_id = subscriber_id;
  registered = true;
  receiving = true;
  queue = [];
  close_reason = close_open;
}

unfoldable pub subscribe :
    Inner → RuntimeState → ℕ → ℕ → Result P0SessionError (RuntimeState × P0SessionSubscription)
subscribe inner s session_id after_seq = do
  ensure (session_id == inner.identity.session_id) (new P0SessionErrorCategory.wrong_session)
  require_running_worker s
  ensure (not (ltb s.high_water_seq after_seq)) (future_cursor s.high_water_seq)
  check_gap s.history s.high_water_seq after_seq
  ensure (ltb (subscriber_count s.subscribers) inner.config.max_subscribers)
      (new P0SessionErrorCategory.subscriber_limit)
  ensure (ltb s.next_subscriber_id u64_max) (new P0SessionErrorCategory.subscriber_limit)
  ok (
    record s {
      next_subscriber_id = s.next_subscriber_id + 1;
      subscribers = s.subscribers ++ opened s.next_subscriber_id ∷ [];
    },
    record {
      replay = after after_seq s.history;
      snapshot = snapshot_from inner s;
      live = s.next_subscriber_id;
    },
  )

abbrev pub close_error : CloseReason → P0LiveReceiveError
close_error close_lagged = P0LiveReceiveError.lagged
close_error close_runtime_stopped = P0LiveReceiveError.runtime_stopped
close_error _ = P0LiveReceiveError.closed

-- `try_recv`: what is queued is received first, also when the sending end is gone.
unfoldable pub try_recv :
    Subscriber
    → List P0SessionEventEnvelope
    → Subscriber × Result P0LiveReceiveError P0SessionEventEnvelope
try_recv sub (e ∷ es) = (record sub { queue = es }, ok e)
try_recv sub [] =
    (sub, err (if sub.registered then P0LiveReceiveError.empty else close_error sub.close_reason))

-- `Drop`: the subscriber is removed from the map if it is still there.
unfoldable pub drop_receiver : Subscriber → Subscriber
drop_receiver sub =
    if sub.registered
    then record sub { receiving = false; registered = false; close_reason = close_normal }
    else record sub { receiving = false }

-- One subscriber changes, and the others stay as they are.
unfoldable pub at_subscriber : ℕ → (Subscriber → Subscriber) → List Subscriber → List Subscriber
at_subscriber subscriber_id f [] = []
at_subscriber subscriber_id f (sub ∷ subs) =
    (if sub.subscriber_id == subscriber_id then f sub else sub) ∷ at_subscriber subscriber_id f subs

unfoldable pub receive : RuntimeState → ℕ → RuntimeState
receive s subscriber_id = record s {
  subscribers = at_subscriber subscriber_id (λ sub. (try_recv sub sub.queue).0) s.subscribers;
}

unfoldable pub drop_live : RuntimeState → ℕ → RuntimeState
drop_live s subscriber_id = record s {
  subscribers = at_subscriber subscriber_id drop_receiver s.subscribers;
}

abbrev pub projection_is_queued : P0TurnProjection → Bool
projection_is_queued P0TurnProjection.queued = true
projection_is_queued _ = false

abbrev pub is_queued : TurnRecord → Bool
is_queued turn = projection_is_queued turn.projection

unfoldable pub stop_queued : Inner → RuntimeState → RuntimeState
stop_queued inner s =
    close_subscribers
      (append_event inner
        (record s {
          work = none;
          session_state = P0SessionState.stopped;
          worker_stopped = true;
          current_turn =
              option_map
                (λ (turn : TurnRecord). record turn {
                  projection = P0TurnProjection.stopped_before_cloud_start;
                })
                s.current_turn;
        })
        (option_map (λ (turn : TurnRecord). turn.turn_id) s.current_turn)
        (P0SessionEvent.runtime_stopped P0RuntimeStopReason.shutdown))
      close_runtime_stopped

-- `shutdown` up to the join of the worker. The request stays when there is no sequence number left
-- for the last event.
unfoldable pub shutdown : Inner → RuntimeState → RuntimeState × Result P0SessionError (Unit {0})
shutdown inner s =
    let requested = record s { shutdown_requested = true } in
    if s.shutdown_requested
    then (s, ok tt)
    else if is_some_and s.current_turn is_queued
    then elim (reserve_events requested 1) [
      | ok u ↦ (stop_queued inner requested, ok tt)
      | err e ↦ (requested, err e)
    ]
    else (requested, ok tt)
