-- ===== src/Session/Stream/Readers.antt =====
-- The event stream under `subscribe` and the receivers of
-- crates/codebox-session-runtime/src/runtime.rs.
use fanzloud.Base.{
  ℕ, ◌+◌, ◌-◌, min, ◌≤◌, ◌<◌, ◌≡◌, true, List, [], ◌∷◌, ◌++◌, length, All, All-append, arith, ok,
}
use fanzloud.Session.Types.{P0SessionEventEnvelope}
use fanzloud.Session.State.{Inner, RuntimeState, Subscriber, subscriber_count}
use fanzloud.Session.Subscribe.{
  P0SessionSubscription, after, check_gap, opened, subscribe, try_recv, drop_receiver,
  at_subscriber, receive, drop_live,
}
use fanzloud.Session.Stream.{Ends, IsFed, IsStream, HasStream}
use fanzloud.Session.Stream.Writes.{Fresh, Ends-Linked}

subscriber_count-append :
    (xs ys : List Subscriber)
    → subscriber_count (xs ++ ys) ≡ subscriber_count xs + subscriber_count ys
unfolding subscriber_count
subscriber_count-append [] ys = omega arith
subscriber_count-append (sub ∷ xs) ys = ground (arith, subscriber_count-append xs ys)

Fresh-suc : (next : ℕ) (subs : List Subscriber) → Fresh next subs → Fresh (next + 1) subs
Fresh-suc next [] h = tt
Fresh-suc next (sub ∷ subs) h = (omega arith, Fresh-suc next subs h.1)

opened-HasStream :
    (inner : Inner) (s : RuntimeState)
    → subscriber_count s.subscribers < inner.config.max_subscribers
    → HasStream inner s
    → IsStream inner s.high_water_seq s.history
        (s.subscribers ++ opened s.next_subscriber_id ∷ [])
        (s.next_subscriber_id + 1)
unfolding subscriber_count
opened-HasStream inner s room h =
    let new = opened s.next_subscriber_id in
    record {
      bounded = h.bounded;
      ends = h.ends;
      kept = h.kept;
      ours = h.ours;
      fed =
          All-append (IsFed inner s.high_water_seq) s.subscribers (new ∷ []) h.fed
            ((tt, omega arith), tt);
      fresh =
          All-append (λ (sub : Subscriber). sub.subscriber_id < s.next_subscriber_id + 1)
            s.subscribers (new ∷ []) (Fresh-suc s.next_subscriber_id s.subscribers h.fresh)
            (omega arith, tt);
      few = omega (arith, subscriber_count-append s.subscribers (new ∷ []));
    }

pub subscribe-HasStream :
    (inner : Inner) (s s' : RuntimeState) (session cursor : ℕ) (sub : P0SessionSubscription)
    → subscribe inner s session cursor ≡ ok (s', sub)
    → HasStream inner s
    → HasStream inner s'
unfolding subscribe
subscribe-HasStream inner s s' session cursor sub e h = ground (arith, opened-HasStream inner s)

-- What one subscriber does keeps the stream if it keeps the queue's order and bound, the
-- identifier, and registers nobody.
record Keeps (inner : Inner) (f : Subscriber → Subscriber) : Type 0 where
  fed : (last : ℕ) (sub : Subscriber) → IsFed inner last sub → IsFed inner last (f sub)
  named : (sub : Subscriber) → (f sub).subscriber_id ≡ sub.subscriber_id
  counted : (sub : Subscriber) → (f sub).registered ≡ true → sub.registered ≡ true

module _ (inner : Inner) (f : Subscriber → Subscriber) (k : Keeps inner f) where
  at-IsFed :
      (id last : ℕ) (subs : List Subscriber)
      → All (IsFed inner last) subs
      → All (IsFed inner last) (at_subscriber id f subs)
  unfolding at_subscriber
  at-IsFed id last [] h = tt
  at-IsFed id last (sub ∷ subs) h = ground (arith, at-IsFed id last subs h.1, k.fed last sub h.0)

  at-Fresh :
      (id next : ℕ) (subs : List Subscriber)
      → Fresh next subs
      → Fresh next (at_subscriber id f subs)
  unfolding at_subscriber
  at-Fresh id next [] h = tt
  at-Fresh id next (sub ∷ subs) h = ground (arith, at-Fresh id next subs h.1, k.named sub)

  count-at :
      (id : ℕ) (subs : List Subscriber)
      → subscriber_count (at_subscriber id f subs) ≤ subscriber_count subs
  unfolding at_subscriber subscriber_count
  count-at id [] = omega arith
  count-at id (sub ∷ subs) = ground (arith, count-at id subs, k.counted sub)

  at_subscriber-IsStream :
      (s : RuntimeState) (id : ℕ)
      → HasStream inner s
      → IsStream inner s.high_water_seq s.history
          (at_subscriber id f s.subscribers)
          s.next_subscriber_id
  at_subscriber-IsStream s id h = record {
    bounded = h.bounded;
    ends = h.ends;
    kept = h.kept;
    ours = h.ours;
    fed = at-IsFed id s.high_water_seq s.subscribers h.fed;
    fresh = at-Fresh id s.next_subscriber_id s.subscribers h.fresh;
    few = omega (arith, count-at id s.subscribers, h.few);
  }

try_recv-Keeps : (inner : Inner) → Keeps inner (λ sub. (try_recv sub sub.queue).0)
unfolding try_recv
try_recv-Keeps inner = record {
  fed = λ last sub h. ground arith;
  named = λ sub. ground arith;
  counted = λ sub h. ground arith;
}

drop_receiver-Keeps : (inner : Inner) → Keeps inner drop_receiver
unfolding drop_receiver
drop_receiver-Keeps inner = record {
  fed = λ last sub h. ground (arith, Ends-Linked last sub.queue);
  named = λ sub. ground arith;
  counted = λ sub h. ground arith;
}

pub receive-HasStream :
    (inner : Inner) (s : RuntimeState) (id : ℕ) → HasStream inner s → HasStream inner (receive s id)
unfolding receive
receive-HasStream inner s id h = at_subscriber-IsStream inner _ (try_recv-Keeps inner) s id h

pub drop_live-HasStream :
    (inner : Inner) (s : RuntimeState) (id : ℕ)
    → HasStream inner s
    → HasStream inner (drop_live s id)
unfolding drop_live
drop_live-HasStream inner s id h = at_subscriber-IsStream inner _ (drop_receiver-Keeps inner) s id h

after-Ends :
    (cursor last : ℕ) (es : List P0SessionEventEnvelope)
    → Ends last es
    → Ends last (after cursor es) × (length (after cursor es) ≡ min (length es) (last - cursor))
unfolding after
after-Ends cursor last [] h = (tt, omega arith)
after-Ends cursor last (e ∷ es) h = ground (arith, after-Ends cursor last es h.1)

replay_exact :
    (cursor last capacity : ℕ) (es : List P0SessionEventEnvelope)
    → Ends last es
    → length es ≡ min last capacity
    → 1 ≤ capacity
    → cursor ≤ last
    → check_gap es last cursor ≡ ok tt
    → length (after cursor es) ≡ last - cursor
replay_exact cursor last capacity [] h kept some within gap =
    omega (arith, after-Ends cursor last [] h)
replay_exact cursor last capacity (e ∷ es) h kept some within gap =
    ground (arith, after-Ends cursor last (e ∷ es) h)

-- With a sound stream and a history capacity of one at least, a subscription that is granted
-- replays every event after the cursor, in order and without a gap, up to the high water of its
-- snapshot, which is the state's; it adds one subscriber, with an empty queue, and changes none.
pub subscribe_exact :
    (inner : Inner) (s s' : RuntimeState) (session cursor : ℕ) (sub : P0SessionSubscription)
    → HasStream inner s
    → 1 ≤ inner.config.history_capacity
    → subscribe inner s session cursor ≡ ok (s', sub)
    → (cursor ≤ sub.snapshot.high_water_seq)
      × Ends sub.snapshot.high_water_seq sub.replay
      × (length sub.replay ≡ sub.snapshot.high_water_seq - cursor)
      × (s'.subscribers ≡ s.subscribers ++ opened sub.live ∷ [])
      × (s'.high_water_seq ≡ sub.snapshot.high_water_seq)
unfolding subscribe
subscribe_exact inner s s' session cursor sub h some e = ground (
  arith,
  after-Ends cursor s.high_water_seq s.history h.ends,
  replay_exact cursor s.high_water_seq inner.config.history_capacity s.history h.ends h.kept some,
)
