-- ===== src/Session/Stream/Writes.antt =====
-- The event stream under `append_event` and `close_subscribers` of
-- crates/codebox-session-runtime/src/runtime.rs.
use fanzloud.Base.{
  ℕ, ◌+◌, min, ◌≤◌, ◌<◌, ◌≡◌, refl, Option, List, [], ◌∷◌, ◌++◌, map, length, length-append, All,
  All-append, arith, u64_max, ok,
}
use fanzloud.Session.Types.{P0SessionEvent, P0SessionEventEnvelope}
use fanzloud.Session.State.{
  Inner, RuntimeState, Subscriber, CloseReason, evict, offer, envelope, reserve_events,
  append_event, close, close_subscribers, subscriber_count,
}
use fanzloud.Session.Stream.{Ends, Linked, IsFed, IsOurs, HasStream}

pub Ends-append :
    (last : ℕ) (es : List P0SessionEventEnvelope) (e : P0SessionEventEnvelope)
    → e.seq ≡ last + 1
    → Ends last es
    → Ends (last + 1) (es ++ e ∷ [])
Ends-append last [] e at h = (omega arith, tt)
Ends-append last (x ∷ es) e at h =
    (omega (arith, length-append es (e ∷ [])), Ends-append last es e at h.1)

pub Ends-Linked : (last : ℕ) (es : List P0SessionEventEnvelope) → Ends last es → Linked es
Ends-Linked last [] h = tt
Ends-Linked last (e ∷ es) h = (rw h.0 h.1, Ends-Linked last es h.1)

evict-Ends :
    (capacity last : ℕ) (es : List P0SessionEventEnvelope)
    → Ends last es
    → Ends last (evict capacity es)
unfolding evict
evict-Ends capacity last [] h = tt
evict-Ends capacity last (e ∷ es) h = ground (arith, evict-Ends capacity last es h.1)

length-evict :
    (capacity : ℕ) (es : List P0SessionEventEnvelope)
    → length (evict capacity es) ≡ min (length es) capacity
unfolding evict
length-evict capacity [] = omega arith
length-evict capacity (e ∷ es) = ground (arith, length-evict capacity es)

evict-All :
    (inner : Inner) (capacity : ℕ) (es : List P0SessionEventEnvelope)
    → All (IsOurs inner) es
    → All (IsOurs inner) (evict capacity es)
unfolding evict
evict-All inner capacity [] h = tt
evict-All inner capacity (e ∷ es) h = ground (arith, evict-All inner capacity es h.1)

offer-IsFed :
    (inner : Inner) (last : ℕ) (e : P0SessionEventEnvelope) (sub : Subscriber)
    → e.seq ≡ last + 1
    → IsFed inner last sub
    → IsFed inner (last + 1) (offer inner.config.live_capacity e sub)
unfolding offer
offer-IsFed inner last e sub at h = ground (
  arith,
  Ends-append last sub.queue e,
  Ends-Linked last sub.queue,
  length-append sub.queue (e ∷ []),
)

offers-IsFed :
    (inner : Inner) (last : ℕ) (e : P0SessionEventEnvelope) (subs : List Subscriber)
    → e.seq ≡ last + 1
    → All (IsFed inner last) subs
    → All (IsFed inner (last + 1)) (map (offer inner.config.live_capacity e) subs)
offers-IsFed inner last e [] at h = tt
offers-IsFed inner last e (sub ∷ subs) at h =
    (offer-IsFed inner last e sub at h.0, offers-IsFed inner last e subs at h.1)

abbrev pub Fresh : ℕ → List Subscriber → Type 0
Fresh next = All (λ (sub : Subscriber). sub.subscriber_id < next)

offers-Fresh :
    (capacity next : ℕ) (e : P0SessionEventEnvelope) (subs : List Subscriber)
    → Fresh next subs
    → Fresh next (map (offer capacity e) subs)
unfolding offer
offers-Fresh capacity next e [] h = tt
offers-Fresh capacity next e (sub ∷ subs) h = ground (arith, offers-Fresh capacity next e subs h.1)

subscriber_count-offers :
    (capacity : ℕ) (e : P0SessionEventEnvelope) (subs : List Subscriber)
    → subscriber_count (map (offer capacity e) subs) ≤ subscriber_count subs
unfolding offer subscriber_count
subscriber_count-offers capacity e [] = omega arith
subscriber_count-offers capacity e (sub ∷ subs) =
    ground (arith, subscriber_count-offers capacity e subs)

-- Appending an event keeps the event stream sound when there is a sequence number for it.
pub append_event-HasStream :
    (inner : Inner) (s : RuntimeState) (turn : Option ℕ) (payload : P0SessionEvent)
    → s.high_water_seq < u64_max
    → HasStream inner s
    → HasStream inner (append_event inner s turn payload)
unfolding append_event
append_event-HasStream inner s turn payload room h =
    let e = envelope inner (s.high_water_seq + 1) turn payload in
    let capacity = inner.config.history_capacity in
    let live = inner.config.live_capacity in
    record {
      bounded = omega arith;
      ends = evict-Ends capacity _ _ (Ends-append s.high_water_seq s.history e refl h.ends);
      kept = omega (
        arith,
        length-evict capacity (s.history ++ e ∷ []),
        length-append s.history (e ∷ []),
        h.kept,
      );
      ours =
          evict-All inner capacity _
            (All-append (IsOurs inner) s.history (e ∷ []) h.ours ((refl, refl), tt));
      fed = offers-IsFed inner s.high_water_seq e s.subscribers refl h.fed;
      fresh = offers-Fresh live s.next_subscriber_id e s.subscribers h.fresh;
      few = omega (arith, subscriber_count-offers live e s.subscribers, h.few);
    }

pub append_event-seq :
    (inner : Inner) (s : RuntimeState) (turn : Option ℕ) (payload : P0SessionEvent)
    → (append_event inner s turn payload).high_water_seq ≡ s.high_water_seq + 1
unfolding append_event
append_event-seq inner s turn payload = refl

pub append_event-shutdown :
    (inner : Inner) (s : RuntimeState) (turn : Option ℕ) (payload : P0SessionEvent)
    → (append_event inner s turn payload).shutdown_requested ≡ s.shutdown_requested
unfolding append_event
append_event-shutdown inner s turn payload = refl

pub reserve_events-room :
    (s : RuntimeState) (count : ℕ)
    → reserve_events s count ≡ ok tt
    → s.high_water_seq + count ≤ u64_max
unfolding reserve_events
reserve_events-room s count h = ground arith

close-IsFed :
    (inner : Inner) (last : ℕ) (reason : CloseReason) (sub : Subscriber)
    → IsFed inner last sub
    → IsFed inner last (close reason sub)
unfolding close
close-IsFed inner last reason sub h = ground (arith, Ends-Linked last sub.queue)

closes-IsFed :
    (inner : Inner) (last : ℕ) (reason : CloseReason) (subs : List Subscriber)
    → All (IsFed inner last) subs
    → All (IsFed inner last) (map (close reason) subs)
closes-IsFed inner last reason [] h = tt
closes-IsFed inner last reason (sub ∷ subs) h =
    (close-IsFed inner last reason sub h.0, closes-IsFed inner last reason subs h.1)

closes-Fresh :
    (next : ℕ) (reason : CloseReason) (subs : List Subscriber)
    → Fresh next subs
    → Fresh next (map (close reason) subs)
unfolding close
closes-Fresh next reason [] h = tt
closes-Fresh next reason (sub ∷ subs) h = ground (arith, closes-Fresh next reason subs h.1)

-- After a close nobody is registered.
pub subscriber_count-close :
    (reason : CloseReason) (subs : List Subscriber) → subscriber_count (map (close reason) subs) ≡ 0
unfolding close subscriber_count
subscriber_count-close reason [] = refl
subscriber_count-close reason (sub ∷ subs) = ground (arith, subscriber_count-close reason subs)

pub close_subscribers-HasStream :
    (inner : Inner) (s : RuntimeState) (reason : CloseReason)
    → HasStream inner s
    → HasStream inner (close_subscribers s reason)
unfolding close_subscribers
close_subscribers-HasStream inner s reason h = record {
  bounded = h.bounded;
  ends = h.ends;
  kept = h.kept;
  ours = h.ours;
  fed = closes-IsFed inner s.high_water_seq reason s.subscribers h.fed;
  fresh = closes-Fresh s.next_subscriber_id reason s.subscribers h.fresh;
  few = omega (arith, subscriber_count-close reason s.subscribers);
}
