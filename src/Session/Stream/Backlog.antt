-- ===== src/Session/Stream/Backlog.antt =====
-- What one receiver of crates/codebox-session-runtime/src/runtime.rs has not received yet.
use fanzloud.Base.{
  ℕ, ◌+◌, ◌≤◌, ◌<◌, ◌≡◌, ◌≢◌, refl, sym, ◌∙◌, subst, ◌⊎◌, inl, inr, true, Option, none, some, List,
  [], ◌∷◌, ◌++◌, map, length, length-append, All, All-append, arith, ok, u64_max, ◌==◌, ==_refl,
  if◌then◌else◌,
}
use fanzloud.Session.Types.{P0SessionEventEnvelope}
use fanzloud.Session.State.{
  Inner, RuntimeState, Subscriber, CloseReason, offer, envelope, append_event, close,
  close_subscribers,
}
use fanzloud.Session.Subscribe.{P0SessionSubscription, opened, subscribe}
use fanzloud.Session.Stream.{Ends, IsOurs}
use fanzloud.Session.Stream.Writes.{Ends-append}
use fanzloud.Session.Stream.Laws.{IsKept}

-- The subscriber with an identifier.
unfoldable pub client : ℕ → List Subscriber → Option Subscriber
client id [] = none
client id (sub ∷ subs) = if sub.subscriber_id == id then some sub else client id subs

-- A receiver that has got all events up to `got`: its queue goes on from there without a gap, up to
-- the high water as long as it is registered.
abbrev pub IsBehind : Inner → ℕ → ℕ → Subscriber → Type 0
IsBehind inner last got sub =
    Ends (got + length sub.queue) sub.queue
    × All (IsOurs inner) sub.queue
    × (got + length sub.queue ≤ last)
    × (sub.registered ≡ true → got + length sub.queue ≡ last)

-- One of the subscribers has the identifier, and it is such a one.
abbrev pub One : ℕ → (Subscriber → Type 0) → List Subscriber → Type 0
One id P [] = ⊥
One id P (sub ∷ subs) =
    ((sub.subscriber_id ≡ id) × P sub × All (λ (x : Subscriber). x.subscriber_id ≢ id) subs)
    ⊎ ((sub.subscriber_id ≢ id) × One id P subs)

abbrev pub Backlog : ℕ → ℕ → Inner → ℕ → List P0SessionEventEnvelope → List Subscriber → ℕ → Type 0
Backlog id got inner last history subs next =
    (last ≤ u64_max) × (id < next) × One id (IsBehind inner last got) subs

pub client-One :
    (id : ℕ) (P : Subscriber → Type 0) (subs : List Subscriber) (sub : Subscriber)
    → One id P subs
    → client id subs ≡ some sub
    → P sub
unfolding client
client-One id P [] sub h at = absurd h
client-One id P (x ∷ subs) sub (inl (named, holds, rest)) at =
    subst P (ground (arith, named, ==_refl id)) holds
client-One id P (x ∷ subs) sub (inr (other, h)) at =
    client-One id P subs sub h (ground (arith, other))

-- A change of every subscriber that keeps their identifiers.
map-Apart :
    (id : ℕ) (f : Subscriber → Subscriber) (subs : List Subscriber)
    → ((x : Subscriber) → (f x).subscriber_id ≡ x.subscriber_id)
    → All (λ (x : Subscriber). x.subscriber_id ≢ id) subs
    → All (λ (x : Subscriber). x.subscriber_id ≢ id) (map f subs)
map-Apart id f [] keeps h = tt
map-Apart id f (x ∷ subs) keeps h = ((λ e. h.0 (sym (keeps x) ∙ e)), map-Apart id f subs keeps h.1)

pub map-One :
    (id : ℕ) (P Q : Subscriber → Type 0) (f : Subscriber → Subscriber) (subs : List Subscriber)
    → ((x : Subscriber) → (f x).subscriber_id ≡ x.subscriber_id)
    → ((x : Subscriber) → P x → Q (f x))
    → One id P subs
    → One id Q (map f subs)
map-One id P Q f [] keeps step h = absurd h
map-One id P Q f (x ∷ subs) keeps step (inl (named, holds, rest)) =
    inl (keeps x ∙ named, step x holds, map-Apart id f subs keeps rest)
map-One id P Q f (x ∷ subs) keeps step (inr (other, h)) =
    inr ((λ e. other (sym (keeps x) ∙ e)), map-One id P Q f subs keeps step h)

offer-IsBehind :
    (inner : Inner) (last got : ℕ) (e : P0SessionEventEnvelope) (sub : Subscriber)
    → e.seq ≡ last + 1
    → IsOurs inner e
    → IsBehind inner last got sub
    → IsBehind inner (last + 1) got (offer inner.config.live_capacity e sub)
unfolding offer
offer-IsBehind inner last got e sub at ours h = ground (
  arith,
  Ends-append last sub.queue e,
  All-append (IsOurs inner) sub.queue (e ∷ []),
  length-append sub.queue (e ∷ []),
)

close-IsBehind :
    (inner : Inner) (last got : ℕ) (reason : CloseReason) (sub : Subscriber)
    → IsBehind inner last got sub
    → IsBehind inner last got (close reason sub)
unfolding close
close-IsBehind inner last got reason sub h = ground arith

offer-named :
    (capacity : ℕ) (e : P0SessionEventEnvelope) (sub : Subscriber)
    → (offer capacity e sub).subscriber_id ≡ sub.subscriber_id
unfolding offer
offer-named capacity e sub = ground arith

close-named :
    (reason : CloseReason) (sub : Subscriber) → (close reason sub).subscriber_id ≡ sub.subscriber_id
unfolding close
close-named reason sub = ground arith

pub Backlog-IsKept : (id got : ℕ) (inner : Inner) → IsKept (Backlog id got) inner
unfolding append_event close_subscribers
Backlog-IsKept id got inner = record {
  appended = λ s turn payload room (bounded, known, one). (
    omega arith,
    known,
    map-One id (IsBehind inner s.high_water_seq got) (IsBehind inner (s.high_water_seq + 1) got)
        (offer inner.config.live_capacity (envelope inner (s.high_water_seq + 1) turn payload))
        s.subscribers
        (offer-named inner.config.live_capacity
          (envelope inner (s.high_water_seq + 1) turn payload))
        (λ x h.
          offer-IsBehind inner s.high_water_seq got
            (envelope inner (s.high_water_seq + 1) turn payload) x refl (refl, refl) h)
        one,
  );
  closed = λ s reason (bounded, known, one). (
    bounded,
    known,
    map-One id (IsBehind inner s.high_water_seq got) (IsBehind inner s.high_water_seq got)
        (close reason) s.subscribers (close-named reason)
        (λ x h. close-IsBehind inner s.high_water_seq got reason x h) one,
  );
}

append-One :
    (id : ℕ) (P : Subscriber → Type 0) (subs : List Subscriber) (sub : Subscriber)
    → sub.subscriber_id ≢ id
    → One id P subs
    → One id P (subs ++ sub ∷ [])
append-One id P [] sub other h = absurd h
append-One id P (x ∷ subs) sub other (inl (named, holds, rest)) = inl (
  named,
  holds,
  All-append (λ (y : Subscriber). y.subscriber_id ≢ id) subs (sub ∷ []) rest (other, tt),
)
append-One id P (x ∷ subs) sub other (inr (apart, h)) =
    inr (apart, append-One id P subs sub other h)

pub new-One :
    (id : ℕ) (P : Subscriber → Type 0) (subs : List Subscriber) (sub : Subscriber)
    → sub.subscriber_id ≡ id
    → P sub
    → All (λ (x : Subscriber). x.subscriber_id < id) subs
    → One id P (subs ++ sub ∷ [])
new-One id P [] sub named holds h = inl (named, holds, tt)
new-One id P (x ∷ subs) sub named holds h =
    inr ((λ e. absurd (omega (arith, h.0, e))), new-One id P subs sub named holds h.1)

pub subscribe-Backlog :
    (id got : ℕ) (inner : Inner) (s s' : RuntimeState) (session cursor : ℕ)
    (sub : P0SessionSubscription)
    → subscribe inner s session cursor ≡ ok (s', sub)
    → Backlog id got inner s.high_water_seq s.history s.subscribers s.next_subscriber_id
    → Backlog id got inner s'.high_water_seq s'.history s'.subscribers s'.next_subscriber_id
unfolding subscribe
subscribe-Backlog id got inner s s' session cursor sub e h = ground (
  arith,
  append-One id (IsBehind inner s.high_water_seq got) s.subscribers (opened s.next_subscriber_id)
      (λ same. absurd (omega (arith, h.1, same))) h.2,
)
