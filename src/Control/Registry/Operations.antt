-- ===== src/Control/Registry/Operations.antt =====
-- The invariant under the operations of apps/control-plane/src/idempotency.rs.
use fanzloud.Base.{
  ℕ, ◌+◌, ◌≡◌, ◌≤◌, refl, true, false, Option, none, some, [], ◌∷◌, arith, length-append,
  All-append, All-map, ok, err, Result, inl, inr, Bool-cases, Option-cases, u64_max,
}
use fanzloud.Control.Request.{
  ApiError, RequestIdentity, CachedResponse, saturating_add, identity_eq, request_storage_bytes,
  response_storage_bytes,
}
use fanzloud.Control.Entries.{
  CacheDisposition, EntryState, in_flight, complete_with, Entry, find, update,
}
use fanzloud.Control.Entries.Lookup.{
  find-Each, update-Each, length-update, update-Distinct, bytes-update, bytes-append,
  append-Distinct,
}
use fanzloud.Control.Registry.{
  Registry, new_registry, is_in_flight, is_full, joined, left, new_entry, admit_new, admit_found,
  admit, completed, finish, complete, take_response, drop_waiter,
}
use fanzloud.Control.Registry.Invariant.{Finished, IsSound, IsValid}
use fanzloud.Control.Registry.Eviction.{Made, make_capacity-Made, evict-Trimmed}
use fanzloud.Control.Entries.Lookup.{update_absent}
use fanzloud.Control.Registry.Survival.{prune-Prunes}

-- A change of one entry that keeps its numbers.
update-IsValid :
    (r : Registry) (key : ℕ) (f : Entry → Entry)
    → ((e : Entry) → IsSound r.completion_seq e → IsSound r.completion_seq (f e))
    → ((e : Entry)
        → (f e).request_bytes + (f e).response_bytes ≡ e.request_bytes + e.response_bytes + 0)
    → IsValid r
    → IsValid (record r { entries = update key f r.entries })
update-IsValid r key f sound same v = record {
  distinct = update-Distinct key f r.entries v.distinct;
  exact = elim (Option-cases (find key r.entries)) [
    | inl absent ↦ rw (update_absent key f r.entries absent) v.exact
    | inr (e, at) ↦ omega (arith, bytes-update key 0 f r.entries e at (same e), v.exact)
  ];
  each = update-Each _ key f r.entries (λ e at. sound e) v.each;
  few = omega (arith, length-update key f r.entries, v.few);
  counted = v.counted;
}

add-IsValid :
    (r : Registry) (key : ℕ) (identity : RequestIdentity)
    → IsValid r
    → find key r.entries ≡ none
    → is_full r (request_storage_bytes identity) ≡ false
    → IsValid (admit_new key identity (r, ok tt)).0
add-IsValid r key identity v absent room = record {
  distinct = append-Distinct r.entries key (new_entry identity) absent v.distinct;
  exact = ground (arith, bytes-append r.entries key (new_entry identity), v.exact);
  each = All-append _ r.entries _ v.each ((refl, (refl, refl)), tt);
  few = ground (arith, length-append r.entries ((key, new_entry identity) ∷ []));
  counted = v.counted;
}

admit_new-IsValid :
    (key : ℕ) (identity : RequestIdentity) (made : Registry × Result ApiError (Unit {0}))
    → IsValid made.0
    → find key made.0.entries ≡ none
    → Made (request_storage_bytes identity) made
    → IsValid (admit_new key identity made).0
admit_new-IsValid key identity (r, err e) v absent made = v
admit_new-IsValid key identity (r, ok u) v absent made = add-IsValid r key identity v absent made

pub admit_found-IsValid :
    (r : Registry) (key : ℕ) (identity : RequestIdentity) (o : Option Entry)
    → IsValid r
    → find key r.entries ≡ o
    → IsValid (admit_found r key identity o).0
unfolding admit_found
admit_found-IsValid r key identity none v at =
    let (prunes, made) = make_capacity-Made r (request_storage_bytes identity) v in
    admit_new-IsValid key identity _ prunes.valid (prunes.fresh key at) made
admit_found-IsValid r key identity (some e) v at =
    elim (Bool-cases (identity_eq e.identity identity)) [
      | inl same ↦ rw same (update-IsValid r key joined (λ x sound. sound) (λ x. omega arith) v)
      | inr other ↦ rw other v
    ]

pub admit-IsValid :
    (r : Registry) (key : ℕ) (identity : RequestIdentity) (now : ℕ)
    → IsValid r
    → IsValid (admit r key identity now).0
unfolding admit
admit-IsValid r key identity now v =
    admit_found-IsValid _ key identity _ (prune-Prunes r now v).valid refl

Finished-later :
    (last last' size : ℕ) (number : Option ℕ) (state : EntryState)
    → last ≤ last'
    → Finished last size number state
    → Finished last' size number state
Finished-later last last' size number in_flight le h = h
Finished-later last last' size none (complete_with response disposition) le h = h
Finished-later last last' size (some seq) (complete_with response disposition) le h =
    (h.0, omega arith)

abbrev counted_up : Registry → Registry
counted_up r = record r { completion_seq = saturating_add r.completion_seq 1 }

counted_up-IsValid : (r : Registry) → IsValid r → IsValid (counted_up r)
counted_up-IsValid r v = record {
  distinct = v.distinct;
  exact = v.exact;
  each =
      All-map
        (λ x sound. (
          sound.0,
          Finished-later r.completion_seq _ x.1.response_bytes x.1.completed_seq x.1.state
              (omega (arith, v.counted)) sound.1,
        ))
        r.entries v.each;
  few = v.few;
  counted = omega arith;
}

in_flight-empty :
    (last : ℕ) (e : Entry) → IsSound last e → is_in_flight e.state ≡ true → e.response_bytes ≡ 0
in_flight-empty last e sound open_yet = ground arith

-- The completion of an entry that is in flight.
complete_open-IsValid :
    (r : Registry) (key : ℕ) (response : CachedResponse) (disposition : CacheDisposition)
    (e : Entry)
    → IsValid r
    → find key r.entries ≡ some e
    → is_in_flight e.state ≡ true
    → r.total_bytes + response_storage_bytes response ≤ u64_max
    → IsValid (record r {
      entries = update key (completed response disposition r.completion_seq) r.entries;
      total_bytes = saturating_add r.total_bytes (response_storage_bytes response);
    })
complete_open-IsValid r key response disposition e v at flying fits =
    let f = completed response disposition r.completion_seq in
    let size = response_storage_bytes response in
    let empty = in_flight-empty r.completion_seq e (find-Each _ key r.entries e v.each at) flying in
    record {
      distinct = update-Distinct key f r.entries v.distinct;
      exact = omega (arith, bytes-update key size f r.entries e at (omega (arith, empty)), v.exact);
      each = update-Each _ key f r.entries (λ x found sound. (sound.0, (refl, omega arith))) v.each;
      few = omega (arith, length-update key f r.entries, v.few);
      counted = v.counted;
    }

pub finish-IsValid :
    (r : Registry) (key : ℕ) (response : CachedResponse) (disposition : CacheDisposition)
    → IsValid r
    → r.total_bytes + response_storage_bytes response ≤ u64_max
    → IsValid (finish r key response disposition)
unfolding finish
finish-IsValid r key response disposition v fits =
    let up = counted_up-IsValid r v in
    elim (Option-cases (find key r.entries)) [
      | inl absent ↦ rw absent up
      | inr (e, at) ↦ elim (Bool-cases (is_in_flight e.state)) [
        | inl flying ↦
            rw (at, flying)
              (complete_open-IsValid (counted_up r) key response disposition e up at flying fits)
        | inr done ↦ rw (at, done) up
      ]
    ]

pub complete-IsValid :
    (r : Registry) (key : ℕ) (response : CachedResponse) (disposition : CacheDisposition)
    → IsValid r
    → r.total_bytes + response_storage_bytes response ≤ u64_max
    → IsValid (complete r key response disposition)
unfolding complete
complete-IsValid r key response disposition v fits =
    (evict-Trimmed _ (some key) (finish-IsValid r key response disposition v fits)).0.valid

pub drop_waiter-IsValid : (r : Registry) (key : ℕ) → IsValid r → IsValid (drop_waiter r key)
unfolding drop_waiter
drop_waiter-IsValid r key v = update-IsValid r key left (λ x sound. sound) (λ x. omega arith) v

pub take_response-IsValid : (r : Registry) (key : ℕ) → IsValid r → IsValid (take_response r key).0
unfolding take_response
take_response-IsValid r key v =
    ground (arith, v, update-IsValid r key left (λ x sound. sound) (λ x. omega arith) v)

pub new_registry-IsValid : IsValid new_registry
new_registry-IsValid = record {
  distinct = tt;
  exact = refl;
  each = tt;
  few = omega arith;
  counted = omega arith;
}
