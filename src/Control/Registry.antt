-- ===== src/Control/Registry.antt =====
-- The registry of idempotent requests of apps/control-plane/src/idempotency.rs. `admit`,
-- `complete`, `release_auth_session`, `take_response` and `drop_waiter` are what the code does under
-- the lock. Waking the tasks that wait for a response is left out.
mod Eviction
pub mod Invariant
pub mod Survival
pub mod Retained
pub mod Operations
pub mod Admission
pub mod Completion
mod System
mod Examples
use fanzloud.Base.{
  ℕ, zero, suc, ◌+◌, ◌-◌, ◌*◌, min, Bool, true, false, not, ◌&&◌, ◌||◌, Option, none, some, List,
  [], ◌∷◌, ◌++◌, Result, ok, err, length, ltb, leb, ◌==◌, if◌then◌else◌,
}
use fanzloud.Control.Entries.{
  CacheDisposition, retain, expire_at, remove_after_auth_session, EntryState, in_flight,
  complete_with, Entry, find, update, erase, keys_of,
}
use fanzloud.Control.Request.{
  ApiError, RequestIdentity, CachedResponse, saturating_add, idempotency_conflict,
  idempotency_unavailable, request_storage_bytes, response_storage_bytes, identity_eq,
}

abbrev pub max_entries : ℕ
max_entries = 128

abbrev pub max_storage_bytes : ℕ
max_storage_bytes = 8 * 1024 * 1024

pub record Registry : Type 0 where
  pub entries : List (ℕ × Entry)
  pub total_bytes : ℕ
  pub completion_seq : ℕ

abbrev pub new_registry : Registry
new_registry = record { entries = []; total_bytes = 0; completion_seq = 0 }

abbrev pub remove_found : Registry → ℕ → Option Entry → Registry
remove_found r key none = r
remove_found r key (some e) = record r {
  entries = erase key r.entries;
  total_bytes = r.total_bytes - e.request_bytes - e.response_bytes;
}

unfoldable pub remove : Registry → ℕ → Registry
remove r key = remove_found r key (find key r.entries)

unfoldable pub remove_all : Registry → List ℕ → Registry
remove_all r [] = r
remove_all r (key ∷ keys) = remove_all (remove r key) keys

abbrev pub is_expired : ℕ → Entry → Bool
is_expired now e = elim e.state [
  | complete_with response (expire_at deadline) ↦ leb deadline now && e.waiters == 0
  | _ ↦ false
]

unfoldable pub prune_expired : Registry → ℕ → Registry
prune_expired r now = remove_all r (keys_of (is_expired now) r.entries)

abbrev pub is_of_session : ℕ → Entry → Bool
is_of_session session_seq e = elim e.state [
  | complete_with response (remove_after_auth_session seq) ↦ seq == session_seq && e.waiters == 0
  | _ ↦ false
]

unfoldable pub release_auth_session : Registry → ℕ → Registry
release_auth_session r session_seq = remove_all r (keys_of (is_of_session session_seq) r.entries)

abbrev pub is_key : Option ℕ → ℕ → Bool
is_key none key = false
is_key (some k) key = k == key

-- The completion number of an entry that may be evicted.
abbrev pub candidate : Option ℕ → ℕ → Entry → Option ℕ
candidate protected key e =
    if not (is_key protected key) && e.waiters == 0 then e.completed_seq else none

abbrev pub earlier : ℕ → Option ℕ → Option (ℕ × ℕ) → Option (ℕ × ℕ)
earlier key none rest = rest
earlier key (some seq) none = some (key, seq)
earlier key (some seq) (some (k, other)) =
    if ltb other seq then some (k, other) else some (key, seq)

-- `oldest_completed`, with the completion number.
unfoldable pub oldest_completed : Option ℕ → List (ℕ × Entry) → Option (ℕ × ℕ)
oldest_completed protected [] = none
oldest_completed protected ((k, e) ∷ es) =
    earlier k (candidate protected k e) (oldest_completed protected es)

abbrev pub is_full : Registry → ℕ → Bool
is_full r request_bytes =
    leb max_entries (length r.entries)
    || ltb max_storage_bytes (saturating_add r.total_bytes request_bytes)

unfoldable pub capacity_loop : ℕ → Registry → ℕ → Registry × Result ApiError (Unit {0})
capacity_loop zero r request_bytes = (r, ok tt)
capacity_loop (suc fuel) r request_bytes = elim (is_full r request_bytes) [
  | false ↦ (r, ok tt)
  | true ↦ elim (oldest_completed none r.entries) [
    | none ↦ (r, err idempotency_unavailable)
    | some (key, seq) ↦ capacity_loop fuel (remove r key) request_bytes
  ]
]

unfoldable pub make_capacity : Registry → ℕ → Registry × Result ApiError (Unit {0})
make_capacity r request_bytes = capacity_loop (suc (length r.entries)) r request_bytes

unfoldable pub eviction_loop : ℕ → Registry → Option ℕ → Registry
eviction_loop zero r protected = r
eviction_loop (suc fuel) r protected = elim (ltb max_storage_bytes r.total_bytes) [
  | false ↦ r
  | true ↦ elim (oldest_completed protected r.entries) [
    | none ↦ r
    | some (key, seq) ↦ eviction_loop fuel (remove r key) protected
  ]
]

unfoldable pub evict_completed_to_storage_bound : Registry → Option ℕ → Registry
evict_completed_to_storage_bound r protected = eviction_loop (suc (length r.entries)) r protected

abbrev pub joined : Entry → Entry
joined e = record e { waiters = saturating_add e.waiters 1 }

abbrev pub left : Entry → Entry
left e = record e { waiters = e.waiters - 1 }

abbrev pub new_entry : RequestIdentity → Entry
new_entry identity = record {
  identity = identity;
  request_bytes = request_storage_bytes identity;
  response_bytes = 0;
  state = in_flight;
  waiters = 1;
  completed_seq = none;
}

abbrev pub admit_new :
    ℕ → RequestIdentity → Registry × Result ApiError (Unit {0}) → Registry × Result ApiError Bool
admit_new key identity (r, err e) = (r, err e)
admit_new key identity (r, ok u) = (
  record r {
    total_bytes = saturating_add r.total_bytes (request_storage_bytes identity);
    entries = r.entries ++ (key, new_entry identity) ∷ [];
  },
  ok true,
)

unfoldable pub admit_found :
    Registry → ℕ → RequestIdentity → Option Entry → Registry × Result ApiError Bool
admit_found r key identity (some e) =
    if identity_eq e.identity identity
    then (record r { entries = update key joined r.entries }, ok false)
    else (r, err idempotency_conflict)
admit_found r key identity none =
    admit_new key identity (make_capacity r (request_storage_bytes identity))

-- The answer says whether the caller owns the request, and has to complete it.
unfoldable pub admit : Registry → ℕ → RequestIdentity → ℕ → Registry × Result ApiError Bool
admit r key identity now =
    let pruned = prune_expired r now in admit_found pruned key identity (find key pruned.entries)

abbrev pub completed : CachedResponse → CacheDisposition → ℕ → Entry → Entry
completed response disposition seq e = record e {
  response_bytes = response_storage_bytes response;
  completed_seq = some seq;
  state = complete_with response disposition;
}

abbrev pub is_in_flight : EntryState → Bool
is_in_flight in_flight = true
is_in_flight (complete_with response disposition) = false

abbrev pub is_open : Option Entry → Bool
is_open none = false
is_open (some e) = is_in_flight e.state

unfoldable pub finish : Registry → ℕ → CachedResponse → CacheDisposition → Registry
finish r key response disposition =
    let seq = saturating_add r.completion_seq 1 in
    if is_open (find key r.entries)
    then record r {
      completion_seq = seq;
      entries = update key (completed response disposition seq) r.entries;
      total_bytes = saturating_add r.total_bytes (response_storage_bytes response);
    }
    else record r { completion_seq = seq }

unfoldable pub complete : Registry → ℕ → CachedResponse → CacheDisposition → Registry
complete r key response disposition =
    evict_completed_to_storage_bound (finish r key response disposition) (some key)

pub data WaitState : Type 0 where
  pending : WaitState
  ready : CachedResponse → WaitState
  missing : WaitState

abbrev take_found : Registry → ℕ → Option Entry → Registry × WaitState
take_found r key none = (r, missing)
take_found r key (some e) = elim e.state [
  | in_flight ↦ (r, pending)
  | complete_with response disposition ↦
      (record r { entries = update key left r.entries }, ready response)
]

unfoldable pub take_response : Registry → ℕ → Registry × WaitState
take_response r key = take_found r key (find key r.entries)

-- `Drop` of a waiter that has not taken its response.
unfoldable pub drop_waiter : Registry → ℕ → Registry
drop_waiter r key = record r { entries = update key left r.entries }
