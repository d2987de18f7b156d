-- ===== src/Control/Registry/Completion.antt =====
-- The completion of a request in apps/control-plane/src/idempotency.rs, and the entries
-- that it leaves.
use fanzloud.Base.{
  ℕ, ◌+◌, ◌≡◌, ◌≤◌, ◌≢◌, ◌⊎◌, refl, true, Option, none, some, arith, All, ==_refl, if◌then◌else◌,
  ok, err, Result, inl, inr, Bool-cases, option_map, ap, ◌∙◌, u64_max,
}
use fanzloud.Control.Request.{
  ApiError, RequestIdentity, CachedResponse, saturating_add, identity_eq, request_storage_bytes,
  response_storage_bytes,
}
use fanzloud.Control.Entries.{CacheDisposition, Entry, find}
use fanzloud.Control.Entries.Lookup.{find-append, find-update, find-update_other}
use fanzloud.Control.Registry.{
  Registry, max_storage_bytes, is_in_flight, prune_expired, release_auth_session, joined, new_entry,
  admit_new, admit_found, admit, completed, is_open, finish, complete, WaitState, take_response,
}
use fanzloud.Control.Registry.Invariant.{IsValid, pinned, is_kept}
use fanzloud.Control.Registry.Eviction.{make_capacity-Made, evict-Trimmed}
use fanzloud.Control.Registry.Survival.{prune-Prunes, release-Prunes}
use fanzloud.Control.Registry.Operations.{finish-IsValid, complete-IsValid}
use fanzloud.Control.Registry.Eviction.{stuck-is_kept}

finish-find :
    (r : Registry) (key : ℕ) (response : CachedResponse) (disposition : CacheDisposition)
    (e : Entry)
    → find key r.entries ≡ some e
    → find key (finish r key response disposition).entries
      ≡ some (
          if is_in_flight e.state
          then completed response disposition (saturating_add r.completion_seq 1) e
          else e)
unfolding finish
finish-find r key response disposition e at =
    let f = completed response disposition (saturating_add r.completion_seq 1) in
    elim (Bool-cases (is_in_flight e.state)) [
      | inl flying ↦ rw (at, flying) (find-update key f r.entries ∙ ap (option_map f) at)
      | inr done ↦ rw (at, done) at
    ]

-- After a completion that fits a `usize`, the entry has the response if it was in flight, and is
-- unchanged otherwise.
pub complete-find :
    (r : Registry) (key : ℕ) (response : CachedResponse) (disposition : CacheDisposition)
    (e : Entry)
    → IsValid r
    → r.total_bytes + response_storage_bytes response ≤ u64_max
    → find key r.entries ≡ some e
    → find key (complete r key response disposition).entries
      ≡ some (
          if is_in_flight e.state
          then completed response disposition (saturating_add r.completion_seq 1) e
          else e)
unfolding complete
complete-find r key response disposition e v fits at =
    let trimmed = evict-Trimmed _ (some key) (finish-IsValid r key response disposition v fits) in
    trimmed.0.keeps key _ (finish-find r key response disposition e at) (rw (==_refl key) refl)

-- A request that is in flight and then completed gives that response to its waiters, also when it is
-- completed again, if the bytes of what is kept fit a `usize`.
pub complete_replays :
    (r : Registry) (key : ℕ) (response again : CachedResponse)
    (disposition other : CacheDisposition) (e : Entry)
    → IsValid r
    → find key r.entries ≡ some e
    → is_in_flight e.state ≡ true
    → r.total_bytes + response_storage_bytes response ≤ u64_max
    → (complete r key response disposition).total_bytes + response_storage_bytes again ≤ u64_max
    → let r' = complete r key response disposition in
      ((take_response r' key).1 ≡ WaitState.ready response)
      × ((take_response (complete r' key again other) key).1 ≡ WaitState.ready response)
unfolding take_response
complete_replays r key response again disposition other e v at flying fits fits' =
    let r' = complete r key response disposition in
    let once = complete-find r key response disposition e v fits at in
    let v' = complete-IsValid r key response disposition v fits in
    let f = completed response disposition (saturating_add r.completion_seq 1) in
    let done : find key r'.entries ≡ some (f e) =
      once ∙ ap (λ b. some (if b then f e else e)) flying in
    let twice = complete-find r' key again other (f e) v' fits' done in
    (rw done refl, rw twice refl)

-- After a completion that fits, the bytes are within the bound, or every entry but the completed one
-- is in flight or waited for.
pub complete_trims :
    (r : Registry) (key : ℕ) (response : CachedResponse) (disposition : CacheDisposition)
    → IsValid r
    → r.total_bytes + response_storage_bytes response ≤ u64_max
    → let r' = complete r key response disposition in
      (r'.total_bytes ≤ max_storage_bytes)
      ⊎ All (λ (x : ℕ × Entry). is_kept (some key) x.0 x.1 ≡ true) r'.entries
unfolding complete
complete_trims r key response disposition v fits =
    let (prunes, trimmed) =
      evict-Trimmed _ (some key) (finish-IsValid r key response disposition v fits) in
    elim trimmed [
      | inl within ↦ inl within
      | inr nobody ↦ inr (stuck-is_kept (some key) _ _ prunes.valid.each nobody)
    ]

admit_new-keeps :
    (other : ℕ) (identity : RequestIdentity) (made : Registry × Result ApiError (Unit {0}))
    (key : ℕ) (e : Entry)
    → find key made.0.entries ≡ some e
    → find key (admit_new other identity made).0.entries ≡ some e
admit_new-keeps other identity (r, err why) key e at = at
admit_new-keeps other identity (r, ok u) key e at =
    find-append key r.entries other (new_entry identity) ∙ rw at refl

admit_found-keeps :
    (r : Registry) (other : ℕ) (identity : RequestIdentity) (o : Option Entry) (key : ℕ) (e : Entry)
    → IsValid r
    → find other r.entries ≡ o
    → find key r.entries ≡ some e
    → pinned e ≡ true
    → other ≢ key
    → find key (admit_found r other identity o).0.entries ≡ some e
unfolding admit_found
admit_found-keeps r other identity (some x) key e v found at need apart =
    elim (Bool-cases (identity_eq x.identity identity)) [
      | inl same ↦ rw same (find-update_other other key joined r.entries apart ∙ at)
      | inr differs ↦ rw differs at
    ]
admit_found-keeps r other identity none key e v found at need apart =
    let (prunes, made) = make_capacity-Made r (request_storage_bytes identity) v in
    admit_new-keeps other identity _ key e (prunes.keeps key e at need)

finish-keeps :
    (r : Registry) (other : ℕ) (response : CachedResponse) (disposition : CacheDisposition)
    (key : ℕ) (e : Entry)
    → find key r.entries ≡ some e
    → other ≢ key
    → find key (finish r other response disposition).entries ≡ some e
unfolding finish
finish-keeps r other response disposition key e at apart =
    elim (Bool-cases (is_open (find other r.entries))) [
      | inl flying ↦ rw flying (find-update_other other key _ r.entries apart ∙ at)
      | inr done ↦ rw done at
    ]

-- An entry that is in flight or waited for is neither lost nor changed by an admission for another
-- key, by a completion for another key that fits a `usize`, or by the end of a session.
pub pinned_stays :
    (r : Registry) (key other : ℕ) (e : Entry) (identity : RequestIdentity) (now seq : ℕ)
    (response : CachedResponse) (disposition : CacheDisposition)
    → IsValid r
    → find key r.entries ≡ some e
    → pinned e ≡ true
    → other ≢ key
    → r.total_bytes + response_storage_bytes response ≤ u64_max
    → (find key (admit r other identity now).0.entries ≡ some e)
      × (find key (complete r other response disposition).entries ≡ some e)
      × (find key (release_auth_session r seq).entries ≡ some e)
unfolding admit complete
pinned_stays r key other e identity now seq response disposition v at need apart fits =
    let pruned = prune-Prunes r now v in
    let (evicted, _) =
      evict-Trimmed _ (some other) (finish-IsValid r other response disposition v fits) in
    (
      admit_found-keeps (prune_expired r now) other identity _ key e pruned.valid refl
          (pruned.keeps key e at need) need apart,
      evicted.keeps key e (finish-keeps r other response disposition key e at apart) (ground arith),
      (release-Prunes r seq v).keeps key e at need,
    )
