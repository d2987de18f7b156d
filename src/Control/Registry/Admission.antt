-- ===== src/Control/Registry/Admission.antt =====
-- The admission of requests in apps/control-plane/src/idempotency.rs: owners, waiters and
-- refusals.
use fanzloud.Base.{
  ℕ, ◌≡◌, ◌≤◌, refl, sym, true, false, none, some, [], ◌∷◌, arith, length, length-append, ==_refl,
  if◌then◌else◌, ok, err, Result, inl, inr, Bool-cases, Option-cases, option_map, ap, ◌∙◌, subst,
}
use fanzloud.Control.Request.{
  ApiError, RequestIdentity, idempotency_unavailable, idempotency_conflict, identity_eq,
  request_storage_bytes,
}
use fanzloud.Control.Entries.{Entry, find}
use fanzloud.Control.Entries.Lookup.{Each, find-append, find-update}
use fanzloud.Control.Registry.{
  Registry, max_entries, max_storage_bytes, is_full, prune_expired, joined, new_entry, admit_new,
  admit_found, admit,
}
use fanzloud.Control.Registry.Invariant.{IsValid, pinned}
use fanzloud.Control.Registry.Eviction.{Made, make_capacity-Made}
use fanzloud.Control.Registry.Survival.{prune-Prunes}
use fanzloud.Control.Registry.Operations.{admit-IsValid}
use fanzloud.Control.Registry.Eviction.{stuck-is_kept}

-- While an entry is in flight or waited for, a request with its key is no owner: it waits for the
-- entry if it is the same request, and is refused as a conflict if it is another.
pub admit_known :
    (r : Registry) (key : ℕ) (identity : RequestIdentity) (now : ℕ) (e : Entry)
    → IsValid r
    → find key r.entries ≡ some e
    → pinned e ≡ true
    → let same = identity_eq e.identity identity in
      ((admit r key identity now).1 ≡ (if same then ok false else err idempotency_conflict))
      × (find key (admit r key identity now).0.entries ≡ some (if same then joined e else e))
unfolding admit admit_found
admit_known r key identity now e v at need =
    let kept = (prune-Prunes r now v).keeps key e at need in
    elim (Bool-cases (identity_eq e.identity identity)) [
      | inl same ↦ rw (kept, same) (refl, find-update key joined _ ∙ ap (option_map joined) kept)
      | inr other ↦ rw (kept, other) (refl, kept)
    ]

admit_new-owner :
    (key : ℕ) (identity : RequestIdentity) (made : Registry × Result ApiError (Unit {0}))
    (r' : Registry)
    → IsValid made.0
    → find key made.0.entries ≡ none
    → Made (request_storage_bytes identity) made
    → admit_new key identity made ≡ (r', ok true)
    → (find key r'.entries ≡ some (new_entry identity))
      × (length r'.entries ≤ max_entries)
      × (r'.total_bytes ≤ max_storage_bytes)
admit_new-owner key identity (r, err e) r' v absent made h = ground arith
admit_new-owner key identity (r, ok u) r' v absent made h = ground (
  arith,
  find-append key r.entries key (new_entry identity),
  length-append r.entries ((key, new_entry identity) ∷ []),
  ==_refl key,
)

-- A request that becomes the owner has a new entry, in flight, and the registry is within its bounds.
pub admit_owner :
    (r r' : Registry) (key : ℕ) (identity : RequestIdentity) (now : ℕ)
    → IsValid r
    → admit r key identity now ≡ (r', ok true)
    → (find key r'.entries ≡ some (new_entry identity))
      × (length r'.entries ≤ max_entries)
      × (r'.total_bytes ≤ max_storage_bytes)
unfolding admit admit_found
admit_owner r r' key identity now v h =
    elim (Option-cases (find key (prune_expired r now).entries)) [
      | inl absent ↦
          let pruned = (prune-Prunes r now v).valid in
          let (prunes, made) =
            make_capacity-Made (prune_expired r now) (request_storage_bytes identity) pruned in
          admit_new-owner key identity _ r' prunes.valid (prunes.fresh key absent) made
            (ap (admit_found (prune_expired r now) key identity) (sym absent) ∙ h)
      | inr (e, at) ↦ ground arith
    ]

-- After a request becomes the owner of a key, the next request with that key is not: it waits if it
-- is the same, and is refused as a conflict otherwise.
pub admit_once :
    (r r' : Registry) (key : ℕ) (identity other : RequestIdentity) (now later : ℕ)
    → IsValid r
    → admit r key identity now ≡ (r', ok true)
    → (admit r' key other later).1
      ≡ (if identity_eq identity other then ok false else err idempotency_conflict)
admit_once r r' key identity other now later v h =
    let (at, _, _) = admit_owner r r' key identity now v h in
    let v' : IsValid r' = subst IsValid (ap (λ x. x.0) h) (admit-IsValid r key identity now v) in
    (admit_known r' key other later (new_entry identity) v' at refl).0

admit_new-unavailable :
    (key : ℕ) (identity : RequestIdentity) (made : Registry × Result ApiError (Unit {0}))
    (r' : Registry)
    → IsValid made.0
    → Made (request_storage_bytes identity) made
    → admit_new key identity made ≡ (r', err idempotency_unavailable)
    → (is_full r' (request_storage_bytes identity) ≡ true) × Each (λ e. pinned e ≡ true) r'.entries
admit_new-unavailable key identity (r, err e) r' v made h =
    let same : r ≡ r' = ap (λ x. x.0) h in
    rw (sym same) (made.0, stuck-is_kept none r.completion_seq r.entries v.each made.1)
admit_new-unavailable key identity (r, ok u) r' v made h = ground arith

-- When a request is refused for want of room, it would exceed a bound, and every entry is in flight
-- or waited for.
pub admit_unavailable :
    (r r' : Registry) (key : ℕ) (identity : RequestIdentity) (now : ℕ)
    → IsValid r
    → admit r key identity now ≡ (r', err idempotency_unavailable)
    → (is_full r' (request_storage_bytes identity) ≡ true) × Each (λ e. pinned e ≡ true) r'.entries
unfolding admit admit_found
admit_unavailable r r' key identity now v h =
    elim (Option-cases (find key (prune_expired r now).entries)) [
      | inl absent ↦
          let pruned = (prune-Prunes r now v).valid in
          let (prunes, made) =
            make_capacity-Made (prune_expired r now) (request_storage_bytes identity) pruned in
          admit_new-unavailable key identity _ r' prunes.valid made
            (ap (admit_found (prune_expired r now) key identity) (sym absent) ∙ h)
      | inr (e, at) ↦ absurd (ground arith)
    ]
