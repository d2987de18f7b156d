-- ===== src/Control/Registry/Eviction.antt =====
-- The removals of the registry of apps/control-plane/src/idempotency.rs: the oldest entry,
-- and the loops of `make_capacity` and `evict_completed_to_storage_bound`.
use fanzloud.Base.{
  ℕ, zero, suc, ◌≡◌, ◌≤◌, ◌<◌, ◌⊎◌, refl, sym, true, false, Option, none, some, List, [], ◌∷◌,
  arith, length, All, ltb, ok, err, Result, inl, inr, Bool-cases, Option-cases,
}
use fanzloud.Control.Request.{ApiError, idempotency_unavailable}
use fanzloud.Control.Entries.{Entry, find}
use fanzloud.Control.Entries.Lookup.{Distinct, Each, find-Each, length-erase}
use fanzloud.Control.Registry.{
  Registry, max_storage_bytes, remove, candidate, oldest_completed, is_full, capacity_loop,
  make_capacity, eviction_loop, evict_completed_to_storage_bound,
}
use fanzloud.Control.Registry.Invariant.{
  IsSound, IsValid, is_kept, Prunes, Prunes-refl, Prunes-trans, remove-Prunes,
}

-- The oldest entry is there, and may be evicted.
pub oldest_completed-found :
    (protected : Option ℕ) (es : List (ℕ × Entry)) (k seq : ℕ)
    → Distinct es
    → oldest_completed protected es ≡ some (k, seq)
    → (x : Entry) × (find k es ≡ some x) × (candidate protected k x ≡ some seq)
unfolding oldest_completed find
oldest_completed-found protected [] k seq d h = cc
oldest_completed-found protected ((j, e) ∷ es) k seq d h =
    grind (arith, oldest_completed-found protected es k seq d.1)

pub oldest_completed-none :
    (protected : Option ℕ) (es : List (ℕ × Entry)) (key : ℕ) (e : Entry)
    → oldest_completed protected es ≡ none
    → find key es ≡ some e
    → candidate protected key e ≡ none
unfolding oldest_completed find
oldest_completed-none protected [] key e h at = cc
oldest_completed-none protected ((j, x) ∷ es) key e h at =
    grind (arith, oldest_completed-none protected es key e)

-- No entry that may be evicted was completed before the oldest one.
pub oldest_completed-least :
    (protected : Option ℕ) (es : List (ℕ × Entry)) (k seq key other : ℕ) (e : Entry)
    → oldest_completed protected es ≡ some (k, seq)
    → find key es ≡ some e
    → candidate protected key e ≡ some other
    → seq ≤ other
unfolding oldest_completed find
oldest_completed-least protected [] k seq key other e h at may = cc
oldest_completed-least protected ((j, x) ∷ es) k seq key other e h at may =
    elim (Option-cases (oldest_completed protected es)) [
      | inl nobody ↦ grind (arith, oldest_completed-none protected es key e nobody)
      | inr ((k', seq'), found) ↦
          grind (arith, oldest_completed-least protected es k' seq' key other e found)
    ]

-- What may be evicted is neither pinned nor protected.
candidate-not_kept :
    (protected : Option ℕ) (k seq last : ℕ) (x : Entry)
    → IsSound last x
    → candidate protected k x ≡ some seq
    → is_kept protected k x ≡ false
candidate-not_kept protected k seq last x sound h = grind arith

-- One round of either loop removes the oldest entry, which nobody needs.
remove_oldest-Prunes :
    (protected : Option ℕ) (r : Registry) (k seq : ℕ)
    → IsValid r
    → oldest_completed protected r.entries ≡ some (k, seq)
    → Prunes protected r (remove r k) × (suc (length (remove r k).entries) ≡ length r.entries)
unfolding remove
remove_oldest-Prunes protected r k seq v oldest =
    let (x, at, may) = oldest_completed-found protected r.entries k seq v.distinct oldest in
    let lost =
      candidate-not_kept protected k seq r.completion_seq x
        (find-Each (IsSound r.completion_seq) k r.entries x v.each at) may in
    (remove-Prunes protected r k x v at lost, rw at (sym (length-erase k r.entries x at)))

-- Room was made, or there is none and nothing can be removed.
abbrev pub Made : ℕ → Registry × Result ApiError (Unit {0}) → Type 0
Made size (r, ok u) = is_full r size ≡ false
Made size (r, err e) =
    (is_full r size ≡ true)
    × (oldest_completed none r.entries ≡ none)
    × (e ≡ idempotency_unavailable)

capacity_loop-Made :
    (fuel : ℕ) (r : Registry) (size : ℕ)
    → IsValid r
    → length r.entries < fuel
    → Prunes none r (capacity_loop fuel r size).0 × Made size (capacity_loop fuel r size)
unfolding capacity_loop
capacity_loop-Made zero r size v enough = absurd (omega arith)
capacity_loop-Made (suc fuel) r size v enough = elim (Bool-cases (is_full r size)) [
  | inl full ↦ elim (Option-cases (oldest_completed none r.entries)) [
    | inl nobody ↦ rw (full, nobody, capacity_loop) (Prunes-refl none r v, (full, nobody, refl))
    | inr ((k, seq), oldest) ↦
        let (prunes, fewer) = remove_oldest-Prunes none r k seq v oldest in
        let (more, made) = capacity_loop-Made fuel (remove r k) size prunes.valid (omega arith) in
        rw (full, oldest, capacity_loop) (Prunes-trans none prunes more, made)
  ]
  | inr room ↦ rw (room, capacity_loop) (Prunes-refl none r v, room)
]

-- The loop of `make_capacity` ends within one round per entry: there is room, or nothing can go.
pub make_capacity-Made :
    (r : Registry) (size : ℕ)
    → IsValid r
    → Prunes none r (make_capacity r size).0 × Made size (make_capacity r size)
unfolding make_capacity
make_capacity-Made r size v = capacity_loop-Made (suc (length r.entries)) r size v (omega arith)

-- The bytes are within the bound, or nothing can be removed.
abbrev pub Trimmed : Option ℕ → Registry → Type 0
Trimmed protected r =
    (r.total_bytes ≤ max_storage_bytes) ⊎ (oldest_completed protected r.entries ≡ none)

eviction_loop-Trimmed :
    (fuel : ℕ) (r : Registry) (protected : Option ℕ)
    → IsValid r
    → length r.entries < fuel
    → Prunes protected r (eviction_loop fuel r protected)
      × Trimmed protected (eviction_loop fuel r protected)
unfolding eviction_loop
eviction_loop-Trimmed zero r protected v enough = absurd (omega arith)
eviction_loop-Trimmed (suc fuel) r protected v enough =
    elim (Bool-cases (ltb max_storage_bytes r.total_bytes)) [
      | inl over ↦ elim (Option-cases (oldest_completed protected r.entries)) [
        | inl nobody ↦ rw (over, nobody, eviction_loop) (Prunes-refl protected r v, inr nobody)
        | inr ((k, seq), oldest) ↦
            let (prunes, fewer) = remove_oldest-Prunes protected r k seq v oldest in
            let (more, trimmed) =
              eviction_loop-Trimmed fuel (remove r k) protected prunes.valid (omega arith) in
            rw (over, oldest, eviction_loop) (Prunes-trans protected prunes more, trimmed)
      ]
      | inr within ↦ rw (within, eviction_loop) (Prunes-refl protected r v, inl (ground arith))
    ]

pub evict-Trimmed :
    (r : Registry) (protected : Option ℕ)
    → IsValid r
    → Prunes protected r (evict_completed_to_storage_bound r protected)
      × Trimmed protected (evict_completed_to_storage_bound r protected)
unfolding evict_completed_to_storage_bound
evict-Trimmed r protected v =
    eviction_loop-Trimmed (suc (length r.entries)) r protected v (omega arith)

-- When there is no oldest entry, all entries are needed.
pub stuck-is_kept :
    (protected : Option ℕ) (last : ℕ) (es : List (ℕ × Entry))
    → Each (IsSound last) es
    → oldest_completed protected es ≡ none
    → All (λ (x : ℕ × Entry). is_kept protected x.0 x.1 ≡ true) es
unfolding oldest_completed
stuck-is_kept protected last [] sound nobody = tt
stuck-is_kept protected last ((k, e) ∷ es) sound nobody =
    let rest : oldest_completed protected es ≡ none = grind arith in
    (grind arith, stuck-is_kept protected last es sound.1 rest)
