-- ===== src/Control/Entries/Lookup.antt =====
-- What looking up, changing and erasing an entry do to the map, its size and its bytes.
use fanzloud.Base.{
  ℕ, suc, ◌+◌, ◌≡◌, ◌≢◌, refl, none, some, List, [], ◌∷◌, ◌++◌, arith, length, All, ◌==◌, ==_iff,
  if◌then◌else◌, option_map, inl, inr, Bool-cases,
}
use fanzloud.Control.Entries.{Entry, find, update, erase}

-- The bytes that the entries account for.
abbrev pub bytes : List (ℕ × Entry) → ℕ
bytes [] = 0
bytes ((k, e) ∷ es) = e.request_bytes + e.response_bytes + bytes es

abbrev pub Distinct : List (ℕ × Entry) → Type 0
Distinct [] = Unit {0}
Distinct ((k, e) ∷ es) = (find k es ≡ none) × Distinct es

pub length-erase :
    (key : ℕ) (es : List (ℕ × Entry)) (e : Entry)
    → find key es ≡ some e
    → length es ≡ suc (length (erase key es))
unfolding find erase
length-erase key [] e h = cc
length-erase key ((k, x) ∷ es) e h = ground (arith, length-erase key es e)

pub bytes-erase :
    (key : ℕ) (es : List (ℕ × Entry)) (e : Entry)
    → find key es ≡ some e
    → bytes es ≡ e.request_bytes + e.response_bytes + bytes (erase key es)
unfolding find erase
bytes-erase key [] e h = cc
bytes-erase key ((k, x) ∷ es) e h = ground (arith, bytes-erase key es e)

pub find-erase :
    (key other : ℕ) (es : List (ℕ × Entry))
    → key ≢ other
    → find other (erase key es) ≡ find other es
unfolding find erase
find-erase key other [] h = refl
find-erase key other ((k, x) ∷ es) h = ground (arith, find-erase key other es h)

pub find-erase_same :
    (key : ℕ) (es : List (ℕ × Entry)) → Distinct es → find key (erase key es) ≡ none
unfolding find erase
find-erase_same key [] d = refl
find-erase_same key ((k, x) ∷ es) d = grind (arith, find-erase_same key es d.1, ==_iff k key)

pub erase-Distinct : (key : ℕ) (es : List (ℕ × Entry)) → Distinct es → Distinct (erase key es)
unfolding find erase
erase-Distinct key [] h = tt
erase-Distinct key ((k, x) ∷ es) h = ground (arith, erase-Distinct key es h.1, find-erase key k es)

pub erase-All {ℓ} :
    (P : ℕ × Entry → Type ℓ) (key : ℕ) (es : List (ℕ × Entry)) → All P es → All P (erase key es)
unfolding erase
erase-All P key [] h = tt
erase-All P key ((k, x) ∷ es) h = ground (arith, erase-All P key es h.1)

pub find-update :
    (key : ℕ) (f : Entry → Entry) (es : List (ℕ × Entry))
    → find key (update key f es) ≡ option_map f (find key es)
unfolding find update
find-update key f [] = refl
find-update key f ((k, x) ∷ es) = ground (arith, find-update key f es)

pub find-update_other :
    (key other : ℕ) (f : Entry → Entry) (es : List (ℕ × Entry))
    → key ≢ other
    → find other (update key f es) ≡ find other es
unfolding find update
find-update_other key other f [] h = refl
find-update_other key other f ((k, x) ∷ es) h = ground (arith, find-update_other key other f es h)

pub length-update :
    (key : ℕ) (f : Entry → Entry) (es : List (ℕ × Entry)) → length (update key f es) ≡ length es
unfolding update
length-update key f [] = refl
length-update key f ((k, x) ∷ es) = ground (arith, length-update key f es)

pub find-update_absent :
    (key other : ℕ) (f : Entry → Entry) (es : List (ℕ × Entry))
    → find other es ≡ none
    → find other (update key f es) ≡ none
unfolding find update
find-update_absent key other f [] h = refl
find-update_absent key other f ((k, x) ∷ es) h = ground (arith, find-update_absent key other f es)

pub update-Distinct :
    (key : ℕ) (f : Entry → Entry) (es : List (ℕ × Entry)) → Distinct es → Distinct (update key f es)
unfolding find update
update-Distinct key f [] h = tt
update-Distinct key f ((k, x) ∷ es) h =
    ground (arith, update-Distinct key f es h.1, find-update_absent key k f es h.0)

-- The bytes after a change that adds `more` to those of the entry.
pub bytes-update :
    (key more : ℕ) (f : Entry → Entry) (es : List (ℕ × Entry)) (e : Entry)
    → find key es ≡ some e
    → (f e).request_bytes + (f e).response_bytes ≡ e.request_bytes + e.response_bytes + more
    → bytes (update key f es) ≡ bytes es + more
unfolding find update
bytes-update key more f [] e h same = cc
bytes-update key more f ((k, x) ∷ es) e h same = ground (arith, bytes-update key more f es e)

pub update_absent :
    (key : ℕ) (f : Entry → Entry) (es : List (ℕ × Entry))
    → find key es ≡ none
    → update key f es ≡ es
unfolding find update
update_absent key f [] h = refl
update_absent key f ((k, x) ∷ es) h = ground (arith, update_absent key f es)

-- All entries have the property.
abbrev pub Each {ℓ} : (Entry → Type ℓ) → List (ℕ × Entry) → Type ℓ
Each P es = All (λ (x : ℕ × Entry). P x.1) es

pub find-Each {ℓ} :
    (P : Entry → Type ℓ) (key : ℕ) (es : List (ℕ × Entry)) (e : Entry)
    → Each P es
    → find key es ≡ some e
    → P e
unfolding find
find-Each P key [] e a h = cc
find-Each P key ((k, x) ∷ es) e a h = ground (arith, find-Each P key es e a.1)

pub update-Each {ℓ} :
    (P : Entry → Type ℓ) (key : ℕ) (f : Entry → Entry) (es : List (ℕ × Entry))
    → ((e : Entry) → find key es ≡ some e → P e → P (f e))
    → Each P es
    → Each P (update key f es)
unfolding find update
update-Each P key f [] step h = tt
update-Each P key f ((k, x) ∷ es) step h = elim (Bool-cases (k == key)) [
  | inl same ↦ rw same (step x (rw same) h.0, h.1)
  | inr other ↦ rw other (h.0, update-Each P key f es (λ e at. step e (rw other at)) h.1)
]

pub find-append :
    (key : ℕ) (es : List (ℕ × Entry)) (k : ℕ) (e : Entry)
    → find key (es ++ (k, e) ∷ [])
      ≡ (elim (find key es) [ none ↦ if k == key then some e else none | some x ↦ some x ])
unfolding find
find-append key [] k e = ground arith
find-append key ((j, x) ∷ es) k e = ground (arith, find-append key es k e)

pub append-Distinct :
    (es : List (ℕ × Entry)) (k : ℕ) (e : Entry)
    → find k es ≡ none
    → Distinct es
    → Distinct (es ++ (k, e) ∷ [])
unfolding find
append-Distinct [] k e h d = (refl, tt)
append-Distinct ((j, x) ∷ es) k e h d = ground (arith, append-Distinct es k e, find-append j es k e)

pub bytes-append :
    (es : List (ℕ × Entry)) (k : ℕ) (e : Entry)
    → bytes (es ++ (k, e) ∷ []) ≡ bytes es + (e.request_bytes + e.response_bytes)
bytes-append [] k e = omega arith
bytes-append ((j, x) ∷ es) k e = omega (arith, bytes-append es k e)
