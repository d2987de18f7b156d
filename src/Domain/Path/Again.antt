-- ===== src/Domain/Path/Again.antt =====
-- A path of crates/codebox-domain/src/path.rs that is read again, as when a stored path is decoded.
use fanzloud.Base.{
  ℕ, ◌≡◌, refl, sym, true, false, List, [], ◌∷◌, ◌++◌, ok, arith, All, ◌==◌, inl, inr, Bool-cases,
  subst, ap, ◌∙◌, if◌then◌else◌,
}
use fanzloud.Domain.Path.{
  contains, starts_with, put_front, split, Component, component_of, push_component, normalize,
  try_new, is_drive_prefixed,
}
use mathlib.Core.List.{append_assoc, append-nil}
use fanzloud.Base.{◌≢◌}
use fanzloud.Domain.Path.Normal.{
  IsNormal, has_none, split-has_none, Component-cases, try_new-IsNormal,
}

-- `Lacks b` : the byte is not there.
abbrev Lacks : ℕ → List ℕ → Type 0
Lacks b cs = contains b cs ≡ false

contains-append : (b : ℕ) (xs ys : List ℕ) → Lacks b xs → Lacks b ys → Lacks b (xs ++ ys)
unfolding contains
contains-append b [] ys hx hy = hy
contains-append b (x ∷ xs) ys hx hy = grind (arith, contains-append b xs ys)

put_front-Lacks :
    (b c : ℕ) (components : List (List ℕ))
    → (c == b) ≡ false
    → All (Lacks b) components
    → All (Lacks b) (put_front c components)
unfolding contains
put_front-Lacks b c [] h a = (ground arith, tt)
put_front-Lacks b c (k ∷ ks) h a = (ground arith, a.1)

split-Lacks : (b : ℕ) (cs : List ℕ) → Lacks b cs → All (Lacks b) (split cs)
unfolding split contains
split-Lacks b [] h = (refl, tt)
split-Lacks b (c ∷ cs) h =
    let rest = split-Lacks b cs (grind arith) in
    elim (Bool-cases (c == b'/')) [
      | inl slash ↦ rw slash (refl, rest)
      | inr other ↦ rw other (put_front-Lacks b c (split cs) (grind arith) rest)
    ]

push_component-Lacks :
    (b : ℕ) (normalized component : List ℕ)
    → b ≢ b'/'
    → Lacks b normalized
    → Lacks b component
    → Lacks b (push_component normalized component)
unfolding contains
push_component-Lacks b [] component other hn hc = hc
push_component-Lacks b (c ∷ cs) component other hn hc =
    contains-append b (c ∷ cs) (b'/' ∷ component) hn (grind arith)

normalize-Lacks :
    (b : ℕ) (normalized : List ℕ) (components : List (List ℕ)) (path : List ℕ)
    → b ≢ b'/'
    → Lacks b normalized
    → All (Lacks b) components
    → normalize normalized components ≡ ok path
    → Lacks b path
unfolding normalize
normalize-Lacks b normalized [] path other hn hc h = subst (Lacks b) (ground arith) hn
normalize-Lacks b normalized (component ∷ components) path other hn hc h =
    elim (Component-cases (component_of component)) [
      | inl skips ↦ normalize-Lacks b normalized components path other hn hc.1 (ground arith)
      | inr (inl climbs) ↦ absurd (ground arith)
      | inr (inr keeps) ↦
          normalize-Lacks b (push_component normalized component) components path other
            (push_component-Lacks b normalized component other hn hc.0) hc.1 (ground arith)
    ]

-- The components put together again, after what there is.
abbrev joined : List ℕ → List (List ℕ) → List ℕ
joined normalized [] = normalized
joined normalized (component ∷ components) = joined (push_component normalized component) components

abbrev joined_after : List ℕ → List (List ℕ) → List ℕ
joined_after before [] = before
joined_after before (component ∷ components) = joined (before ++ component) components

normalize-joined :
    (normalized : List ℕ) (components : List (List ℕ))
    → All IsNormal components
    → normalize normalized components ≡ ok (joined normalized components)
unfolding normalize
normalize-joined normalized [] h = refl
normalize-joined normalized (component ∷ components) h =
    rw (h.0, normalize) (normalize-joined (push_component normalized component) components h.1)

put_front-joined :
    (before : List ℕ) (c : ℕ) (components : List (List ℕ))
    → has_none components ≡ false
    → joined_after before (put_front c components) ≡ joined_after (before ++ c ∷ []) components
put_front-joined before c [] h = absurd (ground arith)
put_front-joined before c (k ∷ ks) h = ap (λ x. joined x ks) (sym (append_assoc before (c ∷ []) k))

slash-joined :
    (b : ℕ) (before : List ℕ) (components : List (List ℕ))
    → has_none components ≡ false
    → joined_after (b ∷ before) ([] ∷ components)
      ≡ joined_after ((b ∷ before) ++ b'/' ∷ []) components
slash-joined b before [] h = absurd (ground arith)
slash-joined b before (k ∷ ks) h =
    ap (λ (x : List ℕ). joined (x ++ b'/' ∷ k) ks) (append-nil (b ∷ before))
    ∙ ap (λ x. joined x ks) (sym (append_assoc (b ∷ before) (b'/' ∷ []) k))

joined-split :
    (b : ℕ) (before cs : List ℕ) → joined_after (b ∷ before) (split cs) ≡ (b ∷ before) ++ cs
unfolding split
joined-split b before [] = refl
joined-split b before (c ∷ cs) =
    let rest = joined-split b (before ++ c ∷ []) cs ∙ append_assoc (b ∷ before) (c ∷ []) cs in
    elim (Bool-cases (c == b'/')) [
      | inl slash ↦
          let at : c ≡ b'/' = ground arith in
          rw slash (
            slash-joined b before (split cs) (split-has_none cs)
            ∙ subst (λ d. joined_after ((b ∷ before) ++ d ∷ []) (split cs) ≡ (b ∷ before) ++ c ∷ cs)
                at rest)
      | inr other ↦ rw other (put_front-joined (b ∷ before) c (split cs) (split-has_none cs) ∙ rest)
    ]

-- The components of a path that does not start with a slash make up the path.
whole-joined :
    (components : List (List ℕ)) (c : ℕ) (cs : List ℕ)
    → has_none components ≡ false
    → joined_after (c ∷ []) components ≡ c ∷ cs
    → joined [] (put_front c components) ≡ c ∷ cs
whole-joined [] c cs h e = absurd (ground arith)
whole-joined (k ∷ ks) c cs h e = e

slash-refused : (c : ℕ) (cs : List ℕ) → (c == b'/') ≡ true → All IsNormal (split (c ∷ cs)) → ⊥
unfolding split
slash-refused c cs slash h =
    let first : All IsNormal ([] ∷ split cs) =
      subst (λ b. All IsNormal (if b then [] ∷ split cs else put_front c (split cs))) slash h in
    let wrong : Component.skipped ≡ Component.normal = first.0 in cc

Lacks-nil : (b : ℕ) → Lacks b []
unfolding contains
Lacks-nil b = refl

path-joined : (path : List ℕ) → All IsNormal (split path) → joined [] (split path) ≡ path
unfolding split
path-joined [] h = refl
path-joined (c ∷ cs) h = elim (Bool-cases (c == b'/')) [
  | inl slash ↦ absurd (slash-refused c cs slash h)
  | inr other ↦ rw other (whole-joined (split cs) c cs (split-has_none cs) (joined-split c [] cs))
]

path-starts_with : (path : List ℕ) → All IsNormal (split path) → starts_with b'/' path ≡ false
unfolding split
path-starts_with [] h = refl
path-starts_with (c ∷ cs) h = elim (Bool-cases (c == b'/')) [
  | inl slash ↦ absurd (slash-refused c cs slash h)
  | inr other ↦ other
]

-- A path that `try_new` returned is returned unchanged when it is read again, unless it has a drive
-- prefix.
pub try_new_again :
    (raw path : List ℕ)
    → try_new raw ≡ ok path
    → is_drive_prefixed path ≡ false
    → try_new path ≡ ok path
unfolding try_new
try_new_again raw path h safe =
    let (some_byte, short, normal) = try_new-IsNormal raw path h in
    let made : normalize [] (split raw) ≡ ok path = grind arith in
    let no_nul : contains 0 path ≡ false =
      normalize-Lacks 0 [] (split raw) path (omega arith) (Lacks-nil 0)
        (split-Lacks 0 raw (grind arith)) made in
    let no_backslash : contains b'\\' path ≡ false =
      normalize-Lacks b'\\' [] (split raw) path (omega arith) (Lacks-nil b'\\')
        (split-Lacks b'\\' raw (grind arith)) made in
    let relative = path-starts_with path normal in
    let same = normalize-joined [] (split path) normal ∙ ap ok (path-joined path normal) in
    grind arith
