-- ===== src/Domain/Path/Normal.antt =====
-- The components and the prefix of a path of crates/codebox-domain/src/path.rs.
use fanzloud.Base.{
  ℕ, ◌≡◌, ◌≤◌, refl, sym, Bool, true, false, List, [], ◌∷◌, ◌++◌, ok, arith, length, All,
  All-append, All-map, ◌≢◌, ◌==◌, inl, inr, ◌⊎◌, Bool-cases, subst, ap, ◌∙◌,
}
use fanzloud.Domain.Path.{
  is_empty, contains, put_front, split, Component, component_of, push_component, normalize, try_new,
  max_workspace_path_bytes,
}

-- A component that is kept as it is.
abbrev pub IsNormal : List ℕ → Type 0
IsNormal component = component_of component ≡ Component.normal

abbrev pub IsPiece : List ℕ → Type 0
IsPiece component = contains b'/' component ≡ false

split-piece : (component : List ℕ) → IsPiece component → split component ≡ component ∷ []
unfolding split contains
split-piece [] h = refl
split-piece (c ∷ cs) h = grind (arith, split-piece cs)

put_front-IsPiece :
    (c : ℕ) (components : List (List ℕ))
    → (c == b'/') ≡ false
    → All IsPiece components
    → All IsPiece (put_front c components)
unfolding contains
put_front-IsPiece c [] h a = (ground arith, tt)
put_front-IsPiece c (k ∷ ks) h a = (ground arith, a.1)

pub split-IsPiece : (cs : List ℕ) → All IsPiece (split cs)
unfolding split contains
split-IsPiece [] = (refl, tt)
split-IsPiece (c ∷ cs) = elim (Bool-cases (c == b'/')) [
  | inl slash ↦ rw slash (refl, split-IsPiece cs)
  | inr other ↦ rw other (put_front-IsPiece c (split cs) other (split-IsPiece cs))
]

abbrev pub has_none : List (List ℕ) → Bool
has_none [] = true
has_none (x ∷ xs) = false

pub put_front-append :
    (c : ℕ) (xs ys : List (List ℕ))
    → has_none xs ≡ false
    → put_front c (xs ++ ys) ≡ put_front c xs ++ ys
put_front-append c [] ys h = ground arith
put_front-append c (x ∷ xs) ys h = refl

pub put_front-has_none : (c : ℕ) (xs : List (List ℕ)) → has_none (put_front c xs) ≡ false
put_front-has_none c [] = refl
put_front-has_none c (x ∷ xs) = refl

pub split-has_none : (cs : List ℕ) → has_none (split cs) ≡ false
unfolding split
split-has_none [] = refl
split-has_none (c ∷ cs) = elim (Bool-cases (c == b'/')) [
  | inl slash ↦ rw slash refl
  | inr other ↦ rw other (put_front-has_none c (split cs))
]

split-append : (xs ys : List ℕ) → split (xs ++ b'/' ∷ ys) ≡ split xs ++ split ys
unfolding split
split-append [] ys = refl
split-append (c ∷ xs) ys = elim (Bool-cases (c == b'/')) [
  | inl slash ↦ rw slash (ap (λ (r : List (List ℕ)). [] ∷ r) (split-append xs ys))
  | inr other ↦ rw other (
      ap (put_front c) (split-append xs ys)
      ∙ put_front-append c (split xs) (split ys) (split-has_none xs))
]

-- Nothing was kept yet, or all components of what was kept are normal.
abbrev IsClean : List ℕ → Type 0
IsClean [] = Unit {0}
IsClean (c ∷ cs) = All IsNormal (split (c ∷ cs))

push_component-IsClean :
    (normalized component : List ℕ)
    → IsPiece component
    → IsNormal component
    → IsClean normalized
    → IsClean (push_component normalized component)
push_component-IsClean [] [] piece normal clean = tt
push_component-IsClean [] (c ∷ cs) piece normal clean =
    subst (All IsNormal) (sym (split-piece (c ∷ cs) piece)) (normal, tt)
push_component-IsClean (c ∷ cs) component piece normal clean =
    subst (All IsNormal)
      (sym (
        split-append (c ∷ cs) component
        ∙ ap (λ r. split (c ∷ cs) ++ r) (split-piece component piece)))
      (All-append IsNormal (split (c ∷ cs)) (component ∷ []) clean (normal, tt))

pub Component-cases :
    (k : Component) → (k ≡ Component.skipped) ⊎ ((k ≡ Component.parent) ⊎ (k ≡ Component.normal))
Component-cases Component.skipped = inl refl
Component-cases Component.parent = inr (inl refl)
Component-cases Component.normal = inr (inr refl)

normalize-IsClean :
    (normalized : List ℕ) (components : List (List ℕ)) (path : List ℕ)
    → All IsPiece components
    → IsClean normalized
    → normalize normalized components ≡ ok path
    → IsClean path
unfolding normalize
normalize-IsClean normalized [] path pieces clean h = subst IsClean (ground arith) clean
normalize-IsClean normalized (component ∷ components) path pieces clean h =
    elim (Component-cases (component_of component)) [
      | inl skips ↦ normalize-IsClean normalized components path pieces.1 clean (ground arith)
      | inr (inl climbs) ↦ absurd (ground arith)
      | inr (inr keeps) ↦
          normalize-IsClean (push_component normalized component) components path pieces.1
            (push_component-IsClean normalized component pieces.0 keeps clean) (ground arith)
    ]

pub clean-IsNormal :
    (path : List ℕ) → is_empty path ≡ false → IsClean path → All IsNormal (split path)
clean-IsNormal [] some_byte clean = absurd (ground arith)
clean-IsNormal (c ∷ cs) some_byte clean = clean

pub try_new-IsNormal :
    (raw path : List ℕ)
    → try_new raw ≡ ok path
    → (1 ≤ length path) × (length path ≤ max_workspace_path_bytes) × All IsNormal (split path)
unfolding try_new
try_new-IsNormal raw path h =
    let made : (normalize [] (split raw)) ≡ ok path = grind arith in
    let clean = normalize-IsClean [] (split raw) path (split-IsPiece raw) tt made in
    (ground arith, ground arith, clean-IsNormal path (grind arith) clean)

-- A component that is neither empty nor `.` nor `..`.
abbrev pub IsPlain : List ℕ → Type 0
IsPlain k = (k ≢ []) × (k ≢ b'.' ∷ []) × (k ≢ b'.' ∷ b'.' ∷ [])

normal-IsPlain : (k : List ℕ) → IsNormal k → IsPlain k
normal-IsPlain [] h = absurd (ground arith)
normal-IsPlain (c ∷ []) h = (λ e. ground arith, λ e. ground arith, λ e. ground arith)
normal-IsPlain (c ∷ d ∷ []) h = (λ e. ground arith, λ e. ground arith, λ e. ground arith)
normal-IsPlain (c ∷ d ∷ e ∷ k) h = (λ e. ground arith, λ e. ground arith, λ e. ground arith)

-- A path that `try_new` returns is not empty, within the bound, and no component of it is empty, `.`
-- or `..`.
pub try_new-IsPlain :
    (raw path : List ℕ)
    → try_new raw ≡ ok path
    → (1 ≤ length path) × (length path ≤ max_workspace_path_bytes) × All IsPlain (split path)
try_new-IsPlain raw path h =
    let (some_byte, short, normal) = try_new-IsNormal raw path h in
    (some_byte, short, All-map (λ k one. normal-IsPlain k one) (split path) normal)
