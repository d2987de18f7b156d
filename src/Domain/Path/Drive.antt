-- ===== src/Domain/Path/Drive.antt =====
-- The drive prefix of a path of crates/codebox-domain/src/path.rs.
use fanzloud.Base.{
  ℕ, ◌+◌, ◌≡◌, ◌≤◌, refl, sym, true, false, List, [], ◌∷◌, ◌++◌, ok, err, arith, length,
  length-append, ◌==◌, inl, inr, Bool-cases, ap, ◌∙◌,
}
use fanzloud.Domain.Path.{
  drive_prefix, contains, is_ascii_alphabetic, is_drive_prefixed, put_front, split, Component,
  component_of, normalize, try_new, max_workspace_path_bytes, push_component,
}
use fanzloud.Domain.Path.Normal.{has_none, split-has_none, Component-cases}

pieces_size : List (List ℕ) → ℕ
pieces_size [] = 0
pieces_size (k ∷ ks) = length k + 1 + pieces_size ks

pieces_size-put_front :
    (c : ℕ) (ks : List (List ℕ))
    → has_none ks ≡ false
    → pieces_size (put_front c ks) ≡ pieces_size ks + 1
unfolding pieces_size
pieces_size-put_front c [] h = ground arith
pieces_size-put_front c (k ∷ ks) h = omega arith

pieces_size-split : (cs : List ℕ) → pieces_size (split cs) ≡ length cs + 1
unfolding split pieces_size
pieces_size-split [] = refl
pieces_size-split (c ∷ cs) = elim (Bool-cases (c == b'/')) [
  | inl slash ↦ rw slash (omega (arith, pieces_size-split cs))
  | inr other ↦
      rw other (
        omega (arith, pieces_size-put_front c (split cs) (split-has_none cs), pieces_size-split cs))
]

push_component-size :
    (normalized component : List ℕ)
    → length (push_component normalized component) ≤ length normalized + length component + 1
push_component-size [] component = omega arith
push_component-size (c ∷ cs) component = omega (arith, length-append cs (b'/' ∷ component))

normalize-size :
    (normalized : List ℕ) (components : List (List ℕ)) (path : List ℕ)
    → normalize normalized components ≡ ok path
    → length path ≤ length normalized + pieces_size components
unfolding normalize pieces_size
normalize-size normalized [] path h = ground arith
normalize-size normalized (k ∷ ks) path h = ground (
  arith,
  normalize-size normalized ks path,
  normalize-size (push_component normalized k) ks path,
  push_component-size normalized k,
)

-- What was kept stays in front.
normalize-front :
    (c d : ℕ) (cs : List ℕ) (components : List (List ℕ)) (path : List ℕ)
    → normalize (c ∷ d ∷ cs) components ≡ ok path
    → (rest : List ℕ) × (path ≡ c ∷ d ∷ rest)
unfolding normalize
normalize-front c d cs [] path h = (cs, ground arith)
normalize-front c d cs (k ∷ ks) path h = elim (Component-cases (component_of k)) [
  | inl skips ↦ normalize-front c d cs ks path (ground arith)
  | inr (inl climbs) ↦ absurd (ground arith)
  | inr (inr keeps) ↦ normalize-front c d (cs ++ b'/' ∷ k) ks path (ground arith)
]

put_front-first :
    (c : ℕ) (ks : List (List ℕ))
    → (k : List ℕ) × (rest : List (List ℕ)) × (put_front c ks ≡ (c ∷ k) ∷ rest)
put_front-first c [] = ([], [], refl)
put_front-first c (k ∷ ks) = (k, ks, refl)

letter_no_slash : (letter : ℕ) → is_ascii_alphabetic letter ≡ true → (letter == b'/') ≡ false
letter_no_slash letter h = ground arith

-- The first component of such a path starts with the same two bytes.
split-drive :
    (letter : ℕ) (cs : List ℕ)
    → is_ascii_alphabetic letter ≡ true
    → (k : List ℕ) × (ks : List (List ℕ)) × (split (letter ∷ b':' ∷ cs) ≡ (letter ∷ b':' ∷ k) ∷ ks)
unfolding split
split-drive letter cs h =
    let (k, ks, first) = put_front-first b':' (split cs) in
    (k, ks, rw (letter_no_slash letter h) (ap (put_front letter) first))

drive-normal :
    (letter : ℕ) (k : List ℕ)
    → is_ascii_alphabetic letter ≡ true
    → component_of (letter ∷ b':' ∷ k) ≡ Component.normal
drive-normal letter [] h = ground arith
drive-normal letter (c ∷ k) h = refl

normalize-drive :
    (letter : ℕ) (k : List ℕ) (ks : List (List ℕ)) (path : List ℕ)
    → is_ascii_alphabetic letter ≡ true
    → normalize [] ((letter ∷ b':' ∷ k) ∷ ks) ≡ ok path
    → (rest : List ℕ) × (path ≡ letter ∷ b':' ∷ rest)
unfolding normalize
normalize-drive letter k ks path h made =
    elim (Component-cases (component_of (letter ∷ b':' ∷ k))) [
      | inl skips ↦ absurd (ground (arith, drive-normal letter k h))
      | inr (inl climbs) ↦ absurd (ground arith)
      | inr (inr keeps) ↦ normalize-front letter b':' k ks path (ground arith)
    ]

normalize_dotted :
    (raw : List ℕ) → normalize [] (split (b'.' ∷ b'/' ∷ raw)) ≡ normalize [] (split raw)
unfolding normalize split
normalize_dotted raw = refl

accepted :
    (letter : ℕ) (cs path rest : List ℕ)
    → is_ascii_alphabetic letter ≡ true
    → contains 0 cs ≡ false
    → contains b'\\' cs ≡ false
    → length cs + 4 ≤ max_workspace_path_bytes
    → normalize [] (split (letter ∷ b':' ∷ cs)) ≡ ok path
    → path ≡ letter ∷ b':' ∷ rest
    → length path ≤ max_workspace_path_bytes
    → (try_new (letter ∷ b':' ∷ cs) ≡ err drive_prefix)
      × (try_new (b'.' ∷ b'/' ∷ letter ∷ b':' ∷ cs) ≡ ok path)
      × (is_drive_prefixed path ≡ true)
unfolding try_new contains
accepted letter cs path rest h nul backslash room made front fits =
    (ground arith, ground (arith, normalize_dotted (letter ∷ b':' ∷ cs) ∙ made), ground arith)

-- A path that starts with a letter and a colon, with no NUL byte, no backslash and no component `..`
-- that its normalization refuses, and that is within the bound also behind `./`, is refused for its
-- drive prefix; but behind `./` it is accepted, and the path that comes out starts with a letter and a
-- colon again.
pub try_new_lets_drive :
    (letter : ℕ) (cs path : List ℕ)
    → is_ascii_alphabetic letter ≡ true
    → contains 0 cs ≡ false
    → contains b'\\' cs ≡ false
    → length cs + 4 ≤ max_workspace_path_bytes
    → normalize [] (split (letter ∷ b':' ∷ cs)) ≡ ok path
    → (try_new (letter ∷ b':' ∷ cs) ≡ err drive_prefix)
      × (try_new (b'.' ∷ b'/' ∷ letter ∷ b':' ∷ cs) ≡ ok path)
      × (is_drive_prefixed path ≡ true)
try_new_lets_drive letter cs path h nul backslash room made =
    let (k, ks, first) = split-drive letter cs h in
    let (rest, front) = normalize-drive letter k ks path h (ap (normalize []) (sym first) ∙ made) in
    accepted letter cs path rest h nul backslash room made front (
      omega (
        arith,
        normalize-size [] (split (letter ∷ b':' ∷ cs)) path made,
        pieces_size-split (letter ∷ b':' ∷ cs),
      ))
