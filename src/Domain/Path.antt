-- ===== src/Domain/Path.antt =====
-- Workspace paths, crates/codebox-domain/src/path.rs: the normalization of a relative path. A text is
-- its UTF-8 bytes; the characters that the code looks for are ASCII, so single bytes.
mod Normal
mod Drive
mod Again
mod Examples
use fanzloud.Base.{
  ℕ, Bool, true, false, not, ◌&&◌, ◌||◌, List, [], ◌∷◌, ◌++◌, Result, ok, err, ◌>>=◌, ◌>>◌, ensure,
  length, leb, ◌==◌, if◌then◌else◌,
}

abbrev pub max_workspace_path_bytes : ℕ
max_workspace_path_bytes = 4096

pub data WorkspacePathError : Type 0 where
  empty absolute parent_traversal contains_nul backslash_not_allowed : WorkspacePathError
  drive_prefix : WorkspacePathError
  -- max_bytes, actual_bytes
  too_long : ℕ → ℕ → WorkspacePathError

abbrev pub is_empty : List ℕ → Bool
is_empty [] = true
is_empty (c ∷ cs) = false

unfoldable pub contains : ℕ → List ℕ → Bool
contains b [] = false
contains b (c ∷ cs) = c == b || contains b cs

abbrev pub starts_with : ℕ → List ℕ → Bool
starts_with b [] = false
starts_with b (c ∷ cs) = c == b

abbrev pub is_ascii_alphabetic : ℕ → Bool
is_ascii_alphabetic c = (leb b'a' c && leb c b'z') || (leb b'A' c && leb c b'Z')

abbrev pub is_drive_prefixed : List ℕ → Bool
is_drive_prefixed (c ∷ d ∷ cs) = is_ascii_alphabetic c && d == b':'
is_drive_prefixed _ = false

abbrev pub put_front : ℕ → List (List ℕ) → List (List ℕ)
put_front c [] = (c ∷ []) ∷ []
put_front c (component ∷ components) = (c ∷ component) ∷ components

-- `split('/')`.
unfoldable pub split : List ℕ → List (List ℕ)
split [] = [] ∷ []
split (c ∷ cs) = let rest = split cs in if c == b'/' then [] ∷ rest else put_front c rest

pub data Component : Type 0 where
  skipped parent normal : Component

abbrev pub component_of : List ℕ → Component
component_of [] = Component.skipped
component_of (c ∷ []) = if c == b'.' then Component.skipped else Component.normal
component_of (c ∷ d ∷ []) = if c == b'.' && d == b'.' then Component.parent else Component.normal
component_of _ = Component.normal

abbrev pub push_component : List ℕ → List ℕ → List ℕ
push_component [] component = component
push_component (c ∷ cs) component = (c ∷ cs) ++ b'/' ∷ component

unfoldable pub normalize : List ℕ → List (List ℕ) → Result WorkspacePathError (List ℕ)
normalize normalized [] = ok normalized
normalize normalized (component ∷ components) = elim (component_of component) [
  | Component.skipped ↦ normalize normalized components
  | Component.parent ↦ err parent_traversal
  | Component.normal ↦ normalize (push_component normalized component) components
]

unfoldable pub try_new : List ℕ → Result WorkspacePathError (List ℕ)
try_new raw = do
  ensure (not (is_empty raw)) empty
  ensure (not (contains 0 raw)) contains_nul
  ensure (not (contains b'\\' raw)) backslash_not_allowed
  ensure (not (starts_with b'/' raw)) absolute
  ensure (not (is_drive_prefixed raw)) drive_prefix
  ensure (leb (length raw) max_workspace_path_bytes)
      (too_long max_workspace_path_bytes (length raw))
  normalized ← normalize [] (split raw)
  ensure (not (is_empty normalized)) empty
  ensure (leb (length normalized) max_workspace_path_bytes)
      (too_long max_workspace_path_bytes (length normalized))
  ok normalized
