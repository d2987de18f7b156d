-- ===== src/Domain/Path/Examples.antt =====
-- Paths of crates/codebox-domain/src/path.rs, and the theorems at them.
use fanzloud.Base.{ℕ, ◌≡◌, ◌≤◌, refl, true, List, [], ◌∷◌, ok, err, arith, length, All}
use fanzloud.Domain.Path.{
  contains, split, normalize, try_new, drive_prefix, is_drive_prefixed, max_workspace_path_bytes,
}
use fanzloud.Domain.Path.Normal.{IsPlain, try_new-IsPlain}
use fanzloud.Domain.Path.Drive.{try_new_lets_drive}
use fanzloud.Domain.Path.Again.{try_new_again}

-- `a/./b//c` and `a/b/c`.
abbrev dotted : List ℕ
dotted = b'a' ∷ b'/' ∷ b'.' ∷ b'/' ∷ b'b' ∷ b'/' ∷ b'/' ∷ b'c' ∷ []

abbrev plain : List ℕ
plain = b'a' ∷ b'/' ∷ b'b' ∷ b'/' ∷ b'c' ∷ []

dotted_normalizes : try_new dotted ≡ ok plain
unfolding try_new contains split normalize
dotted_normalizes = refl

try_new-IsPlain_example :
    (1 ≤ length plain) × (length plain ≤ max_workspace_path_bytes) × All IsPlain (split plain)
try_new-IsPlain_example = try_new-IsPlain dotted plain dotted_normalizes

try_new_again_example : try_new plain ≡ ok plain
try_new_again_example = try_new_again dotted plain dotted_normalizes refl

-- `C:/x`.
abbrev drive : List ℕ
drive = b'C' ∷ b':' ∷ b'/' ∷ b'x' ∷ []

drive_normalizes : normalize [] (split drive) ≡ ok drive
unfolding split normalize
drive_normalizes = refl

try_new_lets_drive_example :
    (try_new drive ≡ err drive_prefix)
    × (try_new (b'.' ∷ b'/' ∷ drive) ≡ ok drive)
    × (is_drive_prefixed drive ≡ true)
unfolding contains
try_new_lets_drive_example =
    try_new_lets_drive b'C' (b'/' ∷ b'x' ∷ []) drive refl refl refl (omega arith) drive_normalizes
