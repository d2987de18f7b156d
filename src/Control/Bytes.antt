-- ===== src/Control/Bytes.antt =====
-- Comparison of byte strings that does the same work for all inputs, as apps/control-plane/src/state.rs
-- and config.rs write it, and the exclusive or and or of the bytes that it stands on.
pub mod Digits
use Prim.Native.Char.{code}
use Prim.Native.Nat.{bit_or, bit_xor}
use fanzloud.Base.{
  ℕ, suc, ◌+◌, ◌≡◌, refl, ap, ◌↔◌, Bool, true, List, [], ◌∷◌, length, ◌==◌, ==_iff, arith, String,
}
use Digits.{bit_xor-eq_zero, bit_or-eq_zero}

-- The bytes of an ASCII text.
abbrev pub codes : String → List ℕ
codes String.[] = []
codes (String.◌∷◌ c s) = code c ∷ codes s

-- The loop over the pairs: the difference so far, and how many were compared.
unfoldable pub compare_from : ℕ → ℕ → List ℕ → List ℕ → ℕ × ℕ
compare_from difference compared [] right = (difference, compared)
compare_from difference compared (l ∷ left) [] = (difference, compared)
compare_from difference compared (l ∷ left) (r ∷ right) =
    compare_from (bit_or difference (bit_xor l r)) (compared + 1) left right

unfoldable pub fixed_token_compare : List ℕ → List ℕ → Bool × ℕ
fixed_token_compare left right =
    let (difference, compared) = compare_from 0 0 left right in (difference == 0, compared)

unfoldable pub fixed_token_eq : List ℕ → List ℕ → Bool
unfolding fixed_token_compare
fixed_token_eq left right = (fixed_token_compare left right).0

pub compare_from-eq_zero :
    (difference compared : ℕ) (left right : List ℕ)
    → length left ≡ length right
    → ((compare_from difference compared left right).0 ≡ 0) ↔ ((difference ≡ 0) × (left ≡ right))
unfolding compare_from
compare_from-eq_zero difference compared [] [] same = (λ e. (e, refl), λ h. h.0)
compare_from-eq_zero difference compared (l ∷ left) [] same = absurd (omega arith)
compare_from-eq_zero difference compared [] (r ∷ right) same = absurd (omega arith)
compare_from-eq_zero difference compared (l ∷ left) (r ∷ right) same = ground (
  arith,
  bit_or-eq_zero difference (bit_xor l r),
  bit_xor-eq_zero l r,
  compare_from-eq_zero (bit_or difference (bit_xor l r)) (compared + 1) left right,
)

-- How many bytes are compared does not depend on what they are.
pub compare_from_work :
    (difference compared : ℕ) (left right : List ℕ)
    → length left ≡ length right
    → (compare_from difference compared left right).1 ≡ compared + length left
unfolding compare_from
compare_from_work difference compared [] right same = omega arith
compare_from_work difference compared (l ∷ left) [] same = absurd (omega arith)
compare_from_work difference compared (l ∷ left) (r ∷ right) same = omega (
  arith,
  compare_from_work (bit_or difference (bit_xor l r)) (compared + 1) left right (omega arith),
)

-- Two tokens of one length compare as equal exactly when they are the same, and the comparison looks
-- at as many bytes as they have, whatever these are.
pub fixed_token_compare_exact :
    (left right : List ℕ)
    → length left ≡ length right
    → ((fixed_token_eq left right ≡ true) ↔ (left ≡ right))
      × ((fixed_token_compare left right).1 ≡ length left)
unfolding fixed_token_eq fixed_token_compare
fixed_token_compare_exact left right same = (
  ground (arith, compare_from-eq_zero 0 0 left right),
  omega (arith, compare_from_work 0 0 left right same),
)
