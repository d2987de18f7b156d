-- ===== src/Control/HttpConfig/Bootstrap.antt =====
-- Which candidate the bootstrap secret of apps/control-plane/src/config.rs takes.
use Prim.Native.Nat.{bit_xor}
use fanzloud.Base.{
  ℕ, zero, suc, ◌≤◌, ◌≡◌, refl, sym, ap, ◌∙◌, ◌↔◌, subst, Bool-cases, inl, inr, true, false, some,
  none, List, [], ◌∷◌, length, ok, arith,
}
use fanzloud.Control.Bytes.{compare_from, compare_from-eq_zero}
use fanzloud.Control.Bytes.Digits.{bit_xor-eq_zero}
use fanzloud.Control.HttpConfig.{
  OperatorBootstrapToken, max_bootstrap_bytes, padded, try_new, compare, matches,
}

length-padded : (n : ℕ) (value : List ℕ) → length (padded n value) ≡ n
unfolding padded
length-padded zero value = refl
length-padded (suc n) [] = omega (arith, length-padded n [])
length-padded (suc n) (byte ∷ value) = omega (arith, length-padded n value)

padded-cancel :
    (n : ℕ) (xs ys : List ℕ)
    → length xs ≡ length ys
    → length xs ≤ n
    → padded n xs ≡ padded n ys
    → xs ≡ ys
unfolding padded
padded-cancel n [] [] same room e = refl
padded-cancel n (x ∷ xs) [] same room e = absurd (omega arith)
padded-cancel n [] (y ∷ ys) same room e = absurd (omega arith)
padded-cancel zero (x ∷ xs) (y ∷ ys) same room e = absurd (omega arith)
padded-cancel (suc n) (x ∷ xs) (y ∷ ys) same room e = ground (arith, padded-cancel n xs ys)

module _ (n : ℕ) (value given : List ℕ) (room : length value ≤ n) where
  difference_lem :
      ((compare_from (bit_xor (length given) (length value)) 0 (padded n value) (padded n given)).0
        ≡ 0)
      ↔ (given ≡ value)
  difference_lem =
      let sizes = length-padded n value ∙ sym (length-padded n given) in
      let zero_iff =
        compare_from-eq_zero (bit_xor (length given) (length value)) 0 (padded n value)
          (padded n given) sizes in
      let size_iff = bit_xor-eq_zero (length given) (length value) in
      (
        λ e.
            let (s, p) = zero_iff.0 e in
            padded-cancel n given value (size_iff.0 s) (omega (arith, size_iff.0 s)) (sym p),
        λ e. zero_iff.1 (size_iff.1 (ap length e), ap (padded n) (sym e)),
      )

abbrev stored : List ℕ → OperatorBootstrapToken
stored value = record { bytes = padded max_bootstrap_bytes value; len = length value }

try_new-parts :
    (value : List ℕ) (t : OperatorBootstrapToken)
    → try_new value ≡ ok t
    → (stored value ≡ t) × (32 ≤ length value) × (length value ≤ 128)
unfolding try_new
try_new-parts value t made = (ground arith, ground arith, ground arith)

matches-some :
    (value given : List ℕ)
    → length value ≤ 128
    → (matches (stored value) (some given) ≡ true) ↔ (given ≡ value)
unfolding matches compare
matches-some value given room = ground (arith, difference_lem 128 value given room)

same_as_empty : (t : OperatorBootstrapToken) → matches t (some []) ≡ matches t none
unfolding matches
same_as_empty t = refl

matches-none :
    (value : List ℕ) → 32 ≤ length value → length value ≤ 128 → matches (stored value) none ≡ false
matches-none value some_bytes room = elim (Bool-cases (matches (stored value) none)) [
  | inr refused ↦ refused
  | inl taken ↦
      let empty : [] ≡ value =
        (matches-some value [] room).0 (same_as_empty (stored value) ∙ taken) in
      absurd (omega (arith, ap length empty))
]

-- A bootstrap token that is made from a value takes exactly that value, a missing candidate never.
pub matches_exact :
    (value : List ℕ) (t : OperatorBootstrapToken)
    → try_new value ≡ ok t
    → ((given : List ℕ) → (matches t (some given) ≡ true) ↔ (given ≡ value))
      × (matches t none ≡ false)
matches_exact value t made =
    let (same, some_bytes, room) = try_new-parts value t made in
    subst
      (λ t.
        ((given : List ℕ) → (matches t (some given) ≡ true) ↔ (given ≡ value))
        × (matches t none ≡ false))
      same (λ given. matches-some value given room, matches-none value some_bytes room)
