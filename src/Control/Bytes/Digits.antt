-- ===== src/Control/Bytes/Digits.antt =====
-- When the exclusive or and the or of two numbers are zero.
use Prim.Native.Nat.{
  ◌/◌, ◌%◌, max, bit_or, bit_xor, digits, differ, bit_or-bitwise, bit_xor-bitwise,
}
use fanzloud.Base.{ℕ, zero, suc, ◌≤◌, ◌≡◌, sym, ◌∙◌, ◌↔◌, arith}

differ-eq_zero : (x y : ℕ) → (differ x y ≡ 0) ↔ (x ≡ y)
differ-eq_zero zero y = (λ e. omega arith, λ e. omega arith)
differ-eq_zero (suc x) zero = (λ e. omega arith, λ e. omega arith)
differ-eq_zero (suc x) (suc y) = ground (arith, differ-eq_zero x y)

abbrev xor_digits : ℕ → ℕ → ℕ → ℕ
xor_digits n a b = digits (λ b. b) differ n a b

xor_digits-eq_zero : (n a b : ℕ) → a ≤ n → (xor_digits n a b ≡ 0) ↔ (a ≡ b)
xor_digits-eq_zero zero a b h = ground arith
xor_digits-eq_zero (suc n) zero b h = ground arith
xor_digits-eq_zero (suc n) (suc a) b h =
    ground (arith, xor_digits-eq_zero n (suc a / 2) (b / 2), differ-eq_zero (suc a % 2) (b % 2))

pub bit_xor-eq_zero : (a b : ℕ) → (bit_xor a b ≡ 0) ↔ (a ≡ b)
bit_xor-eq_zero a b =
    let same = bit_xor-bitwise a b in
    let exact = xor_digits-eq_zero a a b (omega arith) in
    (λ e. exact.0 (sym same ∙ e), λ e. same ∙ exact.1 e)

abbrev or_digits : ℕ → ℕ → ℕ → ℕ
or_digits n a b = digits (λ b. b) max n a b

max-eq_zero : (x y : ℕ) → (max x y ≡ 0) ↔ ((x ≡ 0) × (y ≡ 0))
max-eq_zero x y = ground arith

or_digits-eq_zero : (n a b : ℕ) → a ≤ n → (or_digits n a b ≡ 0) ↔ ((a ≡ 0) × (b ≡ 0))
or_digits-eq_zero zero a b h = ground arith
or_digits-eq_zero (suc n) zero b h = ground arith
or_digits-eq_zero (suc n) (suc a) b h =
    ground (arith, or_digits-eq_zero n (suc a / 2) (b / 2), max-eq_zero (suc a % 2) (b % 2))

pub bit_or-eq_zero : (a b : ℕ) → (bit_or a b ≡ 0) ↔ ((a ≡ 0) × (b ≡ 0))
bit_or-eq_zero a b =
    let same = bit_or-bitwise a b in
    let exact = or_digits-eq_zero a a b (omega arith) in
    (λ e. exact.0 (sym same ∙ e), λ e. same ∙ exact.1 e)
