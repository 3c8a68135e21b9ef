-- ===== src/Base/BitZero.antt =====
-- When `a ^ b` and `a | b` are zero.
use Prim.Native.Nat.{digits, differ, bit_xor-bitwise, bit_or-bitwise}
use Prim.Native.Nat.{ℕ, zero, suc, ◌/◌, ◌%◌, ◌≤◌, max, bit_or, bit_xor}
use mathlib.Core.Path.{◌≡◌, refl, sym}
use mathlib.Core.Logic.{◌↔◌, ◌⊎◌, inl, inr}
use native.Mathlib.Omega.{arith}

bit_cases : (a : ℕ) → (a % 2 ≡ 0) ⊎ (a % 2 ≡ 1)
bit_cases a = grind arith

differ_zero : (a b : ℕ) → (differ (a % 2) (b % 2) ≡ 0) ↔ (a % 2 ≡ b % 2)
differ_zero a b = elim (bit_cases a) [
  | inl e ↦ elim (bit_cases b) [
    | inl f ↦ rw (e, f) (λ h. refl, λ h. refl)
    | inr f ↦ rw (e, f) (λ h. absurd (omega arith), λ h. absurd (omega arith))
  ]
  | inr e ↦ elim (bit_cases b) [
    | inl f ↦ rw (e, f) (λ h. absurd (omega arith), λ h. absurd (omega arith))
    | inr f ↦ rw (e, f) (λ h. refl, λ h. refl)
  ]
]

xor_digits : (f a b : ℕ) → a ≤ f → (digits (λ b. b) differ f a b ≡ 0) ↔ (a ≡ b)
xor_digits zero zero b h = (λ e. sym e, λ e. sym e)
xor_digits zero (suc a) b h = absurd (omega arith)
xor_digits (suc f) zero b h = (λ e. sym e, λ e. sym e)
xor_digits (suc f) (suc a) b h =
    let (to, from) = xor_digits f (suc a / 2) (b / 2) (omega arith) in
    let (same, equal) = differ_zero (suc a) b in
    (
      λ e. omega (arith, to (omega (arith, e)), same (omega (arith, e))),
      λ e. omega (arith, from (omega (arith, e)), equal (omega (arith, e))),
    )

-- Two numbers differ in a digit exactly when they are not the same.
pub bit_xor_zero : (a b : ℕ) → (bit_xor a b ≡ 0) ↔ (a ≡ b)
bit_xor_zero a b = rw (bit_xor-bitwise a b) (xor_digits a a b (omega arith))

or_digits : (f a b : ℕ) → a ≤ f → (digits (λ b. b) max f a b ≡ 0) ↔ ((a ≡ 0) × (b ≡ 0))
or_digits zero zero b h = (λ e. (refl, e), λ (_, e). e)
or_digits zero (suc a) b h = absurd (omega arith)
or_digits (suc f) zero b h = (λ e. (refl, e), λ (_, e). e)
or_digits (suc f) (suc a) b h =
    let (to, from) = or_digits f (suc a / 2) (b / 2) (omega arith) in
    (
      λ e. let (p, q) = to (omega (arith, e)) in absurd (omega (arith, p, q, e)),
      λ (e, _). absurd (omega (arith, e)),
    )

-- The digits of two numbers together are none exactly when both are zero.
pub bit_or_zero : (a b : ℕ) → (bit_or a b ≡ 0) ↔ ((a ≡ 0) × (b ≡ 0))
bit_or_zero a b = rw (bit_or-bitwise a b) (or_digits a a b (omega arith))
