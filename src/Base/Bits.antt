-- ===== src/Base/Bits.antt =====
-- Powers of two and `bit_and` at variables: the law of the lowest digit, and the test
-- `a & (a - 1) == 0` for a power of two.
use Prim.Native.Nat.{digits, bit_and-bitwise}
use Prim.Native.Nat.{ℕ, zero, suc, ◌+◌, ◌-◌, ◌*◌, ◌/◌, ◌%◌, ◌^◌, ◌≤◌, min, bit_and}
use mathlib.Core.Path.{◌≡◌, refl}
use mathlib.Core.Logic.{◌⊎◌, inl, inr}
use native.Mathlib.Omega.{arith}
use native.Mathlib.Nat.{pow-suc}

pub pow_double : (k : ℕ) → 2 ^ suc k ≡ 2 * 2 ^ k
pow_double k = rw pow-suc (omega arith)

pub pow_pos : (k : ℕ) → 1 ≤ 2 ^ k
pow_pos zero = omega arith
pow_pos (suc k) = omega (arith, pow_double k, pow_pos k)

pub pow-le : (j k : ℕ) → j ≤ k → 2 ^ j ≤ 2 ^ k
pow-le zero k h = pow_pos k
pow-le (suc j) zero h = absurd (omega arith)
pow-le (suc j) (suc k) h = omega (arith, pow_double j, pow_double k, pow-le j k)

-- The native operation is this recursion over the digits of its first argument.
abbrev common_digits : ℕ → ℕ → ℕ → ℕ
common_digits fuel a b = digits (λ b. zero) min fuel a b

-- More fuel than digits makes no difference.
common_digits_steady : (f g a b : ℕ) → a ≤ f → a ≤ g → common_digits f a b ≡ common_digits g a b
common_digits_steady zero zero _ b hf hg = refl
common_digits_steady zero (suc g) zero b hf hg = refl
common_digits_steady zero (suc g) (suc a) b hf hg = absurd (omega arith)
common_digits_steady (suc f) zero zero b hf hg = refl
common_digits_steady (suc f) zero (suc a) b hf hg = absurd (omega arith)
common_digits_steady (suc f) (suc g) zero b hf hg = refl
common_digits_steady (suc f) (suc g) (suc a) b hf hg =
    omega (arith, common_digits_steady f g (suc a / 2) (b / 2) (omega arith) (omega arith))

bit_and-zero_left : (b : ℕ) → bit_and 0 b ≡ 0
bit_and-zero_left b = bit_and-bitwise 0 b

-- The lowest digits are combined by `min`, the rest by `bit_and`.
pub bit_and-halves : (a b : ℕ) → bit_and a b ≡ 2 * bit_and (a / 2) (b / 2) + min (a % 2) (b % 2)
bit_and-halves zero b = omega (arith, bit_and-zero_left b, bit_and-zero_left (b / 2))
bit_and-halves (suc a) b = omega (
  arith,
  bit_and-bitwise (suc a) b,
  bit_and-bitwise (suc a / 2) (b / 2),
  common_digits_steady a (suc a / 2) (suc a / 2) (b / 2) (omega arith) (omega arith),
)

-- A power of two has no digit in common with its predecessor.
pub bit_and-pow_pred : (k : ℕ) → bit_and (2 ^ k) (2 ^ k - 1) ≡ 0
bit_and-pow_pred zero = refl
bit_and-pow_pred (suc k) = rw (pow_double k, bit_and-halves) (halved k (bit_and-pow_pred k))
  where
    halved :
        (k : ℕ)
        → bit_and (2 ^ k) (2 ^ k - 1) ≡ 0
        → 2 * bit_and (2 * 2 ^ k / 2) ((2 * 2 ^ k - 1) / 2)
            + min (2 * 2 ^ k % 2) ((2 * 2 ^ k - 1) % 2)
          ≡ 0
    halved k h =
        let left : 2 * 2 ^ k / 2 ≡ 2 ^ k = omega arith in
        let right : (2 * 2 ^ k - 1) / 2 ≡ 2 ^ k - 1 = omega (arith, pow_pos k) in
        rw (left, right, h) (omega arith)

-- A positive number has a digit in common with itself.
bit_and-self_pos : (f a : ℕ) → a ≤ f → 1 ≤ a → 1 ≤ bit_and a a
bit_and-self_pos zero a h p = absurd (omega arith)
bit_and-self_pos (suc f) a h p = grind (arith, bit_and-halves a a, bit_and-self_pos f (a / 2))

parity : (a : ℕ) → (a % 2 ≡ 0) ⊎ (a % 2 ≡ 1)
parity a = grind arith

-- An even number passes the test with its half; an odd one above 1 does not pass.
even_passes : (a : ℕ) → 2 ≤ a → a % 2 ≡ 0 → bit_and a (a - 1) ≡ 0 → bit_and (a / 2) (a / 2 - 1) ≡ 0
even_passes a two even e =
    let half : (a - 1) / 2 ≡ a / 2 - 1 = omega arith in
    let step = rw half at (bit_and-halves a (a - 1)) in omega (arith, step, e)

odd_fails : (a : ℕ) → 2 ≤ a → a % 2 ≡ 1 → bit_and a (a - 1) ≡ 0 → ⊥
odd_fails a two odd e =
    let half : (a - 1) / 2 ≡ a / 2 = omega arith in
    let step = rw half at (bit_and-halves a (a - 1)) in
    let own = bit_and-self_pos (a / 2) (a / 2) (omega arith) (omega arith) in
    omega (arith, step, own, e)

-- What passes the test is a power of two.
pub pow_of_bit_and_pred : (f a : ℕ) → a ≤ f → 1 ≤ a → bit_and a (a - 1) ≡ 0 → (k : ℕ) × (a ≡ 2 ^ k)
pow_of_bit_and_pred zero a h p e = absurd (omega arith)
pow_of_bit_and_pred (suc f) a h p e = elim (below_two a p) [
  | inl one ↦ (0, one)
  | inr two ↦ elim (parity a) [
    | inl even ↦
        let (k, q) =
          pow_of_bit_and_pred f (a / 2) (omega arith) (omega arith) (even_passes a two even e) in
        (suc k, omega (arith, pow_double k))
    | inr odd ↦ absurd (odd_fails a two odd e)
  ]
]
  where
    below_two : (a : ℕ) → 1 ≤ a → (a ≡ 1) ⊎ (2 ≤ a)
    below_two a p = grind arith
