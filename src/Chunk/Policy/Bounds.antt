-- ===== src/Chunk/Policy/Bounds.antt =====
-- What `Normalize` guarantees of every policy, and that it is idempotent.
use go_shardblob.Base.{
  ℕ, zero, suc, ◌-◌, ◌*◌, ◌/◌, ◌%◌, ◌^◌, ◌≤◌, ◌<◌, ◌≡◌, refl, sym, arith, bit_and, Bool, true,
  false, ltb, leb, ◌==◌, ◌||◌, if◌then◌else◌, inl, inr, Bool-cases, ==_iff, false≢true, ◌∙◌, dec_lt,
}
use go_shardblob.Base.Bits.{pow_double, pow_pos, pow-le, bit_and-pow_pred, pow_of_bit_and_pred}
use mathlib.Core.Path.{subst}
use go_shardblob.Base.Result.{ok, err, bad_policy}
use go_shardblob.Chunk.Policy.{
  Policy, min_avg_size, max_avg_size, default_avg_size, bit_len, trailing_zeros, clamp_avg,
  nearest_power, normal_avg, normal_min, normal_max, normalize, valid, mask,
}

-- One of the powers of two up to the largest average, 2 ^ 22.
abbrev pub IsSize : ℕ → Type 0
IsSize a = (k : ℕ) × (k ≤ 22) × (a ≡ 2 ^ k)

-- `bits.Len` brackets its argument between two powers of two.
pub bit_len-brackets :
    (width n : ℕ)
    → 1 ≤ n
    → n < 2 ^ width
    → (k : ℕ) × (bit_len width n ≡ suc k) × (2 ^ k ≤ n) × (n < 2 ^ suc k)
unfolding bit_len
bit_len-brackets zero n p h = absurd (omega arith)
bit_len-brackets (suc width) n p h = elim (Bool-cases (n / 2 == 0)) [
  | inl one ↦
      let e : n ≡ 1 = ground arith in
      (0, unfold bit_len in ground (arith, bit_len-half width n e), omega arith, omega arith)
  | inr more ↦
      let (k, e, lo, hi) =
        bit_len-brackets width (n / 2) (ground arith) (omega (arith, pow_double width)) in
      (suc k, ground arith, omega (arith, pow_double k), omega (arith, pow_double (suc k)))
]
  where
    bit_len-half : (width n : ℕ) → n ≡ 1 → bit_len width (n / 2) ≡ 0
    bit_len-half zero n e = refl
    bit_len-half (suc width) n e = ground arith

-- Below 2 ^ 22 only powers with a smaller exponent fit.
exponent-lt : (k m : ℕ) → 2 ^ k < 2 ^ m → k < m
exponent-lt k m h = elim (dec_lt k m) [
  | yes p ↦ p
  | no p ↦ absurd (omega (arith, pow-le m k (omega arith)))
]

largest : 2 ^ 22 ≡ max_avg_size
largest = refl

pub size-bounds : (a : ℕ) → IsSize a → (1 ≤ a) × (a ≤ max_avg_size)
size-bounds a (k, h, e) = rw e (pow_pos k, omega (arith, pow-le k 22 h))

clamp_avg-size : (a : ℕ) → IsSize a → clamp_avg a ≡ a
unfolding clamp_avg
clamp_avg-size a s = ground (arith, size-bounds a s)

nearest_power-IsSize : (a : ℕ) → 1 ≤ a → a ≤ max_avg_size → IsSize (nearest_power a)
unfolding nearest_power
nearest_power-IsSize a p h = elim (Bool-cases (bit_and a (a - 1) == 0)) [
  | inl power ↦
      let (k, e) = pow_of_bit_and_pred a a (omega arith) p ((==_iff _ _).0 power) in
      rw power (k, exponent-le k (omega (arith, e)), e)
  | inr other ↦
      let (k, len, lo, hi) = bit_len-brackets 64 a p (omega arith) in
      let below : k < 22 = exponent-lt k 22 (strict a k h lo other) in
      rw (other, len) (between k (leb (a - 2 ^ suc k / 2) (2 ^ suc k - a)) below)
]
  where
    exponent-le : (k : ℕ) → 2 ^ k ≤ 2 ^ 22 → k ≤ 22
    exponent-le k h = omega (arith, exponent-lt k 23 (omega (arith, pow_double 22)))

    -- A size that is no power of two is below the largest.
    strict :
        (a k : ℕ) → a ≤ max_avg_size → 2 ^ k ≤ a → (bit_and a (a - 1) == 0) ≡ false → 2 ^ k < 2 ^ 22
    strict a k h lo other = elim (dec_lt a max_avg_size) [
      | yes p ↦ omega (arith)
      | no p ↦
          let top : a ≡ 2 ^ 22 = omega arith in
          let power : (bit_and a (a - 1) == 0) ≡ true = rw top in
          absurd (false≢true (sym other ∙ power))
    ]

    between :
        (k : ℕ) (down : Bool)
        → k < 22
        → IsSize (clamp_avg (if down then 2 ^ suc k / 2 else 2 ^ suc k))
    between k true h =
        let e : 2 ^ suc k / 2 ≡ 2 ^ k = omega (arith, pow_double k) in
        rw e (
          subst IsSize (sym (clamp_avg-size (2 ^ k) (k, omega arith, refl))) (k, omega arith, refl))
    between k false h =
        subst IsSize (sym (clamp_avg-size (2 ^ suc k) (suc k, omega arith, refl)))
          (suc k, omega arith, refl)

normal_avg-IsSize : (a : ℕ) → IsSize (normal_avg a)
unfolding normal_avg
normal_avg-IsSize a =
    (let a' = clamp_avg (if a == 0 then default_avg_size else a) in
      nearest_power-IsSize a' (unfold clamp_avg in ground arith) (unfold clamp_avg in ground arith))

nearest_power-size : (a : ℕ) → IsSize a → nearest_power a ≡ a
unfolding nearest_power
nearest_power-size a (k, h, e) =
    let power : (bit_and a (a - 1) == 0) ≡ true = rw e ((==_iff _ _).1 (bit_and-pow_pred k)) in
    rw power

-- A power of two in range is its own average.
normal_avg-size : (a : ℕ) → IsSize a → normal_avg a ≡ a
unfolding normal_avg
normal_avg-size a s =
    let given : (if a == 0 then default_avg_size else a) ≡ a = ground (arith, size-bounds a s) in
    rw (given, clamp_avg-size a s) (nearest_power-size a s)

normal_min-bounds : (a m : ℕ) → 1 ≤ a → (1 ≤ normal_min a m) × (normal_min a m ≤ a)
unfolding normal_min
normal_min-bounds a m h = ground arith

normal_max-bounds :
    (a m : ℕ) → a ≤ max_avg_size → (a ≤ normal_max a m) × (normal_max a m ≤ 4 * max_avg_size)
unfolding normal_max
normal_max-bounds a m h = ground arith

normal_min-fixes : (a m : ℕ) → 1 ≤ m → m ≤ a → normal_min a m ≡ m
unfolding normal_min
normal_min-fixes a m h k = ground arith

normal_max-fixes : (a m : ℕ) → 1 ≤ a → a ≤ m → m ≤ 4 * max_avg_size → normal_max a m ≡ m
unfolding normal_max
normal_max-fixes a m p h k = ground arith

-- What every normalised policy satisfies: the average is a power of two up to 2 ^ 22, and
-- 1 ≤ min ≤ avg ≤ max ≤ 2 ^ 24.
pub record IsNormal (p : Policy) : Type 0 where
  pub avg_size : IsSize p.avg
  pub min_pos : 1 ≤ p.min
  pub min-le-avg : p.min ≤ p.avg
  pub avg-le-max : p.avg ≤ p.max
  pub max-le : p.max ≤ 4 * max_avg_size

-- `Normalize` gives, for every policy, an average that is a power of two of at most 4 MiB, a minimum
-- from 1 to the average, and a maximum from the average to 16 MiB.
pub normalize-IsNormal : (p : Policy) → IsNormal (normalize p)
unfolding normalize
normalize-IsNormal p =
    let a = normal_avg p.avg in
    let (lo, hi) = size-bounds a (normal_avg-IsSize p.avg) in
    record {
      avg_size = normal_avg-IsSize p.avg;
      min_pos = (normal_min-bounds a p.min lo).0;
      min-le-avg = (normal_min-bounds a p.min lo).1;
      avg-le-max = (normal_max-bounds a p.max hi).0;
      max-le = (normal_max-bounds a p.max hi).1;
    }

-- A policy in range is left as it is.
pub normalize-fixes : (p : Policy) → IsNormal p → normalize p ≡ p
unfolding normalize
normalize-fixes p n =
    let (lo, hi) = size-bounds p.avg n.avg_size in
    cc (
      normal_avg-size p.avg n.avg_size,
      normal_min-fixes p.avg p.min n.min_pos n.min-le-avg,
      normal_max-fixes p.avg p.max lo n.avg-le-max n.max-le,
    )

-- Normalising twice is normalising once.
-- `Normalize` is idempotent.
pub normalize-normalize : (p : Policy) → normalize (normalize p) ≡ normalize p
normalize-normalize p = normalize-fixes (normalize p) (normalize-IsNormal p)

-- `Valid` refuses no policy.
pub valid_always : (p : Policy) → valid p ≡ ok tt
unfolding valid
valid_always p =
    let n = normalize-IsNormal p in
    in_range (normalize p) (size-bounds (normalize p).avg n.avg_size) n.min_pos n.min-le-avg
      n.avg-le-max
  where
    in_range :
        (n : Policy)
        → (1 ≤ n.avg) × (n.avg ≤ max_avg_size)
        → 1 ≤ n.min
        → n.min ≤ n.avg
        → n.avg ≤ n.max
        → (if ltb n.avg min_avg_size || ltb max_avg_size n.avg
            then err bad_policy
            else if ltb n.min 1 || ltb n.max n.min
            then err bad_policy
            else ok tt)
          ≡ ok (tt {0})
    in_range n h h1 h2 h3 = ground arith

-- The trailing zeros of a power of two are its exponent.
trailing_zeros-pow : (width k : ℕ) → k < width → trailing_zeros width (2 ^ k) ≡ k
unfolding trailing_zeros
trailing_zeros-pow zero k h = absurd (omega arith)
trailing_zeros-pow (suc width) zero h = refl
trailing_zeros-pow (suc width) (suc k) h =
    let half : 2 ^ suc k / 2 ≡ 2 ^ k = omega (arith, pow_double k) in
    let even : 2 ^ suc k % 2 ≡ 0 = omega (arith, pow_double k) in
    rw (even, half, trailing_zeros-pow width k (omega arith))

-- The mask of a normal policy is the average less one, but at the average 1, whose mask would be
-- empty, it has 16 bits.
pub mask-normal :
    (p : Policy) → IsNormal p → mask p ≡ (if p.avg == 1 then 2 ^ 16 - 1 else p.avg - 1)
unfolding mask
mask-normal p n = rw (normalize-fixes p n, mask) (by_exponent p.avg n.avg_size)
  where
    by_exponent :
        (a : ℕ)
        → IsSize a
        → 2 ^ (if trailing_zeros 64 a == 0 then 16 else trailing_zeros 64 a) - 1
          ≡ (if a == 1 then 2 ^ 16 - 1 else a - 1)
    by_exponent a (zero, h, e) = rw (e, trailing_zeros-pow 64 0 (omega arith))
    by_exponent a (suc k, h, e) =
        rw (e, trailing_zeros-pow 64 (suc k) (omega arith))
          (ground (arith, pow_double k, pow_pos k))
