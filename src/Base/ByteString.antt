-- ===== src/Base/ByteString.antt =====
-- Byte strings as lists of numbers, with their decidable equality.
use Prim.Native.Nat.{ℕ}
use mathlib.Core.Path.{◌≡◌, refl, ap₂}
use mathlib.Core.Logic.{ite, dite}
use mathlib.Core.Bool.{Bool, true, false}
use mathlib.Core.List.{List, [], ◌∷◌}
use native.Mathlib.Decide.{ℕ_discrete}
use native.Mathlib.Omega.{arith}
use go_shardblob.Base.Tests.{if◌then◌else◌}

abbrev pub Bytes : Type 0
Bytes = List ℕ

unfoldable pub bytes_discrete : Discrete Bytes
unfolding ℕ_discrete
bytes_discrete [] [] = yes refl
bytes_discrete [] (y ∷ ys) = no (λ e. cc)
bytes_discrete (x ∷ xs) [] = no (λ e. cc)
bytes_discrete (x ∷ xs) (y ∷ ys) =
    let rest = bytes_discrete xs ys in
    dite (ℕ_discrete x y) (λ p. dite rest (λ q. yes (ap₂ ◌∷◌ p q)) (λ q. no (λ e. q (cc))))
      (λ p. no (λ e. p (cc)))

-- Shut in proofs, so that a split on `a =? b` yields the equation or its negation.
infix 50 ◌=?◌
abbrev pub ◌=?◌ : Bytes → Bytes → Bool
a =? b = ite (bytes_discrete a b) true false

pub =?-refl : (a : Bytes) → (a =? a) ≡ true
=?-refl a = ground arith

pub =?-eq : (a b : Bytes) → (a =? b) ≡ true → a ≡ b
=?-eq a b h = ground arith

-- Membership in a list of byte strings, and lists without repetition.
unfoldable pub contains : List Bytes → Bytes → Bool
contains [] k = false
contains (x ∷ xs) k = let rest = contains xs k in if x =? k then true else rest

abbrev pub NoRepeat : List Bytes → Type 0
NoRepeat [] = Unit
NoRepeat (x ∷ xs) = (contains xs x ≡ false) × NoRepeat xs

-- The order in which the runtime iterates over a map: any rearrangement of its keys.
pub record IsOrder (order : List Bytes → List Bytes) : Type 0 where
  pub contains-order : (ks : List Bytes) (k : Bytes) → contains (order ks) k ≡ contains ks k
  pub order-NoRepeat : (ks : List Bytes) → NoRepeat ks → NoRepeat (order ks)

-- The order of insertion is one such order.
pub identity-IsOrder : IsOrder (λ ks. ks)
identity-IsOrder = record { contains-order = λ ks k. refl; order-NoRepeat = λ ks h. h }
