-- ===== src/Base/Dict.antt =====
-- Go maps with byte-string keys. The order in which Go iterates is not the order of this list:
-- an operation that iterates takes the order as an argument.
use Prim.Native.Nat.{ℕ, ◌+◌}
use mathlib.Core.Path.{◌≡◌, refl, ap, ◌∙◌}
use mathlib.Core.Bool.{Bool, true, false}
use mathlib.Core.Option.{Option, none, some}
use mathlib.Core.List.{List, [], ◌∷◌, map}
use native.Mathlib.Omega.{arith}
use go_shardblob.Base.Tests.{if◌then◌else◌}
use go_shardblob.Base.ByteString.{Bytes, ◌=?◌, contains, NoRepeat}

abbrev pub Dict {ℓ} : Type ℓ → Type ℓ
Dict V = List (Bytes × V)

module _ {ℓ} {V : Type ℓ} where
  -- `m[k]`
  unfoldable pub lookup : Bytes → Dict V → Option V
  lookup k [] = none
  lookup k ((j, v) ∷ d) = let rest = lookup k d in if j =? k then some v else rest

  -- `delete(m, k)`
  unfoldable pub erase : Bytes → Dict V → Dict V
  erase k [] = []
  erase k ((j, v) ∷ d) = let rest = erase k d in if j =? k then rest else (j, v) ∷ rest

  -- `m[k] = v`
  unfoldable pub insert : Bytes → V → Dict V → Dict V
  insert k v d = (k, v) ∷ erase k d

  pub lookup-nil : (k : Bytes) → lookup k [] ≡ none
  unfolding lookup
  lookup-nil k = refl

  pub lookup-erase :
      (k j : Bytes) (d : Dict V) → lookup j (erase k d) ≡ (if k =? j then none else lookup j d)
  unfolding lookup erase
  lookup-erase k j [] = ground arith
  lookup-erase k j ((i, v) ∷ d) = ground (arith, lookup-erase k j d)

  pub lookup-insert :
      (k j : Bytes) (v : V) (d : Dict V)
      → lookup j (insert k v d) ≡ (if k =? j then some v else lookup j d)
  unfolding lookup insert
  lookup-insert k j v d = ground (arith, lookup-erase k j d)

  -- No key stands twice.
  abbrev pub NodupKeys : Dict V → Type ℓ
  NodupKeys [] = Unit
  NodupKeys ((k, v) ∷ d) = (lookup k d ≡ none) × NodupKeys d

  pub erase-NodupKeys : (k : Bytes) (d : Dict V) → NodupKeys d → NodupKeys (erase k d)
  unfolding erase
  erase-NodupKeys k [] h = tt
  erase-NodupKeys k ((j, v) ∷ d) (fresh, h) =
      ground (arith, erase-NodupKeys k d h, lookup-erase k j d)

  pub insert-NodupKeys : (k : Bytes) (v : V) (d : Dict V) → NodupKeys d → NodupKeys (insert k v d)
  unfolding insert
  insert-NodupKeys k v d h = ground (arith, erase-NodupKeys k d h, lookup-erase k k d)

  unfoldable pub keys : Dict V → List Bytes
  keys = map (λ (k, _). k)

module _ {ℓ} {V : Type ℓ} (w : V → ℕ) where
  -- The weight of one entry, and of all.
  abbrev pub weight : Option V → ℕ
  weight none = 0
  weight (some v) = w v

  unfoldable pub total : Dict V → ℕ
  total [] = 0
  total ((k, v) ∷ d) = w v + total d

  total-erase_of_absent : (k : Bytes) (d : Dict V) → lookup k d ≡ none → total (erase k d) ≡ total d
  unfolding lookup erase total
  total-erase_of_absent k [] h = refl
  total-erase_of_absent k ((j, v) ∷ d) h = ground (arith, total-erase_of_absent k d)

  pub total-erase :
      (k : Bytes) (d : Dict V) → NodupKeys d → total (erase k d) + weight (lookup k d) ≡ total d
  unfolding lookup erase total
  total-erase k [] h = omega arith
  total-erase k ((j, v) ∷ d) (fresh, h) =
      ground (arith, total-erase k d h, total-erase_of_absent k d)

  pub total-insert :
      (k : Bytes) (v : V) (d : Dict V)
      → NodupKeys d
      → total (insert k v d) + weight (lookup k d) ≡ total d + w v
  unfolding insert total
  total-insert k v d h = omega (arith, total-erase k d h)

abbrev pub present {ℓ} : {V : Type ℓ} → Option V → Bool
present none = false
present (some v) = true

module _ {ℓ} {V : Type ℓ} where
  pub contains-keys : (d : Dict V) (k : Bytes) → contains (keys d) k ≡ present (lookup k d)
  unfolding keys lookup contains
  contains-keys [] k = refl
  contains-keys ((j, v) ∷ d) k = ground (arith, contains-keys d k)

  pub keys-NoRepeat : (d : Dict V) → NodupKeys d → NoRepeat (keys d)
  unfolding keys
  keys-NoRepeat [] h = tt
  keys-NoRepeat ((k, v) ∷ d) (fresh, h) = (contains-keys d k ∙ ap present fresh, keys-NoRepeat d h)
