-- ===== src/Base/Snapshot.antt =====
-- The frame that the snapshots of the counts and of the index share: a magic number, a version and
-- a number of entries in front, and a CRC-32 behind (internal/refcount/snapshot.go,
-- internal/index/snapshot.go).
use Prim.Native.Nat.{ℕ, zero, suc, ◌-◌, ◌%◌, ◌^◌, ◌<◌}
use mathlib.Core.Path.{◌≡◌, refl}
use mathlib.Core.Bool.{false, not}
use mathlib.Core.List.{List, [], ◌∷◌, ◌++◌}
use mathlib.Core.Option.{some}
use native.Mathlib.Omega.{arith}
use go_shardblob.Base.Tests.{ltb, ◌==◌, ==_iff, if◌then◌else◌}
use go_shardblob.Base.ByteString.{Bytes}
use go_shardblob.Base.Lists.{
  length, take, drop, take-length_append, drop-length_append, length-append, All,
}
use go_shardblob.Base.Dict.{Dict, lookup, NodupKeys}
use go_shardblob.Base.Result.{
  Result, ok, err, ◌>>=◌, short_snapshot, bad_crc, bad_magic, bad_version,
}
use go_shardblob.Base.Wire.{
  le, of_le, get_uint, checksum, length-le, of_le-le, get_uint-le, checksum-lt,
}

-- What `Save` writes around the entries; the number of them is a uint32.
unfoldable pub frame : ℕ → ℕ → Bytes → Bytes
frame magic count body =
    let buf = le 4 magic ++ (le 2 1 ++ (le 4 (count % 2 ^ 32) ++ body)) in
    buf ++ le 4 (checksum buf)

-- What `Load` checks before the entries: the number of entries, and their bytes.
unfoldable pub open_frame : ℕ → Bytes → Result (ℕ × Bytes)
open_frame magic raw =
    let n = length raw - 4 in
    if ltb (length raw) 14
    then err short_snapshot
    else if not (checksum (take n raw) == of_le (drop n raw))
    then err bad_crc
    else do
      (found, r1) ← get_uint 4 (take n raw)
      if not (found == magic) then err bad_magic else do
        (version, r2) ← get_uint 2 r1
        if not (version == 1) then err bad_version else get_uint 4 r2

pub open_frame-frame :
    (magic count : ℕ) (body : Bytes)
    → magic < 2 ^ 32
    → count < 2 ^ 32
    → open_frame magic (frame magic count body) ≡ ok (count, body)
unfolding open_frame frame
open_frame-frame magic count body small few =
    let r2 = le 4 (count % 2 ^ 32) ++ body in
    let r1 = le 2 1 ++ r2 in
    let buf = le 4 magic ++ r1 in
    let tail = le 4 (checksum buf) in
    let long = length-append {0} buf tail in
    let four = length-le 4 (checksum buf) in
    let at : length (buf ++ tail) - 4 ≡ length buf = omega (arith, long, four) in
    let enough : ltb (length (buf ++ tail)) 14 ≡ false = ground (
      arith,
      long,
      four,
      length-append {0} (le 4 magic) r1,
      length-append {0} (le 2 1) r2,
      length-append {0} (le 4 (count % 2 ^ 32)) body,
      length-le 4 magic,
      length-le 2 1,
      length-le 4 (count % 2 ^ 32),
    ) in
    let same : count % 2 ^ 32 ≡ count = omega arith in
    rw (
      enough,
      at,
      take-length_append buf tail,
      drop-length_append buf tail,
      of_le-le 4 (checksum buf) (checksum-lt buf),
      (==_iff (checksum buf) (checksum buf)).1 refl,
      get_uint-le 4 magic r1 (omega arith),
      (==_iff magic magic).1 refl,
      get_uint-le 2 1 r2 (omega arith),
      same,
      get_uint-le 4 count body (omega arith),
    )

module _ {ℓ} {A : Type ℓ} (put : A → Bytes) where
  unfoldable pub put_each : List A → Bytes
  put_each [] = []
  put_each (x ∷ xs) = put x ++ put_each xs

module _ {ℓ} {A : Type ℓ} (get : Bytes → Result (A × Bytes)) where
  -- The loop of `Load` over the entries.
  unfoldable pub get_each : ℕ → Bytes → Result (List A)
  get_each zero r = ok []
  get_each (suc n) r = do (x, r1) ← get r; xs ← get_each n r1; ok (x ∷ xs)

module _ {ℓ} {A : Type ℓ} (put : A → Bytes) (get : Bytes → Result (A × Bytes)) where
  -- Entries that are read back one by one are read back all.
  pub get_each-put_each :
      (xs : List A)
      → All (λ x. (rest : Bytes) → get (put x ++ rest) ≡ ok (x, rest)) xs
      → get_each get (length xs) (put_each put xs) ≡ ok xs
  unfolding put_each get_each
  get_each-put_each [] h = refl
  get_each-put_each (x ∷ xs) (here, h) = rw (here (put_each put xs), get_each-put_each xs h)

-- An iteration over a Go map visits every entry exactly once, in any order.
pub record IsIteration {ℓ} {V : Type ℓ} (d visited : Dict V) : Type ℓ where
  pub same : (k : Bytes) → lookup k visited ≡ lookup k d
  pub once : NodupKeys visited

module _ {ℓ κ} {V : Type ℓ} (P : Bytes → V → Type κ) where
  -- What holds of all that is looked up holds of all entries.
  pub All-lookup :
      (d : Dict V)
      → NodupKeys d
      → ((k : Bytes) (v : V) → lookup k d ≡ some v → P k v)
      → All (λ (k, v). P k v) d
  unfolding lookup
  All-lookup [] h p = tt
  All-lookup ((k, v) ∷ d) (fresh, h) p =
      (p k v (ground arith), All-lookup d h (λ j w e. p j w (ground arith)))
