-- ===== src/Base/Wire.antt =====
-- encoding/binary in little-endian order, reading from a byte slice, and hash/crc32 (IEEE).
use Prim.Native.Nat.{ℕ, zero, suc, ◌+◌, ◌*◌, ◌/◌, ◌%◌, ◌^◌, ◌<◌, bit_xor}
use mathlib.Core.Path.{◌≡◌, refl, ap}
use mathlib.Core.List.{[], ◌∷◌, ◌++◌}
use native.Mathlib.Omega.{arith}
use native.Mathlib.Nat.{pow-suc}
use go_shardblob.Base.Tests.{leb, ◌==◌, if◌then◌else◌}
use go_shardblob.Base.ByteString.{Bytes}
use go_shardblob.Base.Lists.{
  length, take, drop, take-length_append, drop-length_append, length-append,
}
use go_shardblob.Base.Result.{Result, ok, err, ◌>>=◌, unexpected_eof}

-- `n` bytes, the lowest first.
unfoldable pub le : ℕ → ℕ → Bytes
le zero v = []
le (suc n) v = (v % 256) ∷ le n (v / 256)

unfoldable pub of_le : Bytes → ℕ
of_le [] = 0
of_le (b ∷ bs) = b + 256 * of_le bs

pub length-le : (n v : ℕ) → length (le n v) ≡ n
unfolding le
length-le zero v = refl
length-le (suc n) v = ap suc (length-le n (v / 256))

pub of_le-le : (n v : ℕ) → v < 256 ^ n → of_le (le n v) ≡ v
unfolding le of_le
of_le-le zero v h = omega arith
of_le-le (suc n) v h = omega (arith, of_le-le n (v / 256) (below n v h))
  where
    below : (n v : ℕ) → v < 256 ^ suc n → v / 256 < 256 ^ n
    below n v h = omega (arith, rw pow-suc at h)

-- `io.ReadFull` of `n` bytes from a `bytes.Reader`: the bytes, and what is left.
unfoldable pub get_bytes : ℕ → Bytes → Result (Bytes × Bytes)
get_bytes n r = if leb n (length r) then ok (take n r, drop n r) else err unexpected_eof

-- `binary.Read` of an unsigned integer of `n` bytes.
unfoldable pub get_uint : ℕ → Bytes → Result (ℕ × Bytes)
get_uint n r = get_bytes n r >>= λ (p, rest). ok (of_le p, rest)

pub get_bytes-append : (n : ℕ) (p q : Bytes) → length p ≡ n → get_bytes n (p ++ q) ≡ ok (p, q)
unfolding get_bytes
get_bytes-append n p q e =
    rw (← e, take-length_append p q, drop-length_append p q) (ground (arith, length-append {0} p q))

pub get_uint-le : (n v : ℕ) (q : Bytes) → v < 256 ^ n → get_uint n (le n v ++ q) ≡ ok (v, q)
unfolding get_uint
get_uint-le n v q h = rw (get_bytes-append n (le n v) q (length-le n v), of_le-le n v h)

-- One bit of the reversed polynomial division.
crc_bit : ℕ → ℕ
crc_bit c = if c % 2 == 1 then bit_xor (c / 2) 0xEDB88320 else c / 2

crc_byte : ℕ → ℕ → ℕ
unfolding crc_bit
crc_byte c b =
    let x = bit_xor c b in
    crc_bit (crc_bit (crc_bit (crc_bit (crc_bit (crc_bit (crc_bit (crc_bit x)))))))

crc_from : ℕ → Bytes → ℕ
unfolding crc_byte
crc_from c [] = c
crc_from c (b ∷ bs) = crc_from (crc_byte c b) bs

-- `crc32.ChecksumIEEE`, a uint32
unfoldable pub checksum : Bytes → ℕ
unfolding crc_from
checksum bs = bit_xor (crc_from 0xffff_ffff bs) 0xffff_ffff % 2 ^ 32

pub checksum-lt : (bs : Bytes) → checksum bs < 256 ^ 4
unfolding checksum
checksum-lt bs = omega arith
