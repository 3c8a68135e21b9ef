-- ===== src/Manifest.antt =====
-- internal/manifest/types.go and validate.go: what an object is made of, and when that is coherent.
pub mod Codec
use go_shardblob.Base.{
  Bytes, ℕ, zero, suc, ◌+◌, ◌-◌, ◌*◌, ◌/◌, ◌%◌, ◌^◌, bit_and, bit_or, Bool, true, false, not, ◌&&◌,
  ◌||◌, Option, none, some, List, [], ◌∷◌, map, length, ltb, leb, ◌==◌, if◌then◌else◌,
}
use go_shardblob.Base.Result.{
  Result, ok, err, ◌>>=◌, ◌>>◌, bad_version, empty_algo, long_algo, too_many_chunks, zero_object_id,
  empty_chunk, zero_chunk_id, bad_offset, bad_size, long_chunk, bad_total,
}
use go_shardblob.Hashx.{HashId, is_zero}

abbrev pub version1 : ℕ
version1 = 1

abbrev pub flag_cdc : ℕ
flag_cdc = 1

abbrev pub max_chunks : ℕ
max_chunks = 2 ^ 20

-- `Entry`: the size is a uint32, the offset a uint64.
pub record Entry : Type 0 where
  pub id : HashId
  pub size : ℕ
  pub offset : ℕ

-- `Manifest`: the version and the flags are uint16, the chunk size a uint32, the total a uint64;
-- the name of the algorithm is its bytes.
pub record Manifest : Type 0 where
  pub version : ℕ
  pub flags : ℕ
  pub algo : Bytes
  pub chunk_size : ℕ
  pub total_size : ℕ
  pub object : HashId
  pub chunks : List Entry

-- `CDC`
unfoldable pub is_cdc : Manifest → Bool
is_cdc m = not (bit_and m.flags flag_cdc == 0)

-- `ChunkCount`
unfoldable pub chunk_count : Manifest → ℕ
chunk_count m = length m.chunks

-- `ChunkIDs`
unfoldable pub chunk_ids : Manifest → List HashId
chunk_ids m = map (λ (e : Entry). e.id) m.chunks

last_of : List Entry → ℕ
last_of [] = 0
last_of (e ∷ []) = e.size
last_of (e ∷ f ∷ es) = last_of (f ∷ es)

-- `LastSize`
unfoldable pub last_size : Manifest → ℕ
unfolding last_of
last_size m = last_of m.chunks

-- `setCDC`; `a &^ b` is `a - (a & b)`.
unfoldable pub set_cdc : Bool → Manifest → Manifest
set_cdc true m = record m { flags = bit_or m.flags flag_cdc }
set_cdc false m = record m { flags = m.flags - bit_and m.flags flag_cdc }

-- The loop of `New` that sums the sizes, in uint64.
unfoldable pub sum_sizes : ℕ → List Entry → ℕ
sum_sizes total [] = total
sum_sizes total (e ∷ es) = sum_sizes ((total + e.size) % 2 ^ 64) es

-- `New`
unfoldable pub new_manifest : Bytes → ℕ → Bool → HashId → List Entry → Manifest
unfolding set_cdc sum_sizes
new_manifest algo chunk_size cdc oid entries =
    let m : Manifest = record {
      version = version1;
      flags = 0;
      algo = algo;
      chunk_size = chunk_size;
      total_size = 0;
      object = oid;
      chunks = entries;
    } in
    let m' = set_cdc cdc m in record m' { total_size = sum_sizes m'.total_size entries }

-- `strings.TrimSpace(s) == ""`: nothing but white space, in the UTF-8 forms of Unicode's White_Space.
unfoldable pub is_blank : Bytes → Bool
is_blank [] = true
is_blank (a ∷ []) = (leb 9 a && leb a 13) || a == 32
is_blank (a ∷ b ∷ []) =
    let rest = is_blank (b ∷ []) in
    if (leb 9 a && leb a 13) || a == 32 then rest else a == 0xC2 && (b == 0x85 || b == 0xA0)
is_blank (a ∷ b ∷ c ∷ bs) =
    let rest1 = is_blank (b ∷ c ∷ bs) in
    let rest2 = is_blank (c ∷ bs) in
    let rest3 = is_blank bs in
    if (leb 9 a && leb a 13) || a == 32
    then rest1
    else if a == 0xC2 && (b == 0x85 || b == 0xA0)
    then rest2
    else if (a == 0xE1 && b == 0x9A && c == 0x80)
        || (a == 0xE2
            && b == 0x80
            && ((leb 0x80 c && leb c 0x8A) || c == 0xA8 || c == 0xA9 || c == 0xAF))
        || (a == 0xE2 && b == 0x81 && c == 0x9F)
        || (a == 0xE3 && b == 0x80 && c == 0x80)
    then rest3
    else false

-- The checks on one entry: `last` says whether it is the last.
unfoldable pub check_entry : ℕ → Bool → Bool → ℕ → Entry → Result (Unit {0})
check_entry chunk_size cdc last expect e =
    if e.size == 0
    then err empty_chunk
    else if is_zero e.id
    then err zero_chunk_id
    else if not (e.offset == expect)
    then err bad_offset
    else if ltb 0 chunk_size && not cdc && not last && not (e.size == chunk_size)
    then err bad_size
    else if ltb 0 chunk_size && not cdc && ltb chunk_size e.size
    then err long_chunk
    else ok tt

abbrev is_last : List Entry → Bool
is_last [] = true
is_last (e ∷ es) = false

-- The loop of `Validate`, which returns the sum of the sizes. The code keeps the sum and the
-- expected offset in two variables.
unfoldable pub check_entries : ℕ → Bool → ℕ → ℕ → List Entry → Result ℕ
check_entries chunk_size cdc sum expect [] = ok sum
check_entries chunk_size cdc sum expect (e ∷ es) = do
  check_entry chunk_size cdc (is_last es) expect e
  check_entries chunk_size cdc ((sum + e.size) % 2 ^ 64) ((expect + e.size) % 2 ^ 64) es

-- The checks of `Validate` before its loop, on the version as it has been set.
unfoldable pub check_header : Manifest → Result (Unit {0})
check_header m =
    if not (m.version == version1)
    then err bad_version
    else if is_blank m.algo
    then err empty_algo
    else if ltb 31 (length m.algo)
    then err long_algo
    else if ltb max_chunks (length m.chunks)
    then err too_many_chunks
    else if is_zero m.object
    then err zero_object_id
    else ok tt

-- `if m.Version == 0 { m.Version = Version1 }`
unfoldable pub set_version : Manifest → Manifest
set_version m = record m { version = if m.version == 0 then version1 else m.version }

unfoldable pub check_all : Manifest → Result Manifest
check_all m = do
  check_header m
  sum ← check_entries m.chunk_size (is_cdc m) 0 0 m.chunks
  if not (sum == m.total_size) then err bad_total else ok m

-- `Validate`; it sets the version, so the manifest is part of the answer.
unfoldable pub validate : Manifest → Result Manifest
unfolding set_version check_all
validate m = check_all (set_version m)
