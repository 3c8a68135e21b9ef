-- ===== src/Manifest/Codec.antt =====
-- internal/manifest/codec.go: the binary form of a manifest.
pub mod RoundTrip
use go_shardblob.Base.{
  Bytes, ℕ, zero, suc, ◌+◌, ◌-◌, ◌*◌, ◌%◌, ◌^◌, Bool, true, false, not, List, [], ◌∷◌, ◌++◌, length,
  take, drop, replicate, ltb, leb, ◌==◌, if◌then◌else◌,
}
use go_shardblob.Base.Wire.{le, of_le, get_bytes, get_uint, checksum}
use go_shardblob.Base.Result.{
  Result, ok, err, ◌>>=◌, ◌>>◌, truncated_manifest, bad_crc, bad_magic, too_many_chunks,
  entry_mismatch,
}
use go_shardblob.Manifest.{Manifest, Entry, max_chunks, validate}

abbrev pub magic : ℕ
magic = 0x424C4253

abbrev pub header_size : ℕ
header_size = 88

abbrev pub entry_size : ℕ
entry_size = 44

abbrev pub crc_size : ℕ
crc_size = 4

abbrev pub algo_field : ℕ
algo_field = 32

-- `copy(algo[:], m.Algo)` into an array of zeros
unfoldable pub pad_algo : Bytes → Bytes
pad_algo a = take algo_field (a ++ replicate algo_field 0)

unfoldable pub put_entry : Entry → Bytes → Bytes
put_entry e rest = e.id ++ (le 4 e.size ++ (le 8 e.offset ++ rest))

unfoldable pub put_entries : List Entry → Bytes
put_entries [] = []
put_entries (e ∷ es) = put_entry e (put_entries es)

-- What `Encode` writes before the checksum.
unfoldable pub put_body : Manifest → Bytes
put_body m =
    le 4 magic
    ++ (le 2 m.version
        ++ (le 2 m.flags
            ++ (pad_algo m.algo
                ++ (le 4 m.chunk_size
                    ++ (le 4 (length m.chunks % 2 ^ 32)
                        ++ (le 8 m.total_size ++ (m.object ++ put_entries m.chunks)))))))

unfoldable pub seal : Bytes → Bytes
seal body = body ++ le 4 (checksum body)

-- `Encode`
unfoldable pub encode : Manifest → Result Bytes
encode m = do m' ← validate m; ok (seal (put_body m'))

-- `cstring`: up to the first zero byte.
unfoldable pub cstring : Bytes → Bytes
cstring [] = []
cstring (b ∷ bs) = let rest = cstring bs in if b == 0 then [] else b ∷ rest

-- The loop of `Decode` over the entries.
unfoldable pub get_entries : ℕ → Bytes → Result (List Entry)
get_entries zero r = ok []
get_entries (suc n) r = do
  (id, r1) ← get_bytes 32 r
  (size, r2) ← get_uint 4 r1
  (offset, r3) ← get_uint 8 r2
  es ← get_entries n r3
  ok (record { id = id; size = size; offset = offset } ∷ es)

-- `Decode` after the checksum.
unfoldable pub get_body : Bytes → Result Manifest
get_body body = do
  (found, r1) ← get_uint 4 body
  if not (found == magic) then err bad_magic else do
    (version, r2) ← get_uint 2 r1
    (flags, r3) ← get_uint 2 r2
    (field, r4) ← get_bytes algo_field r3
    (chunk_size, r5) ← get_uint 4 r4
    (count, r6) ← get_uint 4 r5
    if ltb max_chunks count then err too_many_chunks else do
      (total, r7) ← get_uint 8 r6
      (oid, r8) ← get_bytes 32 r7
      if not (count * entry_size == length r8) then err entry_mismatch else do
        entries ← get_entries count r8
        validate (record {
          version = version;
          flags = flags;
          algo = cstring field;
          chunk_size = chunk_size;
          total_size = total;
          object = oid;
          chunks = entries;
        })

-- `Decode`
unfoldable pub decode : Bytes → Result Manifest
decode raw =
    let n = length raw - crc_size in
    if ltb (length raw) (header_size + crc_size)
    then err truncated_manifest
    else if not (of_le (drop n raw) == checksum (take n raw))
    then err bad_crc
    else get_body (take n raw)
