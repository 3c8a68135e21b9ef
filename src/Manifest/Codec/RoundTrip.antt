-- ===== src/Manifest/Codec/RoundTrip.antt =====
-- What is encoded is decoded again, and only what `Validate` accepts is ever decoded.
use go_shardblob.Base.{
  Bytes, ℕ, zero, suc, ◌+◌, ◌-◌, ◌*◌, ◌%◌, ◌^◌, ◌≤◌, ◌<◌, ◌≡◌, ◌≢◌, ◌↔◌, refl, sym, ap, ◌∙◌, arith,
  true, false, List, [], ◌∷◌, ◌++◌, length, length-append, length-take, length-replicate, take,
  take-length_append, drop-length_append, replicate, All, ltb, ◌==◌, ==_iff,
}
use mathlib.Core.Path.{subst}
use go_shardblob.Base.Wire.{
  le, checksum, length-le, of_le-le, get_bytes-append, get_uint-le, checksum-lt,
}
use go_shardblob.Base.Result.{ok, err, Error}
use go_shardblob.Manifest.{Manifest, Entry, max_chunks, validate, check_all, set_version}
use go_shardblob.Manifest.Codec.{
  magic, header_size, entry_size, crc_size, algo_field, pad_algo, put_entry, put_entries, put_body,
  seal, encode, cstring, get_entries, get_body, decode,
}

-- The fields have the widths of their Go types, and the name is one that the format can hold.
abbrev pub IsWireEntry : Entry → Type 0
IsWireEntry e = (length e.id ≡ 32) × (e.size < 2 ^ 32) × (e.offset < 2 ^ 64)

pub record IsWire (m : Manifest) : Type 0 where
  pub version : m.version < 2 ^ 16
  pub flags : m.flags < 2 ^ 16
  pub algo_short : length m.algo < 32
  pub algo_plain : All (λ b. b ≢ 0) m.algo
  pub chunk_size : m.chunk_size < 2 ^ 32
  pub total_size : m.total_size < 2 ^ 64
  pub object : length m.object ≡ 32
  pub entries : All IsWireEntry m.chunks
  pub few : length m.chunks ≤ max_chunks

length-put_entries :
    (es : List Entry) → All IsWireEntry es → length (put_entries es) ≡ length es * 44
unfolding put_entries put_entry
length-put_entries [] h = refl
length-put_entries (e ∷ es) ((i, s, o), h) = omega (
  arith,
  length-append {0} e.id (le 4 e.size ++ (le 8 e.offset ++ put_entries es)),
  length-append {0} (le 4 e.size) (le 8 e.offset ++ put_entries es),
  length-append {0} (le 8 e.offset) (put_entries es),
  length-le 4 e.size,
  length-le 8 e.offset,
  length-put_entries es h,
  i,
)

get_entries-put_entries :
    (es : List Entry) → All IsWireEntry es → get_entries (length es) (put_entries es) ≡ ok es
unfolding get_entries put_entries put_entry
get_entries-put_entries [] h = refl
get_entries-put_entries (e ∷ es) ((i, s, o), h) =
    let rest = put_entries es in
    rw (
      get_bytes-append 32 e.id (le 4 e.size ++ (le 8 e.offset ++ rest)) i,
      get_uint-le 4 e.size (le 8 e.offset ++ rest) s,
      get_uint-le 8 e.offset rest o,
      get_entries-put_entries es h,
    )

length-pad_algo : (a : Bytes) → length (pad_algo a) ≡ 32
unfolding pad_algo
length-pad_algo a = omega (
  arith,
  length-take {0} 32 (a ++ replicate 32 0),
  length-append {0} a (replicate 32 0),
  length-replicate {0} {A = ℕ} 32 0,
)

cstring-padded :
    (n m : ℕ) (a : Bytes)
    → length a < n
    → n ≤ m
    → All (λ b. b ≢ 0) a
    → cstring (take n (a ++ replicate m 0)) ≡ a
unfolding cstring
cstring-padded zero m a h k p = absurd (omega arith)
cstring-padded (suc n) zero a h k p = absurd (omega arith)
cstring-padded (suc n) (suc m) [] h k p = refl
cstring-padded (suc n) (suc m) (b ∷ bs) h k (nonzero, p) =
    ground (arith, cstring-padded n (suc m) bs (omega arith) (omega arith) p)

cstring-pad_algo : (a : Bytes) → length a < 32 → All (λ b. b ≢ 0) a → cstring (pad_algo a) ≡ a
unfolding pad_algo
cstring-pad_algo a h p = cstring-padded 32 32 a h (omega arith) p

-- The body that `Encode` writes is read back field by field, and validated.
get_body-put_body : (m : Manifest) → IsWire m → get_body (put_body m) ≡ validate m
unfolding get_body put_body
get_body-put_body m w =
    let r8 = put_entries m.chunks in
    let r7 = m.object ++ r8 in
    let r6 = le 8 m.total_size ++ r7 in
    let count = length m.chunks % 2 ^ 32 in
    let r5 = le 4 count ++ r6 in
    let r4 = le 4 m.chunk_size ++ r5 in
    let r3 = pad_algo m.algo ++ r4 in
    let r2 = le 2 m.flags ++ r3 in
    let r1 = le 2 m.version ++ r2 in
    let small : count ≡ length m.chunks = omega (arith, w.few) in
    let few : ltb max_chunks (length m.chunks) ≡ false = ground (arith, w.few) in
    let sized : (length m.chunks * entry_size == length r8) ≡ true =
      (==_iff _ _).1 (sym (length-put_entries m.chunks w.entries)) in
    rw (
      get_uint-le 4 magic r1 (omega arith),
      get_uint-le 2 m.version r2 w.version,
      get_uint-le 2 m.flags r3 w.flags,
      get_bytes-append algo_field (pad_algo m.algo) r4 (length-pad_algo m.algo),
      get_uint-le 4 m.chunk_size r5 w.chunk_size,
      small,
      get_uint-le 4 (length m.chunks) r6 (omega (arith, w.few)),
      few,
      get_uint-le 8 m.total_size r7 w.total_size,
      get_bytes-append 32 m.object r8 w.object,
      sized,
      get_entries-put_entries m.chunks w.entries,
      cstring-pad_algo m.algo w.algo_short w.algo_plain,
    )

decode-seal : (body : Bytes) → header_size ≤ length body → decode (seal body) ≡ get_body body
unfolding decode seal
decode-seal body h =
    let tail = le 4 (checksum body) in
    let long = length-append {0} body tail in
    let four = length-le 4 (checksum body) in
    let at : length (body ++ tail) - crc_size ≡ length body = omega (arith, long, four) in
    let enough : ltb (length (body ++ tail)) (header_size + crc_size) ≡ false =
      ground (arith, long, four) in
    rw (
      enough,
      at,
      take-length_append body tail,
      drop-length_append body tail,
      of_le-le 4 (checksum body) (checksum-lt body),
      (==_iff (checksum body) (checksum body)).1 refl,
    )

length-put_body : (m : Manifest) → IsWire m → header_size ≤ length (put_body m)
unfolding put_body
length-put_body m w =
    let r8 = put_entries m.chunks in
    let r7 = m.object ++ r8 in
    let r6 = le 8 m.total_size ++ r7 in
    let r5 = le 4 (length m.chunks % 2 ^ 32) ++ r6 in
    let r4 = le 4 m.chunk_size ++ r5 in
    let r3 = pad_algo m.algo ++ r4 in
    let r2 = le 2 m.flags ++ r3 in
    let r1 = le 2 m.version ++ r2 in
    omega (
      arith,
      length-append {0} (le 4 magic) r1,
      length-append {0} (le 2 m.version) r2,
      length-append {0} (le 2 m.flags) r3,
      length-append {0} (pad_algo m.algo) r4,
      length-append {0} (le 4 m.chunk_size) r5,
      length-append {0} (le 4 (length m.chunks % 2 ^ 32)) r6,
      length-append {0} (le 8 m.total_size) r7,
      length-append {0} m.object r8,
      length-le 4 magic,
      length-le 2 m.version,
      length-le 2 m.flags,
      length-pad_algo m.algo,
      length-le 4 m.chunk_size,
      length-le 4 (length m.chunks % 2 ^ 32),
      length-le 8 m.total_size,
      w.object,
    )

check_all-eq : (m m' : Manifest) → check_all m ≡ ok m' → m' ≡ m
unfolding check_all
check_all-eq m m' h = ground arith

set_version-set_version : (m : Manifest) → set_version (set_version m) ≡ set_version m
unfolding set_version
set_version-set_version m = ground arith

-- `Validate` sets the version and changes nothing else.
pub validate-eq : (m m' : Manifest) → validate m ≡ ok m' → m' ≡ set_version m
validate-eq m m' h = check_all-eq (set_version m) m' (unfold validate in h)

-- What `Validate` has accepted it accepts again, unchanged.
pub validate-validate : (m m' : Manifest) → validate m ≡ ok m' → validate m' ≡ ok m'
unfolding validate
validate-validate m m' h =
    ap check_all (ap set_version (validate-eq m m' h) ∙ set_version-set_version m) ∙ h

set_version-IsWire : (m : Manifest) → IsWire m → IsWire (set_version m)
unfolding set_version
set_version-IsWire m w = record {
  version = ground (arith, w.version);
  flags = w.flags;
  algo_short = w.algo_short;
  algo_plain = w.algo_plain;
  chunk_size = w.chunk_size;
  total_size = w.total_size;
  object = w.object;
  entries = w.entries;
  few = w.few;
}

-- A manifest that `Validate` accepts, and whose fields fit the fields of the format, is encoded
-- without an error, and the bytes are decoded to what `Validate` made of it.
pub decode-encode :
    (m m' : Manifest)
    → IsWire m
    → validate m ≡ ok m'
    → (raw : Bytes) × (encode m ≡ ok raw) × (decode raw ≡ ok m')
unfolding encode
decode-encode m m' w valid =
    let w' : IsWire m' = subst IsWire (sym (validate-eq m m' valid)) (set_version-IsWire m w) in
    (
      seal (put_body m'),
      rw valid,
      decode-seal (put_body m') (length-put_body m' w')
          ∙ get_body-put_body m' w'
          ∙ validate-validate m m' valid,
    )

-- `Encode` refuses exactly what `Validate` refuses, with the same error.
pub encode_refuses : (m : Manifest) (e : Error) → (encode m ≡ err e) ↔ (validate m ≡ err e)
unfolding encode
encode_refuses m e = ground arith

get_body-valid : (body : Bytes) (m : Manifest) → get_body body ≡ ok m → validate m ≡ ok m
unfolding get_body
get_body-valid body m h = grind (arith, validate-validate)

-- Whatever bytes are decoded, the manifest that comes out is one that `Validate` accepts.
pub decode-valid : (raw : Bytes) (m : Manifest) → decode raw ≡ ok m → validate m ≡ ok m
unfolding decode
decode-valid raw m h = ground (arith, get_body-valid (take (length raw - crc_size) raw) m)
