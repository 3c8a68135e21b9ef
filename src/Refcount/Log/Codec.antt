-- ===== src/Refcount/Log/Codec.antt =====
-- A journal record that is encoded is decoded again.
use go_shardblob.Base.{
  Bytes, ℕ, ◌-◌, ◌^◌, ◌<◌, ◌≡◌, refl, sym, ap, ◌∙◌, arith, false, some, [], ◌∷◌, ◌++◌, append_assoc,
  append-nil, length, length-append, take, take-length_append, drop-length_append, ltb, ==_iff,
}
use go_shardblob.Base.Wire.{le, of_le, length-le, of_le-le, checksum, checksum-lt}
use go_shardblob.Hashx.{HashId, copy_id}
use go_shardblob.Hashx.Tags.{length-copy_id, copy_id_of_wide}
use go_shardblob.Refcount.{Op}
use go_shardblob.Refcount.Log.{magic, op_code, rec_head, encode_rec, slice, decode_rec}

-- The part of `a ++ (b ++ c)` that is `b`.
slice-append :
    (i j : ℕ) (a b c : Bytes) → length a ≡ i → length b ≡ j - i → slice i j (a ++ (b ++ c)) ≡ b
slice-append i j a b c e f = rw (← f, ← e, drop-length_append a (b ++ c)) (take-length_append b c)

pub length-rec_head : (op : Op) (id : HashId) (n : ℕ) → length (rec_head op id n) ≡ 48
unfolding rec_head
length-rec_head op id n = omega (
  arith,
  length-append {0} (le 4 magic) ((op_code op ∷ 0 ∷ 0 ∷ 0 ∷ []) ++ (copy_id id ++ le 8 n)),
  length-append {0} (copy_id id) (le 8 n),
  length-le 4 magic,
  length-le 8 n,
  length-copy_id id,
)

pub length-encode_rec : (op : Op) (id : HashId) (n : ℕ) → length (encode_rec op id n) ≡ 52
unfolding encode_rec
length-encode_rec op id n = omega (
  arith,
  length-append {0} (rec_head op id n) (le 4 (checksum (rec_head op id n))),
  length-rec_head op id n,
  length-le 4 (checksum (rec_head op id n)),
)

-- A record with its fields side by side.
flat : Op → HashId → ℕ → Bytes → Bytes
flat op id n sum = le 4 magic ++ ((op_code op ∷ 0 ∷ 0 ∷ 0 ∷ []) ++ (id ++ (le 8 n ++ sum)))

encode_rec-flat :
    (op : Op) (id : HashId) (n : ℕ)
    → length id ≡ 32
    → encode_rec op id n ≡ flat op id n (le 4 (checksum (rec_head op id n)))
unfolding encode_rec rec_head flat
encode_rec-flat op id n wide = simp (copy_id_of_wide id wide, append_assoc)

module _ (op : Op) (id : HashId) (n : ℕ) (sum : Bytes) (wide : length id ≡ 32) where
  slice-magic : slice 0 4 (flat op id n sum) ≡ le 4 magic
  unfolding flat
  slice-magic = slice-append 0 4 [] (le 4 magic) _ refl (length-le 4 magic)

  slice-op : slice 4 5 (flat op id n sum) ≡ op_code op ∷ []
  unfolding flat
  slice-op = slice-append 4 5 (le 4 magic) (op_code op ∷ []) _ (length-le 4 magic) refl

  slice-id : slice 8 40 (flat op id n sum) ≡ id
  unfolding flat
  slice-id =
      let ops : Bytes = op_code op ∷ 0 ∷ 0 ∷ 0 ∷ [] in
      ap (slice 8 40) (sym (append_assoc (le 4 magic) ops (id ++ (le 8 n ++ sum))))
      ∙ slice-append 8 40 (le 4 magic ++ ops) id (le 8 n ++ sum)
          (omega (arith, length-append {0} (le 4 magic) ops, length-le 4 magic))
          (omega (arith, wide))

  slice-n : slice 40 48 (flat op id n sum) ≡ le 8 n
  unfolding flat
  slice-n =
      let ops : Bytes = op_code op ∷ 0 ∷ 0 ∷ 0 ∷ [] in
      let front = le 4 magic ++ (ops ++ id) in
      let shape : flat op id n sum ≡ front ++ (le 8 n ++ sum) = simp append_assoc refl in
      ap (slice 40 48) shape
      ∙ slice-append 40 48 front (le 8 n) sum
          (omega (
            arith,
            length-append {0} (le 4 magic) (ops ++ id),
            length-append {0} ops id,
            length-le 4 magic,
            wide,
          ))
          (length-le 8 n)

-- The front of a record is what its checksum is of.
take-encode_rec : (op : Op) (id : HashId) (n : ℕ) → take 48 (encode_rec op id n) ≡ rec_head op id n
unfolding encode_rec
take-encode_rec op id n = rw (← length-rec_head op id n) (take-length_append (rec_head op id n) _)

slice-sum :
    (op : Op) (id : HashId) (n : ℕ)
    → slice 48 52 (encode_rec op id n) ≡ le 4 (checksum (rec_head op id n))
unfolding encode_rec
slice-sum op id n =
    let sum = le 4 (checksum (rec_head op id n)) in
    ap (slice 48 52) (ap (λ t. rec_head op id n ++ t) (sym (append-nil sum)))
    ∙ slice-append 48 52 (rec_head op id n) sum [] (length-rec_head op id n) (length-le 4 _)

-- `decodeRec` reads the record that `encodeRec` makes of an operation, an identifier of 32 bytes and a
-- number below 2^64: it finds the code of the operation, the identifier and the number.
pub decode_rec-encode_rec :
    (op : Op) (id : HashId) (n : ℕ)
    → length id ≡ 32
    → n < 2 ^ 64
    → decode_rec (encode_rec op id n) ≡ some (record { code = op_code op; id = id; n = n })
unfolding decode_rec
decode_rec-encode_rec op id n wide fits =
    let buf = encode_rec op id n in
    let sum = checksum (rec_head op id n) in
    let shape = encode_rec-flat op id n wide in
    let long : ltb (length buf) 52 ≡ false = ground (arith, length-encode_rec op id n) in
    let s0 : of_le (slice 0 4 buf) ≡ magic =
      rw (shape, slice-magic op id n (le 4 sum) wide) (of_le-le 4 magic (omega arith)) in
    let s1 : checksum (take 48 buf) ≡ sum = ap checksum (take-encode_rec op id n) in
    let s2 : of_le (slice 48 52 buf) ≡ sum =
      rw (slice-sum op id n) (of_le-le 4 sum (checksum-lt (rec_head op id n))) in
    let s3 : of_le (slice 4 5 buf) ≡ op_code op =
      rw (shape, slice-op op id n (le 4 sum) wide) (unfold of_le in omega arith) in
    let s4 : copy_id (slice 8 40 buf) ≡ id =
      rw (shape, slice-id op id n (le 4 sum) wide) (copy_id_of_wide id wide) in
    let s5 : of_le (slice 40 48 buf) ≡ n =
      rw (shape, slice-n op id n (le 4 sum) wide) (of_le-le 8 n fits) in
    rw (long, s0, s1, s2, s3, s4, s5, (==_iff sum sum).1 refl) refl
