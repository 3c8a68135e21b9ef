-- ===== src/Hashx/Tags.antt =====
-- Streaming a digest in pieces, and the separation of the three domains.
use go_shardblob.Base.{
  Bytes, ℕ, ◌≡◌, ◌≢◌, refl, ap, sym, ◌∙◌, arith, List, [], ◌∷◌, ◌++◌, append_assoc, append-nil,
  drop, length, length-append, length-take, length-replicate, replicate, take-length_append,
}
use go_shardblob.Hashx.{
  id_size, copy_id, Algo, Hash, write, new_tagged, tagged_id, sum_tagged, chunk_id, object_id,
  tag_chunk, tag_object, tag_manif,
}

-- Every identifier that the code computes has 32 bytes, whatever the digest returns.
pub length-copy_id : (b : Bytes) → length (copy_id b) ≡ 32
unfolding copy_id
length-copy_id b = omega (
  arith,
  length-take {0} id_size (b ++ replicate id_size 0),
  length-append {0} b (replicate id_size 0),
  length-replicate {0} {A = ℕ} id_size 0,
)

-- An identifier is copied as it is.
pub copy_id_of_wide : (b : Bytes) → length b ≡ 32 → copy_id b ≡ b
unfolding copy_id
copy_id_of_wide b wide = rw (← wide) (take-length_append b (replicate id_size 0))

pub length-tagged_id : (h : Hash) → length (tagged_id h) ≡ 32
unfolding tagged_id
length-tagged_id h = length-copy_id _

pub length-chunk_id : (a : Algo) (p : Bytes) → length (chunk_id a p) ≡ 32
unfolding chunk_id
length-chunk_id a p = length-copy_id _

pub length-object_id : (a : Algo) (p : Bytes) → length (object_id a p) ≡ 32
unfolding object_id
length-object_id a p = length-copy_id _

-- Writing in two pieces is writing once.
pub write-write : (h : Hash) (p q : Bytes) → write (write h p) q ≡ write h (p ++ q)
unfolding write
write-write h p q = ap (λ w. record h { written = w }) (append_assoc h.written p q)

pub write-nil : (h : Hash) → write h [] ≡ h
unfolding write
write-nil h = rw append-nil

-- All pieces of a list, written one after the other.
abbrev pub write_all : Hash → List Bytes → Hash
write_all h [] = h
write_all h (p ∷ ps) = write_all (write h p) ps

abbrev pub concat : List Bytes → Bytes
concat [] = []
concat (p ∷ ps) = p ++ concat ps

pub write_all-concat : (h : Hash) (ps : List Bytes) → write_all h ps ≡ write h (concat ps)
write_all-concat h [] = sym (write-nil h)
write_all-concat h (p ∷ ps) = write_all-concat (write h p) ps ∙ write-write h p (concat ps)

-- The identifier of an object that is hashed piece by piece is that of its bytes in one piece.
pub object_id-stream :
    (a : Algo) (ps : List Bytes)
    → tagged_id (write_all (new_tagged a tag_object) ps) ≡ object_id a (concat ps)
object_id-stream a ps = rw write_all-concat (unfold object_id sum_tagged in refl)

-- The byte at which the tags of the three domains differ from one another.
abbrev eleventh : Bytes → ℕ
eleventh b = first (drop 10 b)
  where
    first : Bytes → ℕ
    first [] = 0
    first (x ∷ xs) = x

-- No input of one domain is an input of another: what is hashed for a chunk is never what is
-- hashed for an object or a manifest.
pub tags-separate :
    (x y : Bytes)
    → (tag_chunk ++ x ≢ tag_object ++ y)
      × (tag_chunk ++ x ≢ tag_manif ++ y)
      × (tag_object ++ x ≢ tag_manif ++ y)
unfolding tag_chunk tag_object tag_manif
tags-separate x y = (
  λ e. absurd (omega (arith, ap eleventh e)),
  λ e. absurd (omega (arith, ap eleventh e)),
  λ e. absurd (omega (arith, ap eleventh e)),
)
