-- ===== src/Store/Read.antt =====
-- The operations that read a store: get.go, stats.go.
use go_shardblob.Base.{
  Bytes, ℕ, zero, suc, Bool, false, Option, none, some, List, [], ◌∷◌, ◌++◌, take, drop,
  if◌then◌else◌, map,
}
use go_shardblob.Base.Result.{Result, ok, err, Error, ◌>>=◌, ◌>>◌, not_found}
use go_shardblob.Hashx.{HashId}
use go_shardblob.Manifest.{Entry}
use go_shardblob.Blobstore.{Backend}
use go_shardblob.Refcount
use go_shardblob.Index
use go_shardblob.Store.{Store, Info, Usage, info_of, hide_missing, begin_io, load_manifest}
use go_shardblob.Store.Medium.{Media}

-- `blobReader`: `rest` are the entries from `i` on, `buf` the bytes of the chunk from `off` on.
pub record BlobReader : Type 0 where
  pub rest : List Entry
  pub buf : Bytes
  pub is_closed : Bool

-- What one call of `Read` returns: bytes, `io.EOF` or an error.
pub data Burst : Type 0 where
  bytes : Bytes → Burst
  at_end : Burst
  reader_closed : Burst
  broken : Error → Burst

abbrev pub take_burst : ℕ → List Entry → Bytes → Burst × BlobReader
take_burst k rest buf =
    (bytes (take k buf), record { rest = rest; buf = drop k buf; is_closed = false })

abbrev pub at_rest : List Entry → Bytes → BlobReader
at_rest rest buf = record { rest = rest; buf = buf; is_closed = false }

module _ (B : Backend) where
  -- The loop of `Read` into a buffer of `k` bytes: what is buffered, or the next chunk that is not
  -- empty.
  unfoldable pub read_burst : B.State → ℕ → List Entry → Bytes → Burst × BlobReader
  read_burst b k [] [] = (at_end, at_rest [] [])
  read_burst b k [] (x ∷ xs) = take_burst k [] (x ∷ xs)
  read_burst b k (e ∷ es) [] = elim (B.get b e.id) [
    | err x ↦ (broken x, at_rest (e ∷ es) [])
    | ok p ↦ read_burst b k es p
  ]
  read_burst b k (e ∷ es) (x ∷ xs) = take_burst k (e ∷ es) (x ∷ xs)

  -- `blobReader.Read`
  unfoldable pub read : B.State → ℕ → BlobReader → Burst × BlobReader
  unfolding read_burst
  read b k r = if r.is_closed then (reader_closed, r) else read_burst b k r.rest r.buf

  -- `bytes.Buffer.ReadFrom`, with room for `k` bytes in each call: it reads to the end, and returns
  -- what it has read, or the error. `none` means that the fuel ran out.
  unfoldable pub read_from : ℕ → B.State → ℕ → BlobReader → Bytes → Option (Result Bytes)
  read_from zero b k r out = none
  read_from (suc fuel) b k r out =
      let (n, r') = read b k r in
      elim n [
        | bytes p ↦ read_from fuel b k r' (out ++ p)
        | at_end ↦ some (ok out)
        | reader_closed ↦ none
        | broken e ↦ some (err e)
      ]

abbrev pub info_or_missing : Option Index.Record → Result Info
info_or_missing none = err not_found
info_or_missing (some r) = ok (info_of r)

module _ {B : Backend} {M : Media} where
  -- `Get`: a reader over the manifest of an object in the index.
  unfoldable pub get : Store B M → HashId → Result BlobReader
  unfolding begin_io load_manifest
  get s id =
      begin_io B M s
      >> (if Index.has s.index id
          then (hide_missing (load_manifest B M s id) >>= λ mf. ok (at_rest mf.chunks []))
          else err not_found)

  -- `GetBytes`, with fuel for the calls of `Read`, each with room for `k` bytes.
  unfoldable pub get_bytes : ℕ → ℕ → Store B M → HashId → Option (Result Bytes)
  unfolding get read_from
  get_bytes fuel k s id = elim (get s id) [
    | err e ↦ some (err e)
    | ok r ↦ read_from B fuel s.blobs k r []
  ]

  -- `Has`
  unfoldable pub has : Store B M → HashId → Result Bool
  unfolding begin_io
  has s id = begin_io B M s >> ok (Index.has s.index id)

  -- `Stat`
  unfoldable pub stat : Store B M → HashId → Result Info
  unfolding begin_io
  stat s id = begin_io B M s >> info_or_missing (Index.get s.index id)

  -- `List`, in the order of iteration over the index.
  unfoldable pub list : (List HashId → List HashId) → Store B M → Result (List Info)
  unfolding begin_io
  list order s = begin_io B M s >> ok (map info_of (Index.list order s.index))

  -- `StoreStats`
  unfoldable pub usage : Store B M → Result Usage
  unfolding begin_io
  usage s =
      begin_io B M s
      >> ok (record {
        objects = Index.size s.index;
        chunks = B.count s.blobs;
        logical = Index.total_bytes s.index;
        unique_bytes = B.bytes s.blobs;
      })

  -- `ChunkRef`, of an identifier that has been parsed.
  unfoldable pub chunk_ref : Store B M → HashId → Result ℕ
  unfolding begin_io
  chunk_ref s id = begin_io B M s >> ok (Refcount.get s.refs id)
