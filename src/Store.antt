-- ===== src/Store.antt =====
-- The store: put.go, get.go, delete.go, stats.go and the life cycle of store.go, over any backend and
-- any media. The fence is not modelled: the operations follow one another.
pub mod Medium
pub mod Read
pub mod Remove
pub mod Pieces
pub mod Reading
pub mod Described
pub mod PutGet
pub mod Served
pub mod RoundTrip
pub mod Collected
pub mod Deleted
pub mod Again
pub mod Verifying
pub mod Checked
pub mod Opening
pub mod OnDisk
use go_shardblob.Base.{
  Bytes, ℕ, zero, suc, ◌+◌, ◌-◌, ◌%◌, ◌^◌, Bool, true, false, Option, none, some, List, [], ◌∷◌,
  ◌++◌, length, take, drop, ltb, leb, ◌==◌, if◌then◌else◌, map,
}
use go_shardblob.Base.Result.{Result, ok, err, Error, ◌>>=◌, closed, not_found, invalid, incomplete}
use go_shardblob.Hashx.{HashId, Algo, Hash, new_tagged, write, tagged_id, tag_object, chunk_id}
use go_shardblob.Chunk.Policy.{Policy, Mode, cdc, fixed}
use go_shardblob.Chunk.Reader.{Reader, content}
use go_shardblob.Chunk.Splitter.{Splitter, Piece, Next, piece, finished, broken, next, new_splitter}
use go_shardblob.Manifest.{Manifest, Entry, chunk_ids, new_manifest}
use go_shardblob.Manifest.Codec.{encode, decode}
use go_shardblob.Blobstore.{Backend}
use go_shardblob.Refcount
use go_shardblob.Refcount.{Table}
use go_shardblob.Index
use go_shardblob.Index.{Record, Index}
use go_shardblob.Gc
use go_shardblob.Gc.{Stats}
use go_shardblob.Store.Medium.{Media, journal}

-- The parts of `options` that the operations read. The policy is the normalised one.
pub record Config : Type 0 where
  pub algo : Algo
  pub policy : Policy
  pub auto_gc : Bool

-- `Info`
pub record Info : Type 0 where
  pub id : HashId
  pub size : ℕ
  pub chunks : ℕ
  pub use_count : ℕ

-- `Stats` of types.go
pub record Usage : Type 0 where
  pub objects : ℕ
  pub chunks : ℕ
  pub logical : ℕ
  pub unique_bytes : ℕ

abbrev pub info_of : Record → Info
info_of r = record { id = r.id; size = r.size; chunks = r.chunks; use_count = r.use_count }

abbrev pub is_cdc_mode : Mode → Bool
is_cdc_mode cdc = true
is_cdc_mode fixed = false

-- The entry that `Put` makes for a piece.
abbrev pub entry_of : Algo → Piece → Entry
entry_of a p = record { id = chunk_id a p.bytes; size = length p.bytes % 2 ^ 32; offset = p.offset }

-- A manifest that the index promises but that is not there is incomplete.
abbrev pub hide_missing : Result Manifest → Result Manifest
hide_missing (ok m) = ok m
hide_missing (err not_found) = err incomplete
hide_missing (err e) = err e

module _ (B : Backend) where
  -- The loop of `Put` over the pieces: hash, identify, store, note. `none` means that the fuel ran
  -- out.
  unfoldable pub put_pieces :
      ℕ
      → Algo
      → Splitter
      → Hash
      → List Entry
      → B.State
      → Option (Result (Hash × List Entry) × B.State)
  put_pieces zero a sp obj out b = none
  put_pieces (suc fuel) a sp obj out b =
      let (n, sp') = next sp in
      elim n [
        | finished ↦ some (ok (obj, out), b)
        | broken e ↦ some (err e, b)
        | piece p ↦
            let (r, b') = B.put b (chunk_id a p.bytes) p.bytes in
            elim r [
              | err e ↦ some (err e, b')
              | ok _ ↦ put_pieces fuel a sp' (write obj p.bytes) (out ++ (entry_of a p ∷ [])) b'
            ]
      ]

module _ (B : Backend) (M : Media) where
  -- `Store`, without the options.
  pub record Store : Type 0 where
    pub blobs : B.State
    pub refs : Table
    pub index : Index
    pub world : M.World
    pub is_closed : Bool

  -- `beginIO`
  unfoldable pub begin_io : Store → Result (Unit {0})
  begin_io s = if s.is_closed then err closed else ok tt

  -- `persist`
  unfoldable pub persist : Store → Result (Unit {0}) × Store
  persist s =
      let (r, refs, w) = M.persist s.world s.index s.refs in
      (r, record s { refs = refs; world = w })

  -- `loadManifest`
  unfoldable pub load_manifest : Store → HashId → Result Manifest
  load_manifest s id = M.read_manifest s.world id >>= decode

  -- `Put` of an object that the index has: one more use, taken back if the snapshot fails.
  unfoldable pub put_again : ℕ → Store → HashId → Record → Result HashId × Store
  unfolding persist
  put_again now s oid rec =
      let more : Record = record rec { use_count = (rec.use_count + 1) % 2 ^ 32 } in
      let (r, s') = persist (record s { index = Index.put s.index now more }) in
      let less : Record = record more { use_count = (more.use_count + 2 ^ 32 - 1) % 2 ^ 32 } in
      elim r [
        | ok _ ↦ (ok oid, s')
        | err e ↦ (
          err e,
          record s' {
            index =
                if less.use_count == 0
                then Index.delete s'.index oid
                else Index.put s'.index now less;
          },
        )
      ]

  -- `Put` of a new object, once its manifest is encoded.
  unfoldable pub put_encoded : ℕ → Store → HashId → Manifest → Bytes → Result HashId × Store
  unfolding persist
  put_encoded now s oid mf raw =
      let (wrote, w1) = M.write_manifest s.world oid raw in
      let (counted, refs, w2) = Refcount.add_many (journal M) s.refs w1 (chunk_ids mf) in
      let r : Record = record {
        id = oid;
        use_count = 1;
        size = mf.total_size;
        chunks = length mf.chunks % 2 ^ 32;
        created_at = 0;
      } in
      let s2 = record s { refs = refs; world = w2 } in
      let (saved, s3) = persist (record s2 { index = Index.put s.index now r }) in
      elim wrote [
        | err e ↦ (err e, record s { world = w1 })
        | ok _ ↦ elim counted [
          | err e ↦ (err e, s2)
          | ok _ ↦ elim saved [ err e ↦ (err e, s3) | ok _ ↦ (ok oid, s3) ]
        ]
      ]

  -- `Put` of a new object.
  unfoldable pub put_new : Config → ℕ → Store → HashId → List Entry → Result HashId × Store
  unfolding put_encoded
  put_new c now s oid entries =
      let mf =
        new_manifest c.algo.name (c.policy.avg % 2 ^ 32) (is_cdc_mode c.policy.mode) oid entries in
      elim (encode mf) [ err e ↦ (err e, s) | ok raw ↦ put_encoded now s oid mf raw ]

  -- `Put` after the last piece.
  unfoldable pub put_object : Config → ℕ → Store → HashId → List Entry → Result HashId × Store
  unfolding put_again put_new
  put_object c now s oid entries = elim (Index.get s.index oid) [
    | some rec ↦ put_again now s oid rec
    | none ↦ put_new c now s oid entries
  ]

  abbrev pub put_read :
      Config → ℕ → Store → Result (Hash × List Entry) × B.State → Result HashId × Store
  put_read c now s (err e, b) = (err e, record s { blobs = b })
  put_read c now s (ok (obj, entries), b) =
      put_object c now (record s { blobs = b }) (tagged_id obj) entries

  abbrev pub put_from : Config → ℕ → Store → Reader → Option (Result HashId × Store)
  put_from c now s r =
      let fuel = suc (length (content r)) in
      elim (put_pieces B fuel c.algo (new_splitter r c.policy) (new_tagged c.algo tag_object) []
        s.blobs) [ none ↦ none | some done ↦ some (put_read c now s done) ]

  -- `Put`; `now` is what the clock says, and a nil reader is refused.
  unfoldable pub put : Config → ℕ → Store → Option Reader → Option (Result HashId × Store)
  unfolding begin_io put_pieces put_object
  put c now s r = elim (begin_io s) [
    | err e ↦ some (err e, s)
    | ok _ ↦ elim r [ none ↦ some (err invalid, s) | some r' ↦ put_from c now s r' ]
  ]
