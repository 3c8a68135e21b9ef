-- ===== src/Store/Remove.antt =====
-- Deletion, collection and closing: delete.go, and `Close` of store.go.
use go_shardblob.Base.{ℕ, ◌-◌, true, false, none, some, ltb, if◌then◌else◌}
use go_shardblob.Base.Result.{Result, ok, err, not_found, closed}
use go_shardblob.Hashx.{HashId}
use go_shardblob.Manifest.{Manifest, chunk_ids}
use go_shardblob.Blobstore.{Backend}
use go_shardblob.Refcount
use go_shardblob.Index
use go_shardblob.Index.{Record}
use go_shardblob.Gc
use go_shardblob.Gc.{Stats, no_stats}
use go_shardblob.Store.{Store, Config, begin_io, persist, load_manifest}
use go_shardblob.Store.Medium.{Media, journal}

-- The first error of two, as `Close` keeps it.
abbrev pub first_error : Result (Unit {0}) → Result (Unit {0}) → Result (Unit {0})
first_error (err e) next = err e
first_error (ok _) next = next

module _ {B : Backend} {M : Media} where
  -- `applyDelete`, when one use of several goes.
  unfoldable pub release_use : ℕ → Store B M → ℕ → Record → Result (Unit {0}) × Store B M
  unfolding persist
  release_use now s held rec =
      let r : Record = record rec { use_count = held - 1 } in
      persist B M (record s { index = Index.put s.index now r })

  -- `applyDelete`, when the last use goes.
  unfoldable pub remove_last : Store B M → HashId → Manifest → Result (Unit {0}) × Store B M
  unfolding persist
  remove_last s id mf =
      let (counted, refs, w1) = Refcount.sub_many (journal M) s.refs s.world (chunk_ids mf) in
      let s1 : Store B M = record s { refs = refs; world = w1 } in
      let x = Index.delete s.index id in
      let (removed, w2) = M.remove_manifest w1 id in
      let s2 : Store B M = record s1 { index = x; world = w2 } in
      elim counted [
        | err e ↦ (err e, s1)
        | ok _ ↦ elim removed [ err e ↦ (err e, s2) | ok _ ↦ persist B M s2 ]
      ]

  -- `deleteLocked`
  unfoldable pub delete_locked : ℕ → Store B M → HashId → Result (Unit {0}) × Store B M
  unfolding release_use remove_last load_manifest
  delete_locked now s id = elim (Index.get s.index id) [
    | none ↦ (err not_found, s)
    | some rec ↦ elim (load_manifest B M s id) [
      | err e ↦ (err e, s)
      | ok mf ↦
          if ltb 1 rec.use_count then release_use now s rec.use_count rec else remove_last s id mf
    ]
  ]

  -- `GC`
  unfoldable pub gc : Store B M → Result (Unit {0}) × Stats × Store B M
  unfolding persist
  gc s =
      if s.is_closed
      then (err closed, no_stats, s)
      else let (r, st, b) = Gc.run B false s.refs s.blobs in
        let (saved, s2) = persist B M (record s { blobs = b }) in
        elim r [ err e ↦ (err e, st, record s { blobs = b }) | ok _ ↦ (saved, st, s2) ]

  -- `Delete`, with the collection that may follow.
  unfoldable pub delete : Config → ℕ → Store B M → HashId → Result (Unit {0}) × Store B M
  unfolding delete_locked gc begin_io
  delete c now s id = elim (begin_io B M s) [
    | err e ↦ (err e, s)
    | ok _ ↦
        let (r, s1) = delete_locked now s id in
        let (g, _, s2) = gc s1 in
        elim r [ err e ↦ (err e, s1) | ok _ ↦ if c.auto_gc then (g, s2) else (ok tt, s1) ]
  ]

  -- `Close`: the snapshots are written, and the journal and the backend are closed whatever
  -- happens before; the first error is returned.
  unfoldable pub close : Store B M → Result (Unit {0}) × Store B M
  unfolding persist
  close s =
      if s.is_closed
      then (ok tt, s)
      else let (saved, s1) = persist B M (record s { is_closed = true }) in
        let (left, w) = M.close s1.world in
        let (shut, b) = B.close s1.blobs in
        (first_error (first_error saved left) shut, record s1 { world = w; blobs = b })
