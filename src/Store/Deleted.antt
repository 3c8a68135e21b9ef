-- ===== src/Store/Deleted.antt =====
-- `Delete` of the last use of an object (delete.go), and a store that is closed.
use go_shardblob.Base.{
  Bytes, ℕ, ◌+◌, ◌≤◌, ◌≡◌, refl, ap, ◌∙◌, arith, false, none, ◌=?◌, if◌then◌else◌,
}
use go_shardblob.Base.Result.{ok}
use go_shardblob.Hashx.{HashId}
use go_shardblob.Manifest.{Manifest, chunk_ids}
use go_shardblob.Blobstore.{Backend, IsLawful}
use go_shardblob.Refcount
use go_shardblob.Refcount.Exact.{occurs, sub_many_ok, get-sub_many}
use go_shardblob.Index
use go_shardblob.Index.{Record}
use go_shardblob.Index.Uses.{get-delete}
use go_shardblob.Store.{Store, Config, begin_io, persist, load_manifest}
use go_shardblob.Store.Remove.{delete, delete_locked, remove_last}
use go_shardblob.Store.Medium.{Media, IsSound, journal}
use go_shardblob.Store.PutGet.{journal-IsReliable}
use go_shardblob.Store.Served.{Serves}

module _ {B : Backend} {M : Media} (L : IsLawful B) (S : IsSound M) where
  -- The last use goes: the counts are lowered, and nothing fails.
  remove_last_ok :
      (s : Store B M) (oid : HashId) (mf : Manifest)
      → S.Ready s.world
      → ((j : HashId) → occurs j (chunk_ids mf) ≤ Refcount.get s.refs j)
      → ((remove_last s oid mf).0 ≡ ok tt)
        × ((remove_last s oid mf).1.index ≡ Index.delete s.index oid)
        × ((remove_last s oid mf).1.is_closed ≡ s.is_closed)
        × ((j : HashId)
            → Refcount.get (remove_last s oid mf).1.refs j + occurs j (chunk_ids mf)
              ≡ Refcount.get s.refs j)
  unfolding remove_last persist journal-IsReliable Refcount.get
  remove_last_ok s oid mf r covers =
      let ids = chunk_ids mf in
      let J = journal-IsReliable S in
      let (fine, r1) = sub_many_ok {J = journal M} J s.refs s.world ids r covers in
      let (_, t1, w1) = Refcount.sub_many (journal M) s.refs s.world ids in
      let w2 = (M.remove_manifest w1 oid).1 in
      let r2 = S.remove_manifest-Ready w1 oid r1 in
      let x = Index.delete s.index oid in
      let kept = S.persist_ok w2 x t1 r2 in
      let lower = λ (j : HashId). get-sub_many {J = journal M} J s.refs s.world ids j r covers in
      rw (fine, S.remove_manifest_ok w1 oid r1, remove_last)
        (kept, refl, refl, λ j. rw (S.persist_counts w2 x t1 r2) (lower j))

  load_served :
      (s : Store B M) (oid : HashId) (p : Bytes) (v : Serves L S s oid p)
      → load_manifest B M s oid ≡ ok v.mf
  unfolding load_manifest
  load_served s oid p v = rw (S.read_manifest_lem s.world oid v.world_ready, v.written) v.decoded

  delete_locked_last :
      (now : ℕ) (s : Store B M) (oid : HashId) (p : Bytes) (v : Serves L S s oid p)
      → v.row.use_count ≤ 1
      → delete_locked now s oid ≡ remove_last s oid v.mf
  unfolding delete_locked
  delete_locked_last now s oid p v last =
      rw (v.indexed, load_served s oid p v, delete_locked) (ground (arith, last))

  -- In an open store on a lawful backend and a sound medium that are ready, of an object that it has
  -- with its manifest and chunks, in its last use and with counts that cover its chunks, `Delete`
  -- without a collection succeeds, takes the object, and no other, from the index, and lowers the
  -- count of every chunk by its occurrences in the object.
  pub delete_last :
      (c : Config) (now : ℕ) (s : Store B M) (oid : HashId) (p : Bytes) (v : Serves L S s oid p)
      → v.row.use_count ≤ 1
      → c.auto_gc ≡ false
      → ((j : HashId) → occurs j (chunk_ids v.mf) ≤ Refcount.get s.refs j)
      → (s' : Store B M) × (delete c now s oid ≡ (ok tt, s'))
        × ((j : HashId) → Index.get s'.index j ≡ (if oid =? j then none else Index.get s.index j))
        × ((j : HashId)
            → Refcount.get s'.refs j + occurs j (chunk_ids v.mf) ≡ Refcount.get s.refs j)
  unfolding delete begin_io
  delete_last c now s oid p v last plain covers =
      let (fine, gone, _, lowered) = remove_last_ok s oid v.mf v.world_ready covers in
      let locked = delete_locked_last now s oid p v last in
      (
        (remove_last s oid v.mf).1,
        ground (arith, v.is_open, locked, fine, plain),
        λ j. ap (λ x. Index.get x j) gone ∙ get-delete s.index oid j,
        lowered,
      )
