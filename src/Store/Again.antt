-- ===== src/Store/Again.antt =====
-- `Put` of an object that the store has (put.go).
use go_shardblob.Base.{
  ℕ, ◌+◌, ◌%◌, ◌^◌, ◌<◌, ◌≡◌, refl, ap, ◌∙◌, arith, false, none, some, ◌=?◌, ◌==◌, if◌then◌else◌,
}
use go_shardblob.Base.Dict
use go_shardblob.Base.Result.{ok}
use go_shardblob.Hashx.{HashId, object_id}
use go_shardblob.Chunk.Reader.{Reader, content}
use go_shardblob.Blobstore.{Backend, IsLawful}
use go_shardblob.Refcount
use go_shardblob.Index
use go_shardblob.Index.{Record}
use go_shardblob.Index.Uses.{get-put}
use go_shardblob.Store.{Store, Config, persist, put_again, put_object, put}
use go_shardblob.Store.Medium.{Media, IsSound}
use go_shardblob.Store.RoundTrip.{filled, put_lem}

-- One use more.
abbrev pub used_again : Record → Record
used_again r = record r { use_count = (r.use_count + 1) % 2 ^ 32 }

module _ {B : Backend} {M : Media} (L : IsLawful B) (S : IsSound M) where
  put_again_ok :
      (now : ℕ) (s : Store B M) (oid : HashId) (row : Record)
      → S.Ready s.world
      → ((put_again B M now s oid row).0 ≡ ok oid)
        × ((put_again B M now s oid row).1.index ≡ Index.put s.index now (used_again row))
        × ((put_again B M now s oid row).1.refs.counts ≡ s.refs.counts)
  unfolding put_again persist
  put_again_ok now s oid row r =
      let x = Index.put s.index now (used_again row) in
      rw (S.persist_ok s.world x s.refs r, put_again)
        (refl, refl, S.persist_counts s.world x s.refs r)

  -- In an open store on a lawful backend and a sound medium that are ready, `Put` of an object that
  -- the index has, by a record of its own identifier with a creation time, succeeds over a reader
  -- that ends in EOF, with that identifier. It adds one use to the record, while that stays below
  -- 2^32, and changes no other record and no count of a chunk.
  pub put-again :
      (c : Config) (now : ℕ) (s : Store B M) (r : Reader) (row : Record)
      → r.ending ≡ none
      → s.is_closed ≡ false
      → L.Ready s.blobs
      → S.Ready s.world
      → Index.get s.index (object_id c.algo (content r)) ≡ some row
      → row.id ≡ object_id c.algo (content r)
      → (row.created_at == 0) ≡ false
      → row.use_count + 1 < 2 ^ 32
      → (s' : Store B M) × (put B M c now s (some r) ≡ some (ok (object_id c.algo (content r)), s'))
        × ((j : HashId)
            → Index.get s'.index j ≡ (
                if object_id c.algo (content r) =? j
                then some (record row { use_count = row.use_count + 1 })
                else Index.get s.index j))
        × ((j : HashId) → Refcount.get s'.refs j ≡ Refcount.get s.refs j)
  unfolding put_object Refcount.get
  put-again c now s r row e is_open rb rw' known own stamped fits =
      let oid = object_id c.algo (content r) in
      let s1 = filled L S c s (content r) in
      let (fine, indexed, counts) = put_again_ok now s1 oid row rw' in
      let more : (row.use_count + 1) % 2 ^ 32 ≡ row.use_count + 1 = omega arith in
      (
        (put_again B M now s1 oid row).1,
        put_lem L S c now s r e is_open rb
            ∙ ap some
                (rw (known, put_object) (ap (λ o. (o, (put_again B M now s1 oid row).1)) fine)),
        λ j.
            ap (λ x. Index.get x j) indexed
            ∙ get-put s.index now (used_again row) j
            ∙ rw (own, stamped, more) refl,
        λ j. ap (λ d. Refcount.or_zero (Dict.lookup j d)) counts,
      )
