-- ===== src/Store/PutGet.antt =====
-- `Put` and then `GetBytes` (put.go, get.go), where nothing fails.
use go_shardblob.Base.{
  Bytes, ℕ, ◌+◌, ◌%◌, ◌^◌, ◌<◌, ◌≡◌, refl, ap, ◌∙◌, some, List, [], ◌∷◌, length, ◌=?◌,
  if◌then◌else◌,
}
use go_shardblob.Base.Dict
use go_shardblob.Base.Result.{ok}
use go_shardblob.Hashx.{HashId}
use go_shardblob.Manifest.{Manifest, chunk_ids}
use go_shardblob.Blobstore.{Backend}
use go_shardblob.Refcount
use go_shardblob.Refcount.{IsReliable, Table}
use go_shardblob.Refcount.Exact.{occurs, add_many_ok, add_ok, get-add_many}
use go_shardblob.Index
use go_shardblob.Index.{Record}
use go_shardblob.Store.{Store, put_encoded, persist}
use go_shardblob.Store.Medium.{Media, IsSound, journal}

module _ {M : Media} (S : IsSound M) where
  unfoldable pub journal-IsReliable : IsReliable (journal M)
  journal-IsReliable = record {
    Ready = S.Ready;
    append_ok = S.append_ok;
    append-Ready = S.append-Ready;
  }

  world_add :
      (t : Table) (w : M.World) (id j : HashId)
      → S.Ready w
      → S.manifests (Refcount.add (journal M) t w id 1).2 j ≡ S.manifests w j
  unfolding Refcount.add
  world_add t w id j r = S.manifests-append w Refcount.inc id 1 j r

  -- Counting touches no manifest.
  manifests-add_many :
      (t : Table) (w : M.World) (ids : List HashId) (j : HashId)
      → S.Ready w
      → S.manifests (Refcount.add_many (journal M) t w ids).2 j ≡ S.manifests w j
  unfolding Refcount.add_many journal-IsReliable
  manifests-add_many t w [] j r = refl
  manifests-add_many t w (id ∷ ids) j r =
      let (done, r') = add_ok {J = journal M} journal-IsReliable t w id 1 r in
      let t1 = (Refcount.add (journal M) t w id 1).1 in
      let w1 = (Refcount.add (journal M) t w id 1).2 in
      rw (done, Refcount.add_many) (manifests-add_many t1 w1 ids j r' ∙ world_add t w id j r)

-- The record of an object that is new.
abbrev pub first_record : HashId → Manifest → Record
first_record oid mf = record {
  id = oid;
  use_count = 1;
  size = mf.total_size;
  chunks = length mf.chunks % 2 ^ 32;
  created_at = 0;
}

-- What a `Put` of a new object with that manifest leaves.
pub record IsPut {B : Backend} {M : Media} (S : IsSound M) (now : ℕ) (s s' : Store B M)
    (oid : HashId) (mf : Manifest) (raw : Bytes) : Type 0 where
  pub same_blobs : s'.blobs ≡ s.blobs
  pub same_closed : s'.is_closed ≡ s.is_closed
  pub recorded : s'.index ≡ Index.put s.index now (first_record oid mf)
  pub ready : S.Ready s'.world
  pub written :
      (j : HashId) → S.manifests s'.world j ≡ (if oid =? j then some raw else S.manifests s.world j)
  pub counted :
      (j : HashId)
      → Refcount.get s.refs j + occurs j (chunk_ids mf) < 2 ^ 64
      → Refcount.get s'.refs j ≡ Refcount.get s.refs j + occurs j (chunk_ids mf)

module _ {B : Backend} {M : Media} (S : IsSound M) where
  pub put_encoded-IsPut :
      (now : ℕ) (s : Store B M) (oid : HashId) (mf : Manifest) (raw : Bytes)
      → S.Ready s.world
      → (s' : Store B M) × (put_encoded B M now s oid mf raw ≡ (ok oid, s'))
        × IsPut S now s s' oid mf raw
  unfolding put_encoded persist journal-IsReliable Refcount.get
  put_encoded-IsPut now s oid mf raw r =
      let w1 = (M.write_manifest s.world oid raw).1 in
      let r1 = S.write_manifest-Ready s.world oid raw r in
      let done = Refcount.add_many (journal M) s.refs w1 (chunk_ids mf) in
      let (counted, r2) =
        add_many_ok {J = journal M} (journal-IsReliable S) s.refs w1 (chunk_ids mf) r1 in
      let x = Index.put s.index now (first_record oid mf) in
      let t2 = done.1 in
      let w2 = done.2 in
      let (_, t3, w3) = M.persist w2 x t2 in
      (
        record { blobs = s.blobs; refs = t3; index = x; world = w3; is_closed = s.is_closed },
        rw (S.write_manifest_ok s.world oid raw r, counted, S.persist_ok w2 x t2 r2, put_encoded)
            refl,
        record {
          same_blobs = refl;
          same_closed = refl;
          recorded = refl;
          ready = S.persist-Ready w2 x t2 r2;
          written = λ j.
              S.manifests-persist w2 x t2 j r2
              ∙ manifests-add_many S s.refs w1 (chunk_ids mf) j r1
              ∙ S.manifests-write_manifest s.world oid raw j r;
          counted = λ j fits.
              ap (λ c. Refcount.or_zero (Dict.lookup j c)) (S.persist_counts w2 x t2 r2)
              ∙ get-add_many {J = journal M} (journal-IsReliable S) s.refs w1 (chunk_ids mf) j r1
                  fits;
        },
      )
