-- ===== src/Store/Served.antt =====
-- An object that a store has is read in full (get.go).
use go_shardblob.Base.{Bytes, ℕ, ◌<◌, ◌≤◌, ◌≡◌, refl, false, some, [], length}
use go_shardblob.Base.Result.{ok}
use go_shardblob.Hashx.{HashId}
use go_shardblob.Manifest.{Manifest}
use go_shardblob.Manifest.Codec.{decode}
use go_shardblob.Blobstore.{Backend, IsLawful}
use go_shardblob.Index
use go_shardblob.Index.{Record}
use go_shardblob.Store.{Store, begin_io, load_manifest}
use go_shardblob.Store.Read.{get, get_bytes, at_rest}
use go_shardblob.Store.Medium.{Media, IsSound}
use go_shardblob.Store.Reading.{Holds, read_from_lem}

-- The store is open and nothing of it fails, and it has the object `oid` with the content `p`: a
-- record, a manifest, and every chunk of it.
pub record Serves {B : Backend} {M : Media} (L : IsLawful B) (S : IsSound M) (s : Store B M)
    (oid : HashId) (p : Bytes) : Type 0 where
  pub is_open : s.is_closed ≡ false
  pub blobs_ready : L.Ready s.blobs
  pub world_ready : S.Ready s.world
  pub row : Record
  pub indexed : Index.get s.index oid ≡ some row
  pub raw : Bytes
  pub written : S.manifests s.world oid ≡ some raw
  pub mf : Manifest
  pub decoded : decode raw ≡ ok mf
  pub holds : Holds (L.contents s.blobs) mf.chunks p

module _ {B : Backend} {M : Media} (L : IsLawful B) (S : IsSound M) where
  -- What a store serves, `GetBytes` returns in full.
  pub get_bytes-Serves :
      (s : Store B M) (oid : HashId) (p : Bytes) (fuel k : ℕ)
      → Serves L S s oid p
      → 1 ≤ k
      → length p < fuel
      → get_bytes fuel k s oid ≡ some (ok p)
  unfolding get_bytes get begin_io load_manifest Index.has
  get_bytes-Serves s oid p fuel k h room enough =
      let found : get s oid ≡ ok (at_rest h.mf.chunks []) =
        rw
          (
            h.is_open,
            h.indexed,
            S.read_manifest_lem s.world oid h.world_ready,
            h.written,
            h.decoded,
          )
          refl in
      rw (found, get_bytes)
        (read_from_lem {B = B} L fuel s.blobs k h.mf.chunks [] p [] h.blobs_ready room h.holds
          enough)
