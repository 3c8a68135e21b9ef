-- ===== src/Store/Medium.antt =====
-- What the store keeps beside its chunks: manifests (manifest_io.go, mem.go), the journal, and the
-- snapshots of the index and the counts (`persist` in store.go).
use go_shardblob.Base.{Bytes, ℕ, ◌≡◌, refl, Option, none, some, ◌=?◌, if◌then◌else◌}
use go_shardblob.Base.Dict
use go_shardblob.Base.Dict.{Dict, lookup-insert, lookup-erase}
use go_shardblob.Base.Result.{Result, ok, err, not_found}
use go_shardblob.Hashx.{HashId}
use go_shardblob.Refcount.{Op, Journal, Table}
use go_shardblob.Index.{Index}

-- Where the store writes. `persist` answers with the table as it leaves it: it may mark it clean.
pub record Media : Type 1 where
  pub World : Type 0
  pub write_manifest : World → HashId → Bytes → Result (Unit {0}) × World
  pub read_manifest : World → HashId → Result Bytes
  pub remove_manifest : World → HashId → Result (Unit {0}) × World
  pub append : World → Op → HashId → ℕ → Result (Unit {0}) × World
  pub persist : World → Index → Table → Result (Unit {0}) × Table × World
  pub close : World → Result (Unit {0}) × World

abbrev pub journal : Media → Journal
journal M = record { World = M.World; append = M.append }

abbrev pub manifest_found : Option Bytes → Result Bytes
manifest_found none = err not_found
manifest_found (some raw) = ok raw

-- What the store relies on, in a state that is `Ready`: nothing fails, a manifest that is written
-- is read back until it is removed, and neither the journal nor a snapshot touches a manifest.
pub record IsSound (M : Media) : Type 1 where
  pub Ready : M.World → Type 0
  pub manifests : M.World → HashId → Option Bytes
  pub read_manifest_lem :
      (w : M.World) (id : HashId) → Ready w → M.read_manifest w id ≡ manifest_found (manifests w id)
  pub write_manifest_ok :
      (w : M.World) (id : HashId) (raw : Bytes) → Ready w → (M.write_manifest w id raw).0 ≡ ok tt
  pub write_manifest-Ready :
      (w : M.World) (id : HashId) (raw : Bytes) → Ready w → Ready (M.write_manifest w id raw).1
  pub manifests-write_manifest :
      (w : M.World) (id : HashId) (raw : Bytes) (j : HashId)
      → Ready w
      → manifests (M.write_manifest w id raw).1 j ≡ (if id =? j then some raw else manifests w j)
  pub remove_manifest_ok :
      (w : M.World) (id : HashId) → Ready w → (M.remove_manifest w id).0 ≡ ok tt
  pub remove_manifest-Ready :
      (w : M.World) (id : HashId) → Ready w → Ready (M.remove_manifest w id).1
  pub manifests-remove_manifest :
      (w : M.World) (id j : HashId)
      → Ready w
      → manifests (M.remove_manifest w id).1 j ≡ (if id =? j then none else manifests w j)
  pub append_ok :
      (w : M.World) (op : Op) (id : HashId) (n : ℕ) → Ready w → (M.append w op id n).0 ≡ ok tt
  pub append-Ready :
      (w : M.World) (op : Op) (id : HashId) (n : ℕ) → Ready w → Ready (M.append w op id n).1
  pub manifests-append :
      (w : M.World) (op : Op) (id : HashId) (n : ℕ) (j : HashId)
      → Ready w
      → manifests (M.append w op id n).1 j ≡ manifests w j
  pub persist_ok : (w : M.World) (x : Index) (t : Table) → Ready w → (M.persist w x t).0 ≡ ok tt
  pub persist_counts :
      (w : M.World) (x : Index) (t : Table) → Ready w → (M.persist w x t).1.counts ≡ t.counts
  pub persist-Ready : (w : M.World) (x : Index) (t : Table) → Ready w → Ready (M.persist w x t).2
  pub manifests-persist :
      (w : M.World) (x : Index) (t : Table) (j : HashId)
      → Ready w
      → manifests (M.persist w x t).2 j ≡ manifests w j

-- `memMan`: the manifests of a store in memory, by identifier. It has no journal and no snapshot,
-- so that `persist` returns at once.
unfoldable pub memory_write : Dict Bytes → HashId → Bytes → Result (Unit {0}) × Dict Bytes
memory_write raws id raw = (ok tt, Dict.insert id raw raws)

unfoldable pub memory_read : Dict Bytes → HashId → Result Bytes
memory_read raws id = manifest_found (Dict.lookup id raws)

unfoldable pub memory_remove : Dict Bytes → HashId → Result (Unit {0}) × Dict Bytes
memory_remove raws id = (ok tt, Dict.erase id raws)

abbrev pub memory_media : Media
memory_media = record {
  World = Dict Bytes;
  write_manifest = memory_write;
  read_manifest = memory_read;
  remove_manifest = memory_remove;
  append = λ w op id n. (ok tt, w);
  persist = λ w x t. (ok tt, t, w);
  close = λ w. (ok tt, w);
}

unfoldable pub memory_media-IsSound : IsSound memory_media
unfolding memory_write memory_read memory_remove
memory_media-IsSound = record {
  Ready = λ w. Unit {0};
  manifests = λ w id. Dict.lookup id w;
  read_manifest_lem = λ w id r. refl;
  write_manifest_ok = λ w id raw r. refl;
  write_manifest-Ready = λ w id raw r. tt;
  manifests-write_manifest = λ w id raw j r. lookup-insert id j raw w;
  remove_manifest_ok = λ w id r. refl;
  remove_manifest-Ready = λ w id r. tt;
  manifests-remove_manifest = λ w id j r. lookup-erase id j w;
  append_ok = λ w op id n r. refl;
  append-Ready = λ w op id n r. tt;
  manifests-append = λ w op id n j r. refl;
  persist_ok = λ w x t r. refl;
  persist_counts = λ w x t r. refl;
  persist-Ready = λ w x t r. tt;
  manifests-persist = λ w x t j r. refl;
}
