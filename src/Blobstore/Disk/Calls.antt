-- ===== src/Blobstore/Disk/Calls.antt =====
-- What one call does to a disk on which no call of the operating system fails (disk.go).
use go_shardblob.Base.{
  Bytes, ℕ, ◌+◌, ◌-◌, ◌≡◌, refl, arith, Bool, false, none, some, [], ◌∷◌, length, if◌then◌else◌,
}
use go_shardblob.Base.Dict
use go_shardblob.Base.Dict.{
  Dict, NodupKeys, total, lookup-insert, lookup-erase, lookup-nil, present,
}
use go_shardblob.Base.Result.{ok}
use go_shardblob.Hashx.{HashId}
use go_shardblob.Base.FilePath.{dir_of}
use go_shardblob.Layout.{
  Beside, make_dir, exists, chunk_path, write_atomic_exclusive, write_atomic, create_on, write_on,
  sync_on, close_on, rename,
}
use go_shardblob.Layout.Paths.{chunk_path-eq}
use go_shardblob.Blobstore.Memory.{Memory}
use go_shardblob.Blobstore.Disk.{Disk, put, delete, remove_found}

-- A disk on which no call is going to fail.
abbrev pub disk_of : Dict Bytes → Beside → ℕ → ℕ → Bool → Disk
disk_of files beside nbytes nfile is_closed = record {
  fs = record { files = files; beside = beside; plan = [] };
  nbytes = nbytes;
  nfile = nfile;
  is_closed = is_closed;
}

abbrev pub memory_of : Dict Bytes → ℕ → Bool → Memory
memory_of blobs nbytes is_closed = record { blobs = blobs; nbytes = nbytes; is_closed = is_closed }

-- Files and chunks are the same, and are counted.
pub record IsMirror (root : Bytes) (files : Dict Bytes) (nfile : ℕ) (blobs : Dict Bytes)
    : Type 0 where
  pub same :
      (id : HashId) → length id ≡ 32 → Dict.lookup (chunk_path root id) files ≡ Dict.lookup id blobs
  pub counted : nfile ≡ length blobs
  pub nodup : NodupKeys blobs

-- What a write and a removal do beside the files.
abbrev pub beside_erase : Bytes → Beside → Beside
beside_erase path t = record t { durable = Dict.erase path t.durable }

abbrev pub beside_write : Bytes → Bytes → Beside → Beside
beside_write path p t =
    let t' = (make_dir (dir_of path) (record { files = []; beside = t; plan = [] })).beside in
    record t' { durable = Dict.insert path p t'.durable }

-- The disk has what the memory has.
pub record Mirrors (root : Bytes) (d : Disk) (m : Memory) : Type 0 where
  pub files : Dict Bytes
  pub beside : Beside
  pub nfile : ℕ
  pub shape : d ≡ disk_of files beside m.nbytes nfile m.is_closed
  pub mirror : IsMirror root files nfile m.blobs

length-erase :
    (id : Bytes) (d : Dict Bytes)
    → NodupKeys d
    → length (Dict.erase id d) + (if present (Dict.lookup id d) then 1 else 0) ≡ length d
unfolding Dict.erase Dict.lookup
length-erase id [] h = omega arith
length-erase id ((k, x) ∷ d) (fresh, h) =
    let rest = length-erase id d h in
    let gone = length-erase k d h in ground (arith, rest, gone, lookup-erase id k d)

module _ (root : Bytes) (files : Dict Bytes) (nf : ℕ) (blobs : Dict Bytes)
    (v : IsMirror root files nf blobs) (id : HashId) (wide : length id ≡ 32) where
  pub IsMirror-insert :
      (p : Bytes)
      → Dict.lookup id blobs ≡ none
      → IsMirror root (Dict.insert (chunk_path root id) p files) (nf + 1) (Dict.insert id p blobs)
  IsMirror-insert p missing = record {
    same = λ j w. ground (
      arith,
      lookup-insert (chunk_path root id) (chunk_path root j) p files,
      lookup-insert id j p blobs,
      chunk_path-eq root id j wide w,
      v.same j w,
    );
    counted =
        (unfold Dict.insert in ground (arith, length-erase id blobs v.nodup, missing, v.counted));
    nodup = Dict.insert-NodupKeys id p blobs v.nodup;
  }

  pub IsMirror-erase :
      (old : Bytes)
      → Dict.lookup id blobs ≡ some old
      → IsMirror root (Dict.erase (chunk_path root id) files) (nf - 1) (Dict.erase id blobs)
  IsMirror-erase old there_is = record {
    same = λ j w. ground (
      arith,
      lookup-erase (chunk_path root id) (chunk_path root j) files,
      lookup-erase id j blobs,
      chunk_path-eq root id j wide w,
      v.same j w,
    );
    counted = ground (arith, length-erase id blobs v.nodup, there_is, v.counted);
    nodup = Dict.erase-NodupKeys id blobs v.nodup;
  }

module _ (root : Bytes) (files : Dict Bytes) (t : Beside) (nb nf : ℕ) (id : HashId) where
  pub put_new :
      (p : Bytes)
      → Dict.lookup (chunk_path root id) files ≡ none
      → put root (disk_of files t nb nf false) id p ≡ (
        ok tt,
        disk_of
            (Dict.insert (chunk_path root id) p files)
            (beside_write (chunk_path root id) p t)
            (nb + length p)
            (nf + 1)
            false,
      )
  unfolding put exists write_atomic_exclusive write_atomic create_on write_on sync_on close_on
      rename
  put_new p missing = rw missing refl

  pub put_old :
      (p old : Bytes)
      → Dict.lookup (chunk_path root id) files ≡ some old
      → put root (disk_of files t nb nf false) id p ≡ (ok tt, disk_of files t nb nf false)
  unfolding put exists
  put_old p old there_is = rw there_is refl

  pub delete_new :
      Dict.lookup (chunk_path root id) files ≡ none
      → delete root (disk_of files t nb nf false) id ≡ (ok tt, disk_of files t nb nf false)
  unfolding delete
  delete_new missing = rw missing refl

  pub delete_old :
      (old : Bytes)
      → Dict.lookup (chunk_path root id) files ≡ some old
      → delete root (disk_of files t nb nf false) id ≡ (
        ok tt,
        disk_of
            (Dict.erase (chunk_path root id) files)
            (beside_erase (chunk_path root id) t)
            (nb - length old)
            (nf - 1)
            false,
      )
  unfolding delete remove_found
  delete_old old there_is = rw there_is refl
