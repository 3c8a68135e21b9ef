-- ===== src/Blobstore/Disk.antt =====
-- internal/blobstore/disk.go: the backend on disk, over files whose calls may fail.
pub mod Calls
pub mod Walk
pub mod Refines
use go_shardblob.Base.{
  Bytes, ℕ, ◌+◌, ◌-◌, Bool, true, false, ◌||◌, not, Option, none, some, List, [], ◌∷◌, ◌++◌, length,
  take, drop, ◌==◌, ◌=?◌, if◌then◌else◌, map,
}
use go_shardblob.Base.Dict
use go_shardblob.Base.Dict.{Dict}
use go_shardblob.Base.Result.{
  Result, ok, err, Error, ◌>>=◌, backend_closed, not_found, chunk_not_found, bad_hex,
}
use go_shardblob.Hashx.{HashId, codes, from_slice}
use go_shardblob.Hashx.Ids.{hex_decode}
use go_shardblob.Layout.{
  erase_file, Fs, call, try_call, look, exists, chunk_path, write_atomic_exclusive, ensure_root,
  failing,
}

-- `Disk`: the files, the counters, which are int64 and taken as never below 0, and whether it is
-- closed.
pub record Disk : Type 0 where
  pub fs : Fs
  pub nbytes : ℕ
  pub nfile : ℕ
  pub is_closed : Bool

-- An absent file is an absent chunk.
abbrev pub missing_chunk_of : Result Bytes → Result Bytes
missing_chunk_of (ok d) = ok d
missing_chunk_of (err not_found) = err chunk_not_found
missing_chunk_of (err e) = err e

abbrev pub guarded {ℓ} : {A : Type ℓ} → Disk → Result A × Disk → Result A × Disk
guarded d r = if d.is_closed then (err backend_closed, d) else r

module _ (root : Bytes) where
  -- `Put` after its write.
  abbrev pub counted : Disk → ℕ → Result (Unit {0}) × Fs → Result (Unit {0}) × Disk
  counted d n (err e, fs) = (err e, record d { fs = fs })
  counted d n (ok _, fs) = (ok tt, record d { fs = fs; nbytes = d.nbytes + n; nfile = d.nfile + 1 })

  -- `Put`
  unfoldable pub put : Disk → HashId → Bytes → Result (Unit {0}) × Disk
  unfolding exists write_atomic_exclusive
  put d id p =
      let path = chunk_path root id in
      let (there_is, fs1) = exists d.fs path in
      guarded d (
        if there_is
        then (ok tt, record d { fs = fs1 })
        else counted d (length p) (write_atomic_exclusive fs1 path p))

  -- `Get`
  unfoldable pub get : Disk → HashId → Result Bytes × Disk
  get d id =
      let (r, fs1) = look d.fs (chunk_path root id) in
      guarded d (missing_chunk_of r, record d { fs = fs1 })

  -- `Has`
  unfoldable pub has : Disk → HashId → Result Bool × Disk
  unfolding exists
  has d id =
      let (b, fs1) = exists d.fs (chunk_path root id) in guarded d (ok b, record d { fs = fs1 })

  -- `os.Remove` of a chunk that is there, and the counters.
  unfoldable pub remove_found : Disk → Bytes → ℕ → Fs → Result (Unit {0}) × Disk
  remove_found d path size fs =
      let (r, fs2) = try_call fs (erase_file path) in
      elim r [
        | err e ↦ (err e, record d { fs = fs2 })
        | ok _ ↦ (ok tt, record d { fs = fs2; nbytes = d.nbytes - size; nfile = d.nfile - 1 })
      ]

  -- `Delete` after `os.Stat`.
  abbrev pub delete_at : Disk → Bytes → Result Bytes × Fs → Result (Unit {0}) × Disk
  delete_at d path (ok old, fs1) = remove_found d path (length old) fs1
  delete_at d path (err not_found, fs1) = (ok tt, record d { fs = fs1 })
  delete_at d path (err e, fs1) = (err e, record d { fs = fs1 })

  -- `Delete`
  unfoldable pub delete : Disk → HashId → Result (Unit {0}) × Disk
  unfolding remove_found
  delete d id = let path = chunk_path root id in guarded d (delete_at d path (look d.fs path))

-- `Bytes`, `Count` and `Close`
unfoldable pub bytes : Disk → ℕ
bytes d = d.nbytes

unfoldable pub count : Disk → ℕ
count d = d.nfile

unfoldable pub close : Disk → Result (Unit {0}) × Disk
close d = (ok tt, record d { is_closed = true })
