-- ===== src/Layout.antt =====
-- internal/layout: where things are in the directory of a store (paths.go), and files that are
-- written whole or not at all (atomic.go), over a file system whose calls may fail.
pub mod Paths
pub mod Settings
pub mod Whole
use go_shardblob.Base.{
  Bytes, Bool, true, false, Option, none, some, [], ◌∷◌, ◌++◌, take, drop, ◌=?◌, if◌then◌else◌,
}
use go_shardblob.Base.FilePath.{under, dir_of}
use go_shardblob.Base.Dict
use go_shardblob.Base.Dict.{Dict}
use go_shardblob.Base.Result.{Result, ok, err, io_failed, not_found, invalid}
pub use go_shardblob.Files.{
  Fate, Temp, Beside, Fs, failing, written, call, try_call, no_change, make_dir, new_temp,
  change_temp, newest, drop_temp, write_temp, sync_temp, move_temp, erase_file, works, fails,
}
use go_shardblob.Hashx.{HashId, codes}
use go_shardblob.Hashx.Ids.{hex}

-- `ChunkPath`, the `Join` of the root and `ChunkRel`
unfoldable pub chunk_path : Bytes → HashId → Bytes
chunk_path root id =
    let h = hex id in
    under root ++ (codes "chunks/" ++ (take 2 h ++ (47 ∷ (take 2 (drop 2 h) ++ (47 ∷ h)))))

-- `ManifestPath`
unfoldable pub manifest_path : Bytes → HashId → Bytes
manifest_path root id = under root ++ (codes "manifests/" ++ (hex id ++ codes ".mfs"))

-- `ConfigPath`, `IndexPath`, `RefsPath` and `JournalPath`
unfoldable pub config_path : Bytes → Bytes
config_path root = under root ++ codes "meta/config"

unfoldable pub index_path : Bytes → Bytes
index_path root = under root ++ codes "meta/index.bin"

unfoldable pub refs_path : Bytes → Bytes
refs_path root = under root ++ codes "meta/refs.bin"

unfoldable pub journal_path : Bytes → Bytes
journal_path root = under root ++ codes "meta/refs.journal"

abbrev stored : Option Bytes → Result Bytes
stored none = err not_found
stored (some d) = ok d

-- `os.Stat` and `os.ReadFile`; `not_found` is `os.IsNotExist`.
abbrev pub look : Fs → Bytes → Result Bytes × Fs
look fs path =
    let (bad, fs') = call fs in
    (if bad then err io_failed else stored (Dict.lookup path fs.files), fs')

abbrev is_fine : Result Bytes → Bool
is_fine (ok d) = true
is_fine (err e) = false

-- `Exists`
unfoldable pub exists : Fs → Bytes → Bool × Fs
exists fs path = let (r, fs') = look fs path in (is_fine r, fs')

-- `os.Remove` of the temporary file; an error is ignored.
abbrev pub remove_temp : Fs → Fs
remove_temp fs = (try_call fs drop_temp).1

-- `Write` to the temporary file, which may stop short.
abbrev pub try_write : Fs → Bytes → Result (Unit {0}) × Fs
try_write fs p =
    let (bad, fs') = call fs in
    if bad
    then (err io_failed, write_temp (take (written fs.plan) p) fs')
    else (ok tt, write_temp p fs')

-- A step of `WriteAtomic`: after a failure the temporary file goes.
abbrev pub or_clean_up :
    Result (Unit {0}) × Fs → (Fs → Result (Unit {0}) × Fs) → Result (Unit {0}) × Fs
or_clean_up (err e, fs) next = (err e, remove_temp fs)
or_clean_up (ok _, fs) next = next fs

abbrev pub or_stop : Result (Unit {0}) × Fs → (Fs → Result (Unit {0}) × Fs) → Result (Unit {0}) × Fs
or_stop (err e, fs) next = (err e, fs)
or_stop (ok _, fs) next = next fs

-- `WriteAtomic` after a failed `Rename`: if there is a file, that is taken for success.
unfoldable pub rename_failed : Bytes → Fs → Result (Unit {0}) × Fs
unfolding exists
rename_failed path fs =
    let (there_is, fs') = exists fs path in
    (if there_is then ok tt else err io_failed, remove_temp fs')

-- `os.Rename` of the temporary file.
unfoldable pub rename : Bytes → Fs → Result (Unit {0}) × Fs
unfolding rename_failed
rename path fs =
    let (bad, fs') = call fs in if bad then rename_failed path fs' else (ok tt, move_temp path fs')

-- After a failed `Write` or `Sync` the file is closed, whatever that returns.
abbrev pub or_close :
    Result (Unit {0}) × Fs → (Fs → Result (Unit {0}) × Fs) → Result (Unit {0}) × Fs
or_close (err e, fs) next = (err e, remove_temp (call fs).1)
or_close (ok _, fs) next = next fs

-- `WriteAtomic` from `Close`, from `Sync`, from `Write` and from `CreateTemp` on.
unfoldable pub close_on : Bytes → Fs → Result (Unit {0}) × Fs
unfolding rename
close_on path fs = or_clean_up (try_call fs no_change) (rename path)

unfoldable pub sync_on : Bytes → Fs → Result (Unit {0}) × Fs
unfolding close_on
sync_on path fs = or_close (try_call fs sync_temp) (close_on path)

unfoldable pub write_on : Bytes → Bytes → Fs → Result (Unit {0}) × Fs
unfolding sync_on
write_on path body fs = or_close (try_write fs body) (sync_on path)

unfoldable pub create_on : Bytes → Bytes → Fs → Result (Unit {0}) × Fs
unfolding write_on
create_on path body fs = or_stop (try_call fs new_temp) (write_on path body)

-- `WriteAtomic`, which begins with `MkdirAll`.
unfoldable pub write_atomic : Fs → Bytes → Bytes → Result (Unit {0}) × Fs
unfolding create_on
write_atomic fs path body = or_stop (try_call fs (make_dir (dir_of path))) (create_on path body)

-- `WriteAtomicExclusive`
unfoldable pub write_atomic_exclusive : Fs → Bytes → Bytes → Result (Unit {0}) × Fs
unfolding exists write_atomic
write_atomic_exclusive fs path body =
    let (there_is, fs') = exists fs path in
    if there_is then (ok tt, fs') else write_atomic fs' path body

-- `RemoveAllIfExist`: a file that is not there is no error.
unfoldable pub remove_if_exist : Fs → Bytes → Result (Unit {0}) × Fs
remove_if_exist fs path = try_call fs (erase_file path)

-- `EnsureRoot`: four directories.
unfoldable pub ensure_root : Fs → Bytes → Result (Unit {0}) × Fs
ensure_root fs root =
    let sub = λ (name : Bytes). make_dir (under root ++ name) in
    if root =? []
    then (err invalid, fs)
    else or_stop (try_call fs (make_dir root)) (λ s1.
      or_stop (try_call s1 (sub (codes "chunks"))) (λ s2.
        or_stop (try_call s2 (sub (codes "manifests"))) (λ s3. try_call s3 (sub (codes "meta")))))
