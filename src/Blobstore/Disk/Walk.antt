-- ===== src/Blobstore/Disk/Walk.antt =====
-- Which files of the directory are chunks: `OpenDisk`, `recount` and `List` (disk.go). The order of
-- `filepath.Walk` is an argument, and a walk fails as a whole.
use go_shardblob.Base.{
  Bytes, ℕ, ◌+◌, ◌-◌, Bool, false, ◌||◌, Option, none, some, List, [], ◌∷◌, ◌++◌, length, take,
  drop, ◌==◌, ◌=?◌, if◌then◌else◌,
}
use go_shardblob.Base.Dict.{Dict}
use go_shardblob.Base.Result.{Result, ok, err, ◌>>=◌, backend_closed, bad_hex, io_failed}
use go_shardblob.Hashx.{HashId, codes, from_slice}
use go_shardblob.Hashx.Ids.{hex_decode}
use go_shardblob.Base.FilePath.{under}
use go_shardblob.Layout.{Fs, call, ensure_root}
use go_shardblob.Blobstore.Disk.{Disk}

-- `strings.HasPrefix` and `strings.HasSuffix`
abbrev has_prefix : Bytes → Bytes → Bool
has_prefix p s = take (length p) s =? p

abbrev has_suffix : Bytes → Bytes → Bool
has_suffix p s = drop (length s - length p) s =? p

-- `FileInfo.Name`: what stands behind the last slash.
name_of : Bytes → Bytes → Bytes
name_of name [] = name
name_of name (c ∷ cs) =
    let inner = name_of [] cs in
    let more = name_of (name ++ (c ∷ [])) cs in if c == 47 then inner else more

-- The names that the two callbacks go on with.
unfoldable pub is_chunk_name : Bytes → Bool
is_chunk_name name =
    if has_prefix (codes ".") name || has_suffix (codes ".tmp") name
    then false
    else length name == 64

-- The files below the directory of the chunks, with their names and contents.
chunk_files : Bytes → Dict Bytes → List (Bytes × Bytes)
unfolding name_of
chunk_files root [] = []
chunk_files root ((path, body) ∷ files) =
    let rest = chunk_files root files in
    if has_prefix (under root ++ codes "chunks/") path then (name_of [] path, body) ∷ rest else rest

-- The walk of `recount`: the number of chunks and their bytes.
unfoldable pub count_files : List (Bytes × Bytes) → ℕ × ℕ
unfolding is_chunk_name
count_files [] = (0, 0)
count_files ((name, body) ∷ files) =
    let (n, size) = count_files files in
    if is_chunk_name name then (n + 1, size + length body) else (n, size)

-- `recount`
unfoldable pub recount : Bytes → Disk → Result (Unit {0}) × Disk
unfolding count_files chunk_files
recount root d =
    let (bad, fs) = call d.fs in
    let (n, size) = count_files (chunk_files root fs.files) in
    if bad
    then (err io_failed, record d { fs = fs })
    else (ok tt, record d { fs = fs; nfile = n; nbytes = size })

unfoldable pub recounted : Bytes → Result (Unit {0}) × Fs → Result Disk × Fs
unfolding recount
recounted root (err e, fs) = (err e, fs)
recounted root (ok _, fs) =
    let (r, d) = recount root (record { fs = fs; nbytes = 0; nfile = 0; is_closed = false }) in
    (r >>= λ u. ok d, d.fs)

-- `OpenDisk`
unfoldable pub open_disk : Bytes → Fs → Result Disk × Fs
unfolding recounted
open_disk root fs = recounted root (ensure_root fs root)

id_of_name : Option Bytes → Result HashId
id_of_name none = err bad_hex
id_of_name (some raw) = from_slice raw

-- The walk of `List`: how it ends, and the identifiers that the callback has got by then.
unfoldable pub ids_of_files : List (Bytes × Bytes) → Result (Unit {0}) × List HashId
unfolding is_chunk_name id_of_name
ids_of_files [] = (ok tt, [])
ids_of_files ((name, body) ∷ files) =
    let (r, ids) = ids_of_files files in
    if is_chunk_name name
    then elim (id_of_name (hex_decode name)) [ err e ↦ (err e, []) | ok id ↦ (r, id ∷ ids) ]
    else (r, ids)

-- `List`, with a callback that keeps what it gets.
unfoldable pub list :
    Bytes
    → (List (Bytes × Bytes) → List (Bytes × Bytes))
    → Disk
    → Result (Unit {0}) × List HashId × Disk
unfolding ids_of_files chunk_files
list root order d =
    let (bad, fs) = call d.fs in
    let (r, ids) = ids_of_files (order (chunk_files root fs.files)) in
    if d.is_closed
    then (err backend_closed, [], d)
    else if bad
    then (err io_failed, [], record d { fs = fs })
    else (r, ids, record d { fs = fs })
