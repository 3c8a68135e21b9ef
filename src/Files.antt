-- ===== src/Files.antt =====
-- The files of an operating system, as layout and the backend on disk use them through package os:
-- calls that may fail, and temporary files.
use go_shardblob.Base.{Bytes, ℕ, Bool, true, false, List, [], ◌∷◌, ◌++◌, contains, if◌then◌else◌}
use go_shardblob.Base.Dict
use go_shardblob.Base.Dict.{Dict}
use go_shardblob.Base.Result.{Result, ok, err, io_failed}

-- How a call of the operating system goes: it works, or it fails, a `Write` after so many bytes.
pub data Fate : Type 0 where
  works : Fate
  fails : ℕ → Fate

-- A temporary file: what was written to it, and what of that is on the disk since the last `Sync`.
pub record Temp : Type 0 where
  pub bytes : Bytes
  pub synced : Bytes

-- What stands beside the files: the temporary files, the newest first, which have names of their own
-- that nothing else opens; what a power failure would leave of the files, where a rename or a removal
-- lasts at once; and the directories that were made, each with those above it.
pub record Beside : Type 0 where
  pub temps : List Temp
  pub durable : Dict Bytes
  pub dirs : List Bytes

-- The files by their paths, what is beside them, and how the next calls of the operating system go;
-- when that list is at its end, they work.
pub record Fs : Type 0 where
  pub files : Dict Bytes
  pub beside : Beside
  pub plan : List Fate

abbrev pub failing : List Fate → Bool
failing [] = false
failing (works ∷ fates) = false
failing (fails k ∷ fates) = true

-- How much a failing `Write` still writes.
abbrev pub written : List Fate → ℕ
written [] = 0
written (works ∷ fates) = 0
written (fails k ∷ fates) = k

abbrev later : List Fate → List Fate
later [] = []
later (b ∷ bs) = bs

-- Whether this call fails, and the file system for the next.
abbrev pub call : Fs → Bool × Fs
call fs = (failing fs.plan, record fs { plan = later fs.plan })

-- A call that fails, or does what it says.
abbrev pub try_call : Fs → (Fs → Fs) → Result (Unit {0}) × Fs
try_call fs does =
    let (bad, fs') = call fs in if bad then (err io_failed, fs') else (ok tt, does fs')

abbrev pub no_change : Fs → Fs
no_change fs = fs

-- `MkdirAll`
abbrev pub make_dir : Bytes → Fs → Fs
make_dir path fs = record fs {
  beside = record fs.beside {
    dirs = if contains fs.beside.dirs path then fs.beside.dirs else path ∷ fs.beside.dirs;
  };
}

-- The newest temporary file: it is made, changed, or taken away.
abbrev pub new_temp : Fs → Fs
new_temp fs = record fs {
  beside = record fs.beside { temps = record { bytes = []; synced = [] } ∷ fs.beside.temps };
}

abbrev at_first : (Temp → Temp) → List Temp → List Temp
at_first change [] = []
at_first change (t ∷ ts) = change t ∷ ts

abbrev pub change_temp : (Temp → Temp) → Fs → Fs
change_temp change fs = record fs {
  beside = record fs.beside { temps = at_first change fs.beside.temps };
}

abbrev pub newest : List Temp → Temp
newest [] = record { bytes = []; synced = [] }
newest (t ∷ ts) = t

abbrev older : List Temp → List Temp
older [] = []
older (t ∷ ts) = ts

abbrev pub drop_temp : Fs → Fs
drop_temp fs = record fs { beside = record fs.beside { temps = older fs.beside.temps } }

abbrev pub write_temp : Bytes → Fs → Fs
write_temp p fs = change_temp (λ t. record t { bytes = t.bytes ++ p }) fs

abbrev pub sync_temp : Fs → Fs
sync_temp fs = change_temp (λ t. record t { synced = t.bytes }) fs

-- The newest temporary file takes the place of a file.
abbrev pub move_temp : Bytes → Fs → Fs
move_temp path fs =
    let t = newest fs.beside.temps in
    drop_temp (record fs {
      files = Dict.insert path t.bytes fs.files;
      beside = record fs.beside { durable = Dict.insert path t.synced fs.beside.durable };
    })

-- `os.Remove` of a file that is there, or not.
abbrev pub erase_file : Bytes → Fs → Fs
erase_file path fs = record fs {
  files = Dict.erase path fs.files;
  beside = record fs.beside { durable = Dict.erase path fs.beside.durable };
}
