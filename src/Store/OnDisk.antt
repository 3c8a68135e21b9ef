-- ===== src/Store/OnDisk.antt =====
-- Open (store.go), the configuration file (config.go) and `persist` (store.go) for a store on disk.
-- The JSON text of the configuration is a parameter.
pub mod Calm
pub mod Reopened
pub mod Twice
use go_shardblob.Base.{
  Bytes, ℕ, false, Option, none, some, List, [], ◌∷◌, ◌++◌, length, ◌=?◌, if◌then◌else◌,
}
use go_shardblob.Base.Dict
use go_shardblob.Base.Dict.{Dict}
use go_shardblob.Base.Result.{Result, ok, err, Error, ◌>>=◌, invalid, not_found, io_failed}
use go_shardblob.Hashx.{HashId, Algo}
use go_shardblob.Hashx.Registry.{Registry, find}
use go_shardblob.Chunk.Reader.{Reader}
use go_shardblob.Layout.{
  Fs, call, look, write_atomic, ensure_root, config_path, index_path, refs_path, journal_path,
}
use go_shardblob.Layout.Settings.{Settings, compatible}
use go_shardblob.Blobstore.Disk.{Disk}
use go_shardblob.Blobstore.Disk.Walk.{open_disk}
use go_shardblob.Refcount.{Table, mark_clean}
use go_shardblob.Refcount.Log.{LogFile, Outcome, truncate, open_log, replay, Replayed}
use go_shardblob.Refcount
use go_shardblob.Index.{Index}
use go_shardblob.Index
use go_shardblob.Store.{is_cdc_mode}
use go_shardblob.Store.Opening.{Options, Setting, default_options, apply}

-- A `Store` with a directory. The files are those of its backend, but for the journal, which the
-- store has open.
pub record DiskStore : Type 0 where
  pub options : Options
  pub algo : Algo
  pub disk : Disk
  pub refs : Table
  pub index : Index
  pub log : LogFile

-- A step that may fail, and then another.
abbrev pub and_then {ℓ κ} :
    {A : Type ℓ} {B : Type κ}
    → Result A × Fs
    → (A → Fs → Option (Result B × Fs))
    → Option (Result B × Fs)
and_then (err e, fs) next = some (err e, fs)
and_then (ok a, fs) next = next a fs

-- An absent file is no error.
abbrev pub if_there : Result Bytes → Result (Option Bytes)
if_there (ok b) = ok (some b)
if_there (err not_found) = ok none
if_there (err e) = err e

-- The configuration that `Open` asks for.
abbrev pub want_of : Options → Settings
want_of o = record {
  algo = o.algo_name;
  chunk_size = o.policy.avg;
  with_cdc = is_cdc_mode o.policy.mode;
}

-- `index.Load` and `refcount.Load` of the files in the directory.
unfoldable pub load_index : Bytes → Fs → Result Index × Fs
load_index root fs =
    let (r, fs1) = look fs (index_path root) in (Index.Snapshot.load (if_there r), fs1)

unfoldable pub load_refs : Bytes → Fs → Result Table × Fs
load_refs root fs =
    let (r, fs1) = look fs (refs_path root) in (Refcount.Snapshot.load (if_there r), fs1)

-- `OpenJournal`: the bytes of the file, which is made if it is not there.
abbrev journal_found : Bytes → Fs → Option Bytes → Result Bytes × Fs
journal_found path fs (some b) = (ok b, fs)
journal_found path fs none = (
  ok [],
  record fs {
    files = Dict.insert path [] fs.files;
    beside = record fs.beside { durable = Dict.insert path [] fs.beside.durable };
  },
)

unfoldable pub open_journal : Bytes → Fs → Result Bytes × Fs
open_journal root fs =
    let (bad, fs1) = call fs in
    let path = journal_path root in
    if bad then (err io_failed, fs1) else journal_found path fs1 (Dict.lookup path fs1.files)

abbrev pub reader_of : Bytes → Reader
reader_of b = record { bursts = b ∷ []; ending = none; together = false }

-- `Open` after `Replay`, which leaves the handle at the end of the file; `plan` is how the writes to
-- the journal will go.
abbrev pub replayed :
    List Outcome
    → Options
    → Algo
    → Disk
    → Index
    → Bytes
    → Fs
    → Replayed
    → Option (Result DiskStore × Fs)
replayed plan o a d x b fs none = none
replayed plan o a d x b fs (some (err e, t)) = some (err e, fs)
replayed plan o a d x b fs (some (ok _, t)) = some (
  ok (record {
    options = o;
    algo = a;
    disk = record d { fs = fs };
    refs = t;
    index = x;
    log = record (open_log b) { pos = length b; plan = plan };
  }),
  fs,
)

-- `Open` from `OpenDisk` on.
unfoldable pub open_parts :
    Bytes → List Outcome → Options → Algo → Fs → Option (Result DiskStore × Fs)
unfolding load_index load_refs open_journal
open_parts root plan o a fs = and_then (open_disk root fs) (λ d fs2.
    and_then (load_index root fs2) (λ x fs3. and_then (load_refs root fs3) (λ t fs4.
      and_then (open_journal root fs4)
        (λ b fs5. replayed plan o a d x b fs5 (replay (reader_of b) t)))))

module _ (to_json : Settings → Bytes) (of_json : Bytes → Result Settings) where
  abbrev pub parsed_config : Option Bytes → Result (Option Settings)
  parsed_config none = ok none
  parsed_config (some b) = of_json b >>= λ c. ok (some c)

  -- `LoadConfig`
  unfoldable pub load_config : Bytes → Fs → Result (Option Settings) × Fs
  load_config root fs =
      let (r, fs1) = look fs (config_path root) in (if_there r >>= parsed_config, fs1)

  -- `SaveConfig`
  unfoldable pub save_config : Bytes → Settings → Fs → Result (Unit {0}) × Fs
  save_config root c fs = write_atomic fs (config_path root) (to_json c ++ (10 ∷ []))

  -- `Open` after `LoadConfig`.
  unfoldable pub agree : Bytes → Settings → Option Settings → Fs → Result (Unit {0}) × Fs
  unfolding save_config
  agree root want none fs = save_config root want fs
  agree root want (some have) fs = (compatible have want, fs)

  module _ (fold : Bytes → Bytes) (reg : Registry) where
    -- `Open`; `none` means that the replay ran out of fuel.
    unfoldable pub open_store :
        Bytes → List Setting → List Outcome → Fs → Option (Result DiskStore × Fs)
    unfolding load_config agree open_parts
    open_store root xs plan fs =
        if root =? []
        then some (err invalid, fs)
        else and_then (apply fold reg default_options xs, fs)
            (λ o fs0. and_then (ensure_root fs0 root) (λ u fs1.
              and_then (load_config root fs1) (λ have fs2.
                and_then (agree root (want_of o) have fs2) (λ v fs3.
                  and_then (find fold reg o.algo_name, fs3)
                    (λ a fs4. open_parts root plan o a fs4)))))

-- `persist` from `refcount.Save` on, and from `Truncate` on.
unfoldable pub emptied : DiskStore → Result (Unit {0}) × Fs → Result (Unit {0}) × DiskStore
emptied s (err e, fs) = (err e, record s { disk = record s.disk { fs = fs } })
emptied s (ok _, fs) =
    let (r, log) = truncate s.log in
    let s' : DiskStore = record s { disk = record s.disk { fs = fs }; log = log } in
    elim r [ err e ↦ (err e, s') | ok _ ↦ (ok tt, record s' { refs = mark_clean s.refs }) ]

unfoldable pub save_refs :
    Bytes → (Dict ℕ → Dict ℕ) → DiskStore → Result (Unit {0}) × Fs → Result (Unit {0}) × DiskStore
unfolding emptied
save_refs root order s (err e, fs) = (err e, record s { disk = record s.disk { fs = fs } })
save_refs root order s (ok _, fs) =
    emptied s (write_atomic fs (refs_path root) (Refcount.Snapshot.save order s.refs))

-- `persist`
unfoldable pub persist :
    Bytes
    → (List HashId → List HashId)
    → (Dict ℕ → Dict ℕ)
    → DiskStore
    → Result (Unit {0}) × DiskStore
unfolding save_refs
persist root order_x order_t s =
    save_refs root order_t s
      (write_atomic s.disk.fs (index_path root) (Index.Snapshot.save order_x s.index))

-- What another `Open` finds: the files, with the journal among them.
abbrev pub at_rest : Bytes → DiskStore → Fs
at_rest root s = record s.disk.fs {
  files = Dict.insert (journal_path root) s.log.bytes s.disk.fs.files;
}
