-- ===== src/Store/OnDisk/Reopened.antt =====
-- A store on disk that is persisted and opened again (store.go).
use go_shardblob.Base.{
  Bytes, ℕ, ◌<◌, ◌^◌, ◌≡◌, ◌≢◌, refl, ap, ◌∙◌, arith, false, some, List, [], length, ◌=?◌, IsOrder,
}
use go_shardblob.Base.Dict
use go_shardblob.Base.Dict.{Dict, lookup-insert}
use go_shardblob.Base.Snapshot.{IsIteration}
use go_shardblob.Base.Result.{Result, ok, err, config, io_failed}
use go_shardblob.Hashx.{HashId, Algo}
use go_shardblob.Hashx.Registry.{Registry, find}
use go_shardblob.Blobstore.Disk.Calls.{beside_write}
use go_shardblob.Layout.{Beside, Fs, write_atomic, config_path, index_path, refs_path}
use go_shardblob.Layout.Settings.{Settings, compatible, compatible_iff}
use go_shardblob.Refcount
use go_shardblob.Refcount.Log.{LogFile, later, Outcome, fine, short, outcome, truncate, replay}
use go_shardblob.Refcount.Snapshot.{load-save_counts}
use go_shardblob.Index
use go_shardblob.Index.{Index}
use go_shardblob.Index.Snapshot.{IsStored, load-save_records}
use go_shardblob.Store.Opening.{Options, Setting, default_options, apply}
use go_shardblob.Store.OnDisk.{
  DiskStore, want_of, open_parts, load_config, agree, open_store, emptied, save_refs, persist,
  at_rest, and_then, reader_of,
}
use go_shardblob.Store.OnDisk.Calm.{
  calm, write_calm, kept, lookup_journal, lookup_refs, lookup_index, lookup_config, root_stays,
  replay_nothing, rooted, parts_open,
}

-- No call is going to fail.
abbrev pub IsCalm : Fs → Type 0
IsCalm fs = fs.plan ≡ []

calm_of : (fs : Fs) → IsCalm fs → fs ≡ calm fs.files fs.beside
calm_of fs h = ap (λ p. record fs { plan = p }) h

truncate_works :
    (f : LogFile)
    → outcome f.plan ≡ fine
    → truncate f ≡ (ok tt, record { bytes = []; pos = 0; plan = later f.plan })
unfolding truncate
truncate_works f h = rw (truncate, h) refl

truncate_stops :
    (f : LogFile)
    → outcome f.plan ≡ short 0
    → truncate f ≡ (err io_failed, record f { plan = later f.plan })
unfolding truncate
truncate_stops f h = rw (truncate, h) refl

module _ (root : Bytes) (order_x : List HashId → List HashId) (order_t : Dict ℕ → Dict ℕ)
    (s : DiskStore) where
  abbrev index_bytes : Bytes
  index_bytes = Index.Snapshot.save order_x s.index

  abbrev refs_bytes : Bytes
  refs_bytes = Refcount.Snapshot.save order_t s.refs

  -- Beside the files, after the two snapshots.
  abbrev saved : Beside
  saved =
      beside_write (refs_path root) refs_bytes
        (beside_write (index_path root) index_bytes s.disk.fs.beside)

  -- What another `Open` finds if `persist` leaves these bytes in the journal.
  abbrev left : Bytes → Fs
  left jb = calm (kept root s.disk.fs.files index_bytes refs_bytes jb) saved

  persist_saves :
      IsCalm s.disk.fs
      → persist root order_x order_t s
        ≡ emptied s (
          ok tt,
          calm
              (Dict.insert
                (refs_path root)
                refs_bytes
                (Dict.insert (index_path root) index_bytes s.disk.fs.files))
              saved,
        )
  unfolding persist save_refs
  persist_saves h =
      let fs = s.disk.fs in
      let first =
        ap (λ w. write_atomic w (index_path root) index_bytes) (calm_of fs h)
        ∙ write_calm fs.files fs.beside (index_path root) index_bytes in
      let second =
        write_calm (Dict.insert (index_path root) index_bytes fs.files)
          (beside_write (index_path root) index_bytes fs.beside) (refs_path root) refs_bytes in
      rw (first, second) refl

  pub persist_works :
      IsCalm s.disk.fs
      → outcome s.log.plan ≡ fine
      → let (r, s') = persist root order_x order_t s in (r ≡ ok tt) × (at_rest root s' ≡ left [])
  unfolding emptied
  persist_works h done =
      rw (persist_saves h, emptied, truncate_works s.log done)
        (refl, ap (λ x. left x.1.bytes) (truncate_works s.log done))

  pub persist_stops :
      IsCalm s.disk.fs
      → outcome s.log.plan ≡ short 0
      → let (r, s') = persist root order_x order_t s in
        (r ≡ err io_failed) × (at_rest root s' ≡ left s.log.bytes)
  unfolding emptied
  persist_stops h stopped =
      rw (persist_saves h, emptied, truncate_stops s.log stopped)
        (refl, ap (λ x. left x.1.bytes) (truncate_stops s.log stopped))

refused : (have want : Settings) → have ≢ want → compatible have want ≡ err config
refused have want other =
    let (to, from) = compatible_iff have want in
    let no = λ (e : compatible have want ≡ ok tt). other (to e) in
    (unfold compatible in ground (arith, no))

module _ (to_json : Settings → Bytes) (of_json : Bytes → Result Settings) (fold : Bytes → Bytes)
    (reg : Registry) (root : Bytes) (xs : List Setting) (o : Options) where
  -- `Open` gets as far as the configuration, which is there.
  reaches_config :
      (plan : List Outcome) (files : Dict Bytes) (t : Beside) (raw : Bytes) (have : Settings)
      → (root =? []) ≡ false
      → apply fold reg default_options xs ≡ ok o
      → Dict.lookup (config_path root) files ≡ some raw
      → of_json raw ≡ ok have
      → open_store to_json of_json fold reg root xs plan (calm files t)
        ≡ and_then
            (compatible have (want_of o), calm files (rooted root t))
            (λ v fs3.
              and_then (find fold reg o.algo_name, fs3) (λ a fs4. open_parts root plan o a fs4))
  unfolding open_store load_config agree
  reaches_config plan files t raw have named known at_config parsed =
      rw (named, known, root_stays root named files t, at_config, parsed) refl

  -- Where no call of the operating system fails, the directory has a name, the options are accepted, and
  -- the configuration file is there and is parsed: a store that was made with other settings is not
  -- opened, the error is that of the configuration, and no file is changed. The four directories of a
  -- store are made, if they are not there, and nothing else.
  pub other_settings_refused :
      (plan : List Outcome) (files : Dict Bytes) (t : Beside) (raw : Bytes) (have : Settings)
      → (root =? []) ≡ false
      → apply fold reg default_options xs ≡ ok o
      → Dict.lookup (config_path root) files ≡ some raw
      → of_json raw ≡ ok have
      → have ≢ want_of o
      → open_store to_json of_json fold reg root xs plan (calm files t)
        ≡ some (err config, calm files (rooted root t))
  other_settings_refused plan files t raw have named known at_config parsed other =
      rw
        (
          reaches_config plan files t raw have named known at_config parsed,
          refused have (want_of o) other,
        )
        refl

  -- The store as another `Open` finds it, with its configuration, is opened: with the records and the
  -- counts, as the journal changes them.
  pub left_opens :
      (plan : List Outcome) (s : DiskStore) (a : Algo) (raw jb : Bytes)
      (order_x : List HashId → List HashId) (order_t : Dict ℕ → Dict ℕ) (x : Index)
      (c c' : Refcount.Table)
      → (root =? []) ≡ false
      → apply fold reg default_options xs ≡ ok o
      → find fold reg o.algo_name ≡ ok a
      → Dict.lookup (config_path root) s.disk.fs.files ≡ some raw
      → of_json raw ≡ ok (want_of o)
      → Index.Snapshot.load (ok (some (Index.Snapshot.save order_x s.index))) ≡ ok x
      → Refcount.Snapshot.load (ok (some (Refcount.Snapshot.save order_t s.refs))) ≡ ok c
      → replay (reader_of jb) c ≡ some (ok tt, c')
      → (s2 : DiskStore) × (fs : Fs) × (open_store to_json of_json fold reg root xs plan
            (left root order_x order_t s jb)
          ≡ some (ok s2, fs))
        × (s2.index ≡ x)
        × (s2.refs ≡ c')
  left_opens plan s a raw jb order_x order_t x c c' named known algo at_config parsed read_index
        read_refs played =
      let F = s.disk.fs.files in
      let ib = Index.Snapshot.save order_x s.index in
      let rb = Refcount.Snapshot.save order_t s.refs in
      let t = saved root order_x order_t s in
      let (s2, fs, opened, is_x, is_c) =
        parts_open root named (kept root F ib rb jb) (rooted root t) plan o a ib rb jb x c c'
          (lookup_index root F ib rb jb) (lookup_refs root F ib rb jb)
          (lookup_journal root F ib rb jb) read_index read_refs played in
      let at_config' = lookup_config root F ib rb jb ∙ at_config in
      let reaches =
        reaches_config plan (kept root F ib rb jb) t raw (want_of o) named known at_config'
          parsed in
      let agrees = (compatible_iff (want_of o) (want_of o)).1 refl in
      (s2, fs, rw (reaches, agrees, algo) opened, is_x, is_c)

  -- Let the directory have a name, the options be accepted, their algorithm be registered, and the
  -- configuration file be there, be parsed, and say what the options ask for; let every record stand
  -- under its own identifier, records and counts fit their formats, also in number, and each map be
  -- iterated over every entry once. Where no call of the operating system fails, neither on the files
  -- nor on the journal, `persist` succeeds, and `Open` of what it leaves succeeds, with every record of
  -- the index and every count as they were.
  pub open_store-persist :
      (plan : List Outcome) (s : DiskStore) (a : Algo) (raw : Bytes)
      (order_x : List HashId → List HashId) (order_t : Dict ℕ → Dict ℕ)
      → (root =? []) ≡ false
      → apply fold reg default_options xs ≡ ok o
      → find fold reg o.algo_name ≡ ok a
      → IsCalm s.disk.fs
      → outcome s.log.plan ≡ fine
      → Dict.lookup (config_path root) s.disk.fs.files ≡ some raw
      → of_json raw ≡ ok (want_of o)
      → IsOrder order_x
      → IsStored s.index
      → length (Index.list order_x s.index) < 2 ^ 32
      → IsIteration s.refs.counts (order_t s.refs.counts)
      → Refcount.Snapshot.IsStorable s.refs (order_t s.refs.counts)
      → let (r, s1) = persist root order_x order_t s in
        (r ≡ ok tt)
        × (s2 : DiskStore) × (fs : Fs) × (open_store to_json of_json fold reg root xs plan
              (at_rest root s1)
            ≡ some (ok s2, fs))
        × ((id : HashId) → Index.get s2.index id ≡ Index.get s.index id)
        × ((id : HashId) → Refcount.get s2.refs id ≡ Refcount.get s.refs id)
  open_store-persist plan s a raw order_x order_t named known algo quiet done at_config parsed
        ordered stored few iter storable =
      let (went, rest) = persist_works root order_x order_t s quiet done in
      let (x, read_index, same_records) = load-save_records order_x s.index ordered stored few in
      let (c, read_refs, same_counts) = load-save_counts order_t s.refs iter storable in
      let (s2, fs, opened, is_x, is_c) =
        left_opens plan s a raw [] order_x order_t x c c named known algo at_config parsed
          read_index read_refs (replay_nothing c) in
      (
        went,
        s2,
        fs,
        rw rest opened,
        λ id. ap (λ y. Index.get y id) is_x ∙ same_records id,
        λ id. ap (λ y. Refcount.get y id) is_c ∙ same_counts id,
      )
