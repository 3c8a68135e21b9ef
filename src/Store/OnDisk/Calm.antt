-- ===== src/Store/OnDisk/Calm.antt =====
-- The files of a store on disk while no call of the operating system fails (store.go, atomic.go).
use go_shardblob.Base.{
  Bytes, ◌≡◌, refl, sym, ap, ◌∙◌, arith, false, some, List, [], ◌++◌, length, drop,
  drop-length_append, ◌=?◌, bytes_discrete,
}
use go_shardblob.Base.Dict
use go_shardblob.Base.Dict.{Dict, lookup-insert}
use go_shardblob.Base.Result.{ok}
use go_shardblob.Hashx.{Algo, codes}
use go_shardblob.Base.FilePath.{under}
use go_shardblob.Blobstore.Disk.Calls.{beside_write}
use go_shardblob.Layout.{
  Beside, make_dir, Fs, write_atomic, create_on, write_on, sync_on, close_on, rename, ensure_root,
  config_path, index_path, refs_path, journal_path,
}
use go_shardblob.Refcount
use go_shardblob.Refcount.Log.{Outcome, open_log, replay, replay_loop}
use go_shardblob.Refcount.Snapshot.{load-save_counts}
use go_shardblob.Index
use go_shardblob.Index.{Index}
use go_shardblob.Index.Snapshot.{IsStored, load-save_records}
use go_shardblob.Blobstore.Disk.{Disk}
use go_shardblob.Blobstore.Disk.Walk.{open_disk, recount, recounted}
use go_shardblob.Store.Opening.{Options}
use go_shardblob.Store.OnDisk.{
  DiskStore, load_index, load_refs, open_journal, open_parts, reader_of,
}

-- A disk on which no call is going to fail.
abbrev pub calm : Dict Bytes → Beside → Fs
calm files t = record { files = files; beside = t; plan = [] }

apart : (p a b : Bytes) → (a =? b) ≡ false → (p ++ a =? p ++ b) ≡ false
apart p a b h =
    let back = λ (e : p ++ a ≡ p ++ b).
      sym (drop-length_append p a) ∙ ap (drop (length p)) e ∙ drop-length_append p b in
    ground (arith, back)

pub write_calm :
    (files : Dict Bytes) (t : Beside) (path body : Bytes)
    → write_atomic (calm files t) path body
      ≡ (ok tt, calm (Dict.insert path body files) (beside_write path body t))
unfolding write_atomic create_on write_on sync_on close_on rename
write_calm files t path body = refl

pub replay_nothing : (t : Refcount.Table) → replay (reader_of []) t ≡ some (ok tt, t)
unfolding replay replay_loop go_shardblob.Chunk.Reader.read_full go_shardblob.Chunk.Reader.read
replay_nothing t = refl

-- The directories of a store are made, and nothing else is.
abbrev pub rooted : Bytes → Beside → Beside
rooted root t =
    (make_dir (under root ++ codes "meta") (
      make_dir (under root ++ codes "manifests")
        (make_dir (under root ++ codes "chunks") (make_dir root (calm [] t))))).beside

module _ (root : Bytes) where
  pub index-refs : (refs_path root =? index_path root) ≡ false
  unfolding refs_path index_path bytes_discrete
  index-refs = apart (under root) (codes "meta/refs.bin") (codes "meta/index.bin") refl

  pub index-journal : (journal_path root =? index_path root) ≡ false
  unfolding journal_path index_path bytes_discrete
  index-journal = apart (under root) (codes "meta/refs.journal") (codes "meta/index.bin") refl

  pub refs-journal : (journal_path root =? refs_path root) ≡ false
  unfolding journal_path refs_path bytes_discrete
  refs-journal = apart (under root) (codes "meta/refs.journal") (codes "meta/refs.bin") refl

  pub config-index : (index_path root =? config_path root) ≡ false
  unfolding index_path config_path bytes_discrete
  config-index = apart (under root) (codes "meta/index.bin") (codes "meta/config") refl

  pub config-refs : (refs_path root =? config_path root) ≡ false
  unfolding refs_path config_path bytes_discrete
  config-refs = apart (under root) (codes "meta/refs.bin") (codes "meta/config") refl

  pub config-journal : (journal_path root =? config_path root) ≡ false
  unfolding journal_path config_path bytes_discrete
  config-journal = apart (under root) (codes "meta/refs.journal") (codes "meta/config") refl

  -- The files after `persist`, with the journal.
  abbrev pub kept : Dict Bytes → Bytes → Bytes → Bytes → Dict Bytes
  kept files ib rb jb =
      Dict.insert (journal_path root) jb
        (Dict.insert (refs_path root) rb (Dict.insert (index_path root) ib files))

  module _ (files : Dict Bytes) (ib rb jb : Bytes) where
    abbrev pub with_index : Dict Bytes
    with_index = Dict.insert (index_path root) ib files

    abbrev pub with_refs : Dict Bytes
    with_refs = Dict.insert (refs_path root) rb with_index

    pub lookup_journal : Dict.lookup (journal_path root) (kept files ib rb jb) ≡ some jb
    lookup_journal =
        ground (arith, lookup-insert (journal_path root) (journal_path root) jb with_refs)

    pub lookup_refs : Dict.lookup (refs_path root) (kept files ib rb jb) ≡ some rb
    lookup_refs = ground (
      arith,
      lookup-insert (journal_path root) (refs_path root) jb with_refs,
      lookup-insert (refs_path root) (refs_path root) rb with_index,
      refs-journal,
    )

    pub lookup_index : Dict.lookup (index_path root) (kept files ib rb jb) ≡ some ib
    lookup_index = ground (
      arith,
      lookup-insert (journal_path root) (index_path root) jb with_refs,
      lookup-insert (refs_path root) (index_path root) rb with_index,
      lookup-insert (index_path root) (index_path root) ib files,
      index-journal,
      index-refs,
    )

    pub lookup_config :
        Dict.lookup (config_path root) (kept files ib rb jb) ≡ Dict.lookup (config_path root) files
    lookup_config = ground (
      arith,
      lookup-insert (journal_path root) (config_path root) jb with_refs,
      lookup-insert (refs_path root) (config_path root) rb with_index,
      lookup-insert (index_path root) (config_path root) ib files,
      config-journal,
      config-refs,
      config-index,
    )

  module _ (named : (root =? []) ≡ false) (files : Dict Bytes) (t : Beside) where
    pub root_stays : ensure_root (calm files t) root ≡ (ok tt, calm files (rooted root t))
    unfolding ensure_root
    root_stays = rw named refl

    pub backend_opens :
        (d : Disk) × (open_disk root (calm files t) ≡ (ok d, calm files (rooted root t)))
    unfolding open_disk recounted recount
    backend_opens = (
      (recount root
          (record { fs = calm files (rooted root t); nbytes = 0; nfile = 0; is_closed = false })).1,
      rw root_stays refl,
    )

    pub parts_open :
        (plan : List Outcome) (o : Options) (a : Algo) (ib rb jb : Bytes) (x : Index)
        (c c' : Refcount.Table)
        → Dict.lookup (index_path root) files ≡ some ib
        → Dict.lookup (refs_path root) files ≡ some rb
        → Dict.lookup (journal_path root) files ≡ some jb
        → Index.Snapshot.load (ok (some ib)) ≡ ok x
        → Refcount.Snapshot.load (ok (some rb)) ≡ ok c
        → replay (reader_of jb) c ≡ some (ok tt, c')
        → (s : DiskStore) × (fs : Fs) × (open_parts root plan o a (calm files t) ≡ some (ok s, fs))
          × (s.index ≡ x)
          × (s.refs ≡ c')
    unfolding open_parts load_index load_refs open_journal
    parts_open plan o a ib rb jb x c c' at_index at_refs at_journal read_index read_refs played =
        let (d, opens) = backend_opens in
        let fs = calm files (rooted root t) in
        (
          record {
            options = o;
            algo = a;
            disk = record d { fs = fs };
            refs = c';
            index = x;
            log = record (open_log jb) { pos = length jb; plan = plan };
          },
          fs,
          rw (opens, at_index, read_index, at_refs, read_refs, at_journal) (rw played refl),
          refl,
          refl,
        )
