-- ===== src/Store/OnDisk/Twice.antt =====
-- `persist` that stops between the snapshots and the truncation of the journal (store.go).
use go_shardblob.Base.{
  Bytes, ℕ, ◌+◌, ◌*◌, ◌%◌, ◌<◌, ◌^◌, ◌≡◌, refl, ap, ◌∙◌, arith, false, some, List, [], ◌∷◌, length,
  ◌=?◌, =?-refl, append-nil, IsOrder,
}
use go_shardblob.Base.Dict
use go_shardblob.Base.Dict.{Dict}
use go_shardblob.Base.Snapshot.{IsIteration}
use go_shardblob.Base.Result.{Result, ok, err, io_failed}
use go_shardblob.Hashx.{HashId, Algo}
use go_shardblob.Hashx.Registry.{Registry, find}
use go_shardblob.Layout.{Fs, config_path}
use go_shardblob.Layout.Settings.{Settings}
use go_shardblob.Refcount
use go_shardblob.Refcount.{inc}
use go_shardblob.Refcount.Exact.{get-set}
use go_shardblob.Refcount.Log.{Outcome, fine, short, outcome, log_journal}
use go_shardblob.Refcount.Log.Once.{first_add, replay_one, get-raised_self}
use go_shardblob.Refcount.Snapshot.{load-save_counts}
use go_shardblob.Index
use go_shardblob.Index.Snapshot.{IsStored, load-save_records}
use go_shardblob.Store.Opening.{Options, Setting, default_options, apply}
use go_shardblob.Store.OnDisk.{DiskStore, want_of, open_store, persist, at_rest, reader_of}
use go_shardblob.Store.OnDisk.Reopened.{IsCalm, persist_stops, left_opens}

-- A store with an empty journal, whose `Append` is going to work, and whose `Truncate` after that fails.
abbrev pub about_to_stop : DiskStore → List Outcome → DiskStore
about_to_stop s later = record s {
  log = record { bytes = []; pos = 0; plan = fine ∷ short 0 ∷ later };
}

-- The store after an `Add`.
abbrev pub with_add : DiskStore → HashId → ℕ → DiskStore
with_add s id n =
    let (r, t, log) = Refcount.add log_journal s.refs s.log id n in record s { refs = t; log = log }

-- Let the directory have a name, the options be accepted, their algorithm be registered, and the
-- configuration file be there, be parsed, and say what the options ask for; let records and counts fit
-- their formats, also in number, each map be iterated over every entry once, and no call of the
-- operating system fail but the one named here. A store with an empty journal adds `n > 0` to the count
-- of a chunk, whose identifier has 32 bytes; `persist` then writes both snapshots, but fails to truncate
-- the journal, and returns an error. The next `Open` succeeds, and the count is `2 * n` more than before
-- the `Add`, where that is below 2^64, instead of `n` more.
pub counted_twice :
    (to_json : Settings → Bytes) (of_json : Bytes → Result Settings) (fold : Bytes → Bytes)
    (reg : Registry) (root : Bytes) (xs : List Setting) (o : Options) (plan later : List Outcome)
    (s0 : DiskStore) (a : Algo) (raw : Bytes) (order_x : List HashId → List HashId)
    (order_t : Dict ℕ → Dict ℕ) (id : HashId) (n : ℕ)
    → let s = with_add (about_to_stop s0 later) id n in
      (root =? []) ≡ false
      → apply fold reg default_options xs ≡ ok o
      → find fold reg o.algo_name ≡ ok a
      → IsCalm s0.disk.fs
      → Dict.lookup (config_path root) s0.disk.fs.files ≡ some raw
      → of_json raw ≡ ok (want_of o)
      → IsOrder order_x
      → IsStored s0.index
      → length (Index.list order_x s0.index) < 2 ^ 32
      → IsIteration s.refs.counts (order_t s.refs.counts)
      → Refcount.Snapshot.IsStorable s.refs (order_t s.refs.counts)
      → length id ≡ 32
      → 0 < n
      → Refcount.get s0.refs id + 2 * n < 2 ^ 64
      → let (r, s1) = persist root order_x order_t s in
        (r ≡ err io_failed)
        × (Refcount.get s.refs id ≡ Refcount.get s0.refs id + n)
        × (s2 : DiskStore) × (fs : Fs) × (open_store to_json of_json fold reg root xs plan
              (at_rest root s1)
            ≡ some (ok s2, fs))
        × (Refcount.get s2.refs id ≡ Refcount.get s0.refs id + 2 * n)
counted_twice to_json of_json fold reg root xs o plan later s0 a raw order_x order_t id n named
      known algo quiet at_config parsed ordered stored few iter storable wide pos fits =
    let s = with_add (about_to_stop s0 later) id n in
    let added = first_add s0.refs (short 0 ∷ later) id n pos in
    let once =
      ap (λ x. Refcount.get x.1 id) added ∙ get-raised_self s0.refs id n (omega (arith, fits)) in
    let (went, rest) =
      persist_stops root order_x order_t s quiet (ap (λ x. outcome x.2.plan) added) in
    let (x, read_index, same_records) = load-save_records order_x s.index ordered stored few in
    let (c, read_refs, same_counts) = load-save_counts order_t s.refs iter storable in
    let c' = Refcount.set c id ((Refcount.get c id + n) % 2 ^ 64) in
    let played =
      replay_one c id n (reader_of s.log.bytes) wide (omega (arith, fits)) refl
        (append-nil s.log.bytes ∙ ap (λ x. x.2.bytes) added) in
    let (s2, fs, opened, is_x, is_c) =
      left_opens to_json of_json fold reg root xs o plan s a raw s.log.bytes order_x order_t x c c'
        named known algo at_config parsed read_index read_refs played in
    let again = get-set c id id ((Refcount.get c id + n) % 2 ^ 64) in
    (
      went,
      once,
      s2,
      fs,
      rw rest opened,
      ap (λ y. Refcount.get y id) is_c
          ∙ again
          ∙ rw (=?-refl id) (omega (arith, same_counts id, once, fits)),
    )
