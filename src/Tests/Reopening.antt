-- ===== src/Tests/Reopening.antt =====
-- A store on disk that is persisted and opened again, and one that is opened with other settings.
use go_shardblob.Base.{
  Bytes, ◌-◌, ◌≡◌, ◌≢◌, refl, sym, ap, ◌+◌, ◌*◌, ◌^◌, ◌<◌, contains, arith, false, some, [], ◌∷◌,
  ◌++◌, length, take, identity-IsOrder, ◌==◌, bytes_discrete, if◌then◌else◌,
}
use go_shardblob.Base.Dict
use go_shardblob.Base.Dict.{Dict}
use go_shardblob.Base.Result.{Result, ok, err, io_failed, config, bad_hex}
use go_shardblob.Hashx.{HashId, Algo, codes}
use go_shardblob.Hashx.Registry.{Registry, find}
use go_shardblob.Chunk.Policy.{normalize, default_policy}
use go_shardblob.Chunk.Policy.Bounds.{valid_always}
use go_shardblob.Refcount
use go_shardblob.Base.FilePath.{under}
use mathlib.Core.Path.{subst}
use go_shardblob.Base.Snapshot.{IsIteration}
use go_shardblob.Refcount.{Table}
use go_shardblob.Refcount.Snapshot.{IsStorable}
use go_shardblob.Refcount.Log.{append, open_log}
use go_shardblob.Index
use go_shardblob.Layout.{Beside, Fs, config_path}
use go_shardblob.Layout.Settings.{Settings}
use go_shardblob.Store.Opening.{Options, default_options, set_options, apply}
use go_shardblob.Store.OnDisk.{DiskStore, want_of, persist, open_store, at_rest}
use go_shardblob.Store.OnDisk.Twice.{about_to_stop, with_add, counted_twice}
use go_shardblob.Store.OnDisk.Reopened.{open_store-persist, other_settings_refused}
use go_shardblob.Tests.Journal.{
  sevens, table, indexed, table-IsStorable, table-IsIteration, indexed-IsStored, few_records,
}

-- A text of the settings, ended by a line feed.
abbrev to_text : Settings → Bytes
to_text c = (if c.with_cdc then 1 else 0) ∷ c.chunk_size ∷ c.algo

abbrev of_text : Bytes → Result Settings
of_text (b ∷ n ∷ rest) =
    ok (record { algo = take (length rest - 1) rest; chunk_size = n; with_cdc = b == 1 })
of_text (b ∷ []) = err bad_hex
of_text [] = err bad_hex

abbrev sha : Algo
sha = record { name = codes "sha256"; digest = λ b. b }

abbrev registry : Registry
registry = (codes "sha256", sha) ∷ []

abbrev defaults : Options
defaults = record default_options { policy = normalize default_options.policy }

defaults_accepted : apply (λ n. n) registry default_options [] ≡ ok defaults
unfolding apply set_options find default_options bytes_discrete Dict.lookup
defaults_accepted = rw (valid_always (normalize default_policy)) refl

sha_found : find (λ n. n) registry defaults.algo_name ≡ ok sha
unfolding find default_options bytes_discrete Dict.lookup
sha_found = refl

-- The directory has its configuration.
abbrev configured : Settings → Dict Bytes
configured c = (config_path (47 ∷ []), to_text c ++ (10 ∷ [])) ∷ []

config_found :
    (c : Settings)
    → Dict.lookup (config_path (47 ∷ [])) (configured c) ≡ some (to_text c ++ (10 ∷ []))
unfolding Dict.lookup
config_found c = ground arith

wanted_parsed : of_text (to_text (want_of defaults) ++ (10 ∷ [])) ≡ ok (want_of defaults)
unfolding default_options default_policy normalize
wanted_parsed = refl

abbrev nothing_beside : Beside
nothing_beside = record { temps = []; durable = []; dirs = [] }

abbrev calm_files : Settings → Fs
calm_files c = record { files = configured c; beside = nothing_beside; plan = [] }

abbrev store : DiskStore
store = record {
  options = defaults;
  algo = sha;
  disk = record { fs = calm_files (want_of defaults); nbytes = 0; nfile = 0; is_closed = false };
  refs = table;
  index = indexed;
  log = open_log [];
}

abbrev reached : DiskStore
reached = (persist (47 ∷ []) (λ ks. ks) (λ d. d) store).1

open_store-persist_example :
    ((persist (47 ∷ []) (λ ks. ks) (λ d. d) store).0 ≡ ok tt)
    × (s2 : DiskStore) × (fs : Fs) × (open_store to_text of_text
          (λ n. n)
          registry
          (47 ∷ [])
          []
          []
          (at_rest (47 ∷ []) reached)
        ≡ some (ok s2, fs))
    × ((id : HashId) → Index.get s2.index id ≡ Index.get indexed id)
    × ((id : HashId) → Refcount.get s2.refs id ≡ Refcount.get table id)
unfolding bytes_discrete open_log
open_store-persist_example =
    open_store-persist to_text of_text (λ n. n) registry (47 ∷ []) [] defaults [] store sha
      (to_text (want_of defaults) ++ (10 ∷ [])) (λ ks. ks) (λ d. d) refl defaults_accepted sha_found
      refl refl (config_found (want_of defaults)) wanted_parsed identity-IsOrder indexed-IsStored
      few_records table-IsIteration table-IsStorable

-- Settings with another algorithm.
abbrev others : Settings
others = record { algo = codes "md5"; chunk_size = 8; with_cdc = false }

others_differ : others ≢ want_of defaults
unfolding default_options
others_differ e = let same = ap (λ (c : Settings). length c.algo) e in omega arith

abbrev made_dirs : Fs
made_dirs = record {
  files = configured others;
  beside = record {
    temps = [];
    durable = [];
    dirs = codes "/meta" ∷ codes "/manifests" ∷ codes "/chunks" ∷ codes "/" ∷ [];
  };
  plan = [];
}

other_settings_refused_example :
    open_store to_text of_text (λ n. n) registry (47 ∷ []) [] [] (calm_files others)
    ≡ some (err config, made_dirs)
unfolding bytes_discrete under contains
other_settings_refused_example =
    other_settings_refused to_text of_text (λ n. n) registry (47 ∷ []) [] defaults []
      (configured others) nothing_beside (to_text others ++ (10 ∷ [])) others refl defaults_accepted
      (config_found others) refl others_differ

-- Three more of a chunk, and a journal that cannot be truncated.
abbrev stopping : DiskStore
stopping = with_add (about_to_stop store []) sevens 3

abbrev table_after : Table
table_after = record { counts = (sevens, 8) ∷ []; dirty = 1 }

is_after : stopping.refs ≡ table_after
unfolding Refcount.add Refcount.add_end Refcount.get append Dict.insert Dict.erase Dict.lookup
    bytes_discrete
is_after = refl

after-IsIteration : IsIteration table_after.counts table_after.counts
unfolding Dict.lookup
after-IsIteration = record { same = λ k. refl; once = (refl, tt) }

after-IsStorable : IsStorable table_after table_after.counts
unfolding Dict.lookup
after-IsStorable = record {
  wide = λ id n e. ground arith;
  word = λ id n e. ground arith;
  few = omega arith;
}

five_before : Refcount.get table sevens + 2 * 3 < 2 ^ 64
unfolding Refcount.get Dict.lookup bytes_discrete
five_before = omega arith

counted_twice_example :
    ((persist (47 ∷ []) (λ ks. ks) (λ d. d) stopping).0 ≡ err io_failed)
    × (Refcount.get stopping.refs sevens ≡ Refcount.get table sevens + 3)
    × (s2 : DiskStore) × (fs : Fs) × (open_store to_text of_text
          (λ n. n)
          registry
          (47 ∷ [])
          []
          []
          (at_rest (47 ∷ []) (persist (47 ∷ []) (λ ks. ks) (λ d. d) stopping).1)
        ≡ some (ok s2, fs))
    × (Refcount.get s2.refs sevens ≡ Refcount.get table sevens + 2 * 3)
unfolding bytes_discrete
counted_twice_example =
    counted_twice to_text of_text (λ n. n) registry (47 ∷ []) [] defaults [] [] store sha
      (to_text (want_of defaults) ++ (10 ∷ [])) (λ ks. ks) (λ d. d) sevens 3 refl defaults_accepted
      sha_found refl (config_found (want_of defaults)) wanted_parsed identity-IsOrder
      indexed-IsStored few_records
      (subst (λ t. IsIteration t.counts t.counts) (sym is_after) after-IsIteration)
      (subst (λ t. IsStorable t t.counts) (sym is_after) after-IsStorable) refl (omega arith)
      five_before
