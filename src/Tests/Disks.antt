-- ===== src/Tests/Disks.antt =====
-- Files and the backend on disk at concrete inputs.
use go_shardblob.Base.{
  Bytes, ◌≡◌, ◌⊎◌, refl, ◌=?◌, true, false, none, some, List, [], ◌∷◌, replicate, length,
  bytes_discrete,
}
use go_shardblob.Base.Dict
use go_shardblob.Base.Dict.{Dict, present}
use go_shardblob.Base.Result.{ok, err, Error, invalid}
use go_shardblob.Hashx.{HashId, Algo, codes, copy_id, from_slice}
use go_shardblob.Hashx.Ids.{hex, hex_encode, hex_decode}
use go_shardblob.Hashx.Registry.{find}
use go_shardblob.Chunk.Policy.{normalize}
use go_shardblob.Refcount.{new_table}
use go_shardblob.Index.{new_index}
use go_shardblob.Store.Opening.{Setting, with_cdc, with_chunk_size, with_auto_gc, open_memory}
use go_shardblob.Store.Opening.Asked.{last_of, policy_asked, open_memory_lem}
use go_shardblob.Base.FilePath.{clean, under}
use go_shardblob.Blobstore.Disk.{Disk}
use go_shardblob.Blobstore.Disk.Walk.{recount, list}
use go_shardblob.Layout.{Beside, works, fails, journal_path, Fs, write_atomic, chunk_path}
use go_shardblob.Layout.Paths.{chunk_path-eq}
use go_shardblob.Layout.Whole.{Whole, write_atomic-Whole}
use go_shardblob.Blobstore.Memory.{new_memory}
use go_shardblob.Blobstore.Disk.Calls.{disk_of}
use go_shardblob.Blobstore.Disk.Refines.{
  Call, put_call, get_call, has_call, delete_call, close_call, trace_disk, trace_memory,
  disk_refines_memory,
}

-- Nothing is beside the files.
abbrev nothing_beside : Beside
nothing_beside = record { temps = []; durable = []; dirs = [] }

-- The rename fails over a file that is there.
abbrev stubborn : Fs
stubborn = record {
  files = (4 ∷ [], 1 ∷ []) ∷ [];
  beside = nothing_beside;
  plan = works ∷ works ∷ works ∷ works ∷ works ∷ fails 0 ∷ [];
}

old_stays : Dict.lookup (4 ∷ []) (write_atomic stubborn (4 ∷ []) (2 ∷ [])).1.files ≡ some (1 ∷ [])
unfolding write_atomic Dict.lookup bytes_discrete
old_stays = refl

and_that_is_success : (write_atomic stubborn (4 ∷ []) (2 ∷ [])).0 ≡ ok tt
unfolding write_atomic Dict.lookup bytes_discrete
and_that_is_success = refl

-- The write stops after a byte, and the temporary file cannot be removed.
abbrev full_disk : Fs
full_disk = record {
  files = (4 ∷ [], 1 ∷ []) ∷ [];
  beside = nothing_beside;
  plan = works ∷ works ∷ fails 1 ∷ works ∷ fails 0 ∷ [];
}

half_written :
    (write_atomic full_disk (4 ∷ []) (2 ∷ 3 ∷ [])).1.beside.temps
    ≡ record { bytes = 2 ∷ []; synced = [] } ∷ []
unfolding write_atomic
half_written = refl

write_atomic-Whole_example :
    Whole (4 ∷ []) (2 ∷ 3 ∷ []) full_disk (write_atomic full_disk (4 ∷ []) (2 ∷ 3 ∷ []))
write_atomic-Whole_example = write_atomic-Whole full_disk (4 ∷ []) (2 ∷ 3 ∷ [])

-- `filepath.Clean`, as its documentation has it.
cleaned :
    (clean (codes "a//b/./c/..") ≡ codes "a/b")
    × (clean (codes "/../x/") ≡ codes "/x")
    × (clean [] ≡ codes ".")
    × (clean (codes "../..") ≡ codes "../..")
    × (clean (codes "//") ≡ codes "/")
unfolding clean bytes_discrete
cleaned = (refl, refl, refl, refl, refl)

at_root : journal_path (codes "/") ≡ codes "/meta/refs.journal"
unfolding journal_path under bytes_discrete
at_root = refl

here_as_dot : journal_path (codes "./") ≡ codes "meta/refs.journal"
unfolding journal_path under bytes_discrete
here_as_dot = refl

abbrev sevens : HashId
sevens = replicate 32 7

abbrev calls : List Call
calls =
    has_call sevens
    ∷ put_call sevens (1 ∷ 2 ∷ [])
    ∷ put_call sevens (3 ∷ [])
    ∷ get_call sevens
    ∷ delete_call sevens
    ∷ close_call
    ∷ get_call sevens
    ∷ []

nothing_stored :
    (id : HashId) → length id ≡ 32 → Dict.lookup {V = Bytes} (chunk_path (47 ∷ []) id) [] ≡ none
unfolding Dict.lookup
nothing_stored id w = refl

disk_refines_memory_example :
    trace_disk (47 ∷ []) (disk_of [] nothing_beside 0 0 false) calls ≡ trace_memory new_memory calls
disk_refines_memory_example =
    disk_refines_memory (47 ∷ []) [] nothing_beside calls nothing_stored
      (refl, (refl, (refl, (refl, (refl, (tt, (refl, tt)))))))

-- Two files: a chunk, and one that is none.
abbrev two_files : Fs
two_files = record {
  files = (chunk_path (47 ∷ []) sevens, 1 ∷ 2 ∷ []) ∷ (codes "/chunks/.tmp-1", 3 ∷ []) ∷ [];
  beside = nothing_beside;
  plan = [];
}

abbrev recount_two : Disk
recount_two =
    (recount (47 ∷ []) (record { fs = two_files; nbytes = 0; nfile = 0; is_closed = false })).1

counted_one : (recount_two.nfile ≡ 1) × (recount_two.nbytes ≡ 2)
unfolding recount chunk_path under hex hex_encode bytes_discrete
counted_one = (refl, refl)

listed_one : (list (47 ∷ []) (λ fs. fs) recount_two).1 ≡ sevens ∷ []
unfolding recount list chunk_path under hex hex_encode hex_decode from_slice copy_id bytes_discrete
listed_one = refl

abbrev sha : Algo
sha = record { name = codes "sha256"; digest = λ b. b }

abbrev asked : List Setting
asked = with_cdc true ∷ with_chunk_size 5 ∷ with_cdc false ∷ with_auto_gc true ∷ []

open_memory_lem_example :
    ((e : Error) × (find (λ n. n) ((codes "sha256", sha) ∷ []) (codes "sha256") ≡ err e)
      × (open_memory (λ n. n) ((codes "sha256", sha) ∷ []) asked ≡ err invalid))
    ⊎ ((a : Algo) × (find (λ n. n) ((codes "sha256", sha) ∷ []) (codes "sha256") ≡ ok a)
        × (open_memory (λ n. n) ((codes "sha256", sha) ∷ []) asked
            ≡ ok (
              record { algo = a; policy = normalize (policy_asked asked); auto_gc = true },
              record {
                blobs = new_memory;
                refs = new_table;
                index = new_index;
                world = [];
                is_closed = false;
              },
            )))
unfolding last_of
open_memory_lem_example = open_memory_lem (λ n. n) ((codes "sha256", sha) ∷ []) asked

chunk_path-eq_example :
    (chunk_path (codes "/store") sevens =? chunk_path (codes "/store") (replicate 32 9))
    ≡ (sevens =? replicate 32 9)
chunk_path-eq_example = chunk_path-eq (codes "/store") sevens (replicate 32 9) refl refl
