-- ===== src/Tests/Locks.antt =====
-- internal/iofence at concrete sequences of steps, and the verification of a stored object.
use go_shardblob.Base.{
  Bytes, ◌≤◌, ◌≡◌, ◌↔◌, refl, false, true, some, List, [], ◌∷◌, replicate, bytes_discrete,
}
use go_shardblob.Base.Dict
use go_shardblob.Base.Result.{ok}
use go_shardblob.Hashx.{HashId, Algo, object_id, chunk_id}
use go_shardblob.Hashx.Tags.{length-chunk_id, length-object_id}
use go_shardblob.Hashx.Registry.{Registry, find}
use go_shardblob.Manifest.{Manifest, validate}
use go_shardblob.Blobstore.Memory
use go_shardblob.Blobstore.Memory.{Memory, new_memory}
use go_shardblob.Blobstore.Laws.{memory_contents, memory_laws, put-IsValid, IsValid-new}
use go_shardblob.Chunk.Reader.{content}
use go_shardblob.Store.{Store, put}
use go_shardblob.Store.Medium.{memory_media, memory_media-IsSound}
use go_shardblob.Store.Verifying.{verify}
use go_shardblob.Store.Checked.{put-verify}
use go_shardblob.Verify.{object, is_ok}
use go_shardblob.Verify.Intact.{IsIntact, object_iff}
use go_shardblob.Iofence.{
  here, there, Io, outside, shared, IoReachable, started, step, begin_shared, counted, in_flight,
  r_lock, add_active, Locks, Phase, idle, waiting, holding, new_locks, enter, take_lock, enters,
  takes, AllIdle, Reachable, fresh_start, then_step, locked_count,
}
use go_shardblob.Iofence.Moving.{sum_of}
use go_shardblob.Iofence.Exclusion.{is_exclusive, is_reading, reachable_exclusion}
use go_shardblob.Iofence.OneHolder.{holds_object, one_holder}
use go_shardblob.Iofence.Drain.{Steps, locks_drain}
use go_shardblob.Tests.Stores.{
  plain_algo, config, blobs, lawful, empty, six, book, can_put, none_yet,
}

abbrev new_io : Io
new_io = record { readers = 0; writer = false; active = 0 }

-- One of two goroutines has begun a shared operation.
abbrev one_shared : Io
one_shared = add_active (r_lock new_io)

one_shared-IoReachable : IoReachable (one_shared, shared ∷ outside ∷ [])
one_shared-IoReachable =
    step (step (started (outside ∷ outside ∷ []) (refl, (refl, tt))) (begin_shared refl here))
      (counted here)

reachable_exclusion_example :
    (sum_of is_exclusive (shared ∷ outside ∷ []) ≤ 1)
    × (sum_of is_exclusive (shared ∷ outside ∷ []) ≡ 1
        → (sum_of is_reading (shared ∷ outside ∷ []) ≡ 0) × (in_flight one_shared ≡ 0))
    × (in_flight one_shared ≤ sum_of is_reading (shared ∷ outside ∷ []))
reachable_exclusion_example =
    reachable_exclusion one_shared (shared ∷ outside ∷ []) one_shared-IoReachable

abbrev sevens : HashId
sevens = replicate 32 7

-- Two goroutines want the lock of one object, and the first has it.
abbrev contended : Locks
contended = take_lock (enter (enter new_locks sevens).1 sevens).1 0

abbrev two_of_one : List Phase
two_of_one = holding sevens 0 ∷ waiting sevens 0 ∷ []

contended-Reachable : Reachable (contended, two_of_one)
unfolding enter Dict.lookup Dict.insert Dict.erase bytes_discrete
contended-Reachable =
    then_step
      (then_step
        (then_step (fresh_start (idle ∷ idle ∷ []) (refl, (refl, tt))) (enters sevens here))
        (enters sevens (there here)))
      (takes sevens 0 refl here)

one_holder_example : sum_of (holds_object sevens) two_of_one ≤ 1
one_holder_example = one_holder contended two_of_one sevens contended-Reachable

locks_drain_example :
    (k : Locks) × (qs : List Phase) × Steps (contended, two_of_one) (k, qs)
    × AllIdle qs
    × (locked_count k ≡ 0)
locks_drain_example = locks_drain contended two_of_one contended-Reachable

-- The registry as it is, with names taken as they are.
abbrev same_name : Bytes → Bytes
same_name n = n

abbrev registry : Registry
registry = (plain_algo.name, plain_algo) ∷ []

registered : find same_name registry plain_algo.name ≡ ok plain_algo
unfolding find Dict.lookup bytes_discrete
registered = refl

put-verify_example :
    (s' : Store blobs memory_media) × (put blobs memory_media config 7 empty (some six)
      ≡ some (ok (object_id plain_algo (content six)), s'))
    × (verify same_name registry s' (object_id plain_algo (content six)) ≡ ok tt)
put-verify_example =
    put-verify {B = blobs} {M = memory_media} lawful memory_media-IsSound book config 7 empty six
      same_name registry refl can_put none_yet registered

abbrev body : Bytes
body = 8 ∷ 9 ∷ []

abbrev stored : Memory
stored = (Memory.put new_memory (chunk_id plain_algo body) body).1

abbrev described : Manifest
described = record {
  version = 1;
  flags = 0;
  algo = plain_algo.name;
  chunk_size = 2;
  total_size = 2;
  object = object_id plain_algo body;
  chunks = record { id = chunk_id plain_algo body; size = 2; offset = 0 } ∷ [];
}

object_iff_example :
    (((object blobs same_name registry stored (some described)).1 ≡ ok tt) ↔ (
      (a : Algo) × (mf : Manifest) × (c : Bytes) × (find same_name registry plain_algo.name ≡ ok a)
      × (validate described ≡ ok mf)
      × IsIntact (memory_contents stored) a mf c))
    × (((object blobs same_name registry stored (some described)).1 ≡ ok tt)
        ↔ (is_ok (object blobs same_name registry stored (some described)).0 ≡ true))
unfolding memory_laws
object_iff_example =
    object_iff {B = blobs} lawful same_name registry stored described
      (put-IsValid new_memory (chunk_id plain_algo body) body IsValid-new)
      (length-object_id plain_algo body) (length-chunk_id plain_algo body, tt)
