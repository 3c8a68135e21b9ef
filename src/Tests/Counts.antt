-- ===== src/Tests/Counts.antt =====
-- internal/blobstore, internal/refcount, internal/index and internal/gc.
use go_shardblob.Base.{
  ◌+◌, ◌^◌, ◌≤◌, ◌<◌, ◌≡◌, map, contains, refl, arith, true, false, none, List, [], ◌∷◌, length,
  ◌==◌, if◌then◌else◌, bytes_discrete, identity-IsOrder,
}
use go_shardblob.Base.Dict
use go_shardblob.Base.Result.{ok, err, io_failed}
use go_shardblob.Hashx.{HashId}
use go_shardblob.Blobstore.{Backend, IsLawful}
use go_shardblob.Blobstore.Memory
use go_shardblob.Blobstore.Memory.{Memory, new_memory}
use go_shardblob.Blobstore.Laws.{
  IsValid, IsValid-new, put-IsValid, memory_backend, memory_contents, memory_laws,
}
use go_shardblob.Refcount
use go_shardblob.Gc.Mark.{mark_live, mark_live_lem, raised, listed}
use go_shardblob.Tests.Formats.{sample}
use go_shardblob.Refcount.{Journal, IsReliable, Table, new_table}
use go_shardblob.Refcount.Exact.{
  occurs, get-set, add_many_exact, sub_many_exact, add_rolls_back, sub_rolls_back,
}
use go_shardblob.Index
use go_shardblob.Index.{Record, Index}
use go_shardblob.Gc
use go_shardblob.Gc.Sweep.{run_exact, dry_run_predicts, run_counts}

abbrev order : List HashId → List HashId
order ks = ks

abbrev blobs : Backend
blobs = memory_backend order

abbrev lawful : IsLawful blobs
lawful = memory_laws order identity-IsOrder

abbrev one : HashId
one = 1 ∷ []

abbrev two : HashId
two = 2 ∷ []

abbrev stored : Memory
stored = (Memory.put (Memory.put new_memory one (7 ∷ 7 ∷ [])).1 two (8 ∷ [])).1

stored-IsValid : IsValid stored
stored-IsValid = put-IsValid _ two (8 ∷ []) (put-IsValid new_memory one (7 ∷ 7 ∷ []) IsValid-new)

-- A journal that accepts everything, and one that refuses everything.
abbrev accepting : Journal
accepting = record { World = Unit {0}; append = λ w op id n. (ok tt, w) }

abbrev refusing : Journal
refusing = record { World = Unit {0}; append = λ w op id n. (err io_failed, w) }

abbrev accepting_laws : IsReliable accepting
accepting_laws = record {
  Ready = λ w. Unit {0};
  append_ok = λ w op id n r. refl;
  append-Ready = λ w op id n r. tt;
}

abbrev counted : Table
counted = (Refcount.add_many accepting new_table tt (one ∷ two ∷ one ∷ [])).1

count_one : Refcount.get counted one ≡ 2
unfolding Refcount.add_many Refcount.add Refcount.get Dict.lookup Dict.insert Dict.erase
    bytes_discrete
count_one = refl

one_live : Table
one_live = Refcount.set new_table one 1

collected : (Gc.run blobs false one_live stored).1.bytes_free ≡ 1
unfolding one_live Gc.run Gc.visit_all Gc.visit Memory.put Memory.get Memory.delete Memory.list
    Refcount.set Refcount.get Dict.lookup Dict.insert Dict.erase Dict.keys bytes_discrete
collected = refl

run_exact_example :
    ((Gc.run blobs false one_live stored).0 ≡ ok tt)
    × IsValid (Gc.run blobs false one_live stored).2
    × ((j : HashId)
        → memory_contents (Gc.run blobs false one_live stored).2 j
          ≡ (if Refcount.get one_live j == 0 then none else memory_contents stored j))
unfolding memory_laws
run_exact_example = run_exact {B = blobs} lawful one_live stored stored-IsValid

dry_run_predicts_example :
    ((Gc.run blobs true one_live stored).1 ≡ (Gc.run blobs false one_live stored).1)
    × ((j : HashId)
        → memory_contents (Gc.run blobs true one_live stored).2 j ≡ memory_contents stored j)
unfolding memory_laws
dry_run_predicts_example = dry_run_predicts {B = blobs} lawful one_live stored stored-IsValid

run_counts_example :
    ((Gc.run blobs false one_live stored).1.scanned ≡ length (IsLawful.listing lawful stored))
    × ((Gc.run blobs false one_live stored).1.scanned
        ≡ (Gc.run blobs false one_live stored).1.deleted
          + (Gc.run blobs false one_live stored).1.retained
          + (Gc.run blobs false one_live stored).1.skipped)
unfolding memory_laws
run_counts_example = run_counts {B = blobs} lawful false one_live stored stored-IsValid

add_many_exact_example :
    ((Refcount.add_many accepting new_table tt (one ∷ two ∷ one ∷ [])).0 ≡ ok tt)
    × ((j : HashId)
        → Refcount.get new_table j + occurs j (one ∷ two ∷ one ∷ []) < 2 ^ 64
        → Refcount.get (Refcount.add_many accepting new_table tt (one ∷ two ∷ one ∷ [])).1 j
          ≡ Refcount.get new_table j + occurs j (one ∷ two ∷ one ∷ []))
add_many_exact_example =
    add_many_exact {J = accepting} accepting_laws new_table tt (one ∷ two ∷ one ∷ []) tt

covers : (j : HashId) → occurs j (one ∷ []) ≤ Refcount.get one_live j
unfolding one_live occurs
covers j = ground (arith, get-set new_table one j 1)

sub_many_exact_example :
    ((Refcount.sub_many accepting one_live tt (one ∷ [])).0 ≡ ok tt)
    × ((j : HashId)
        → Refcount.get (Refcount.sub_many accepting one_live tt (one ∷ [])).1 j
            + occurs j (one ∷ [])
          ≡ Refcount.get one_live j)
sub_many_exact_example =
    sub_many_exact {J = accepting} accepting_laws one_live tt (one ∷ []) tt covers

add_rolls_back_example :
    (Refcount.get (Refcount.add refusing one_live tt one 5).1 two ≡ Refcount.get one_live two)
    × ((Refcount.add refusing one_live tt one 5).1.dirty ≡ one_live.dirty)
unfolding one_live Refcount.add Refcount.set Refcount.get Dict.lookup Dict.insert Dict.erase
    bytes_discrete
add_rolls_back_example =
    add_rolls_back refusing one_live tt one two 5 io_failed (omega arith) (omega arith) refl

sub_rolls_back_example :
    (Refcount.get (Refcount.sub refusing one_live tt one 1).1 one ≡ Refcount.get one_live one)
    × ((Refcount.sub refusing one_live tt one 1).1.dirty ≡ one_live.dirty)
unfolding one_live Refcount.sub Refcount.set Refcount.get Dict.lookup Dict.insert Dict.erase
    bytes_discrete
sub_rolls_back_example = sub_rolls_back refusing one_live tt one one 1 io_failed refl

abbrev first_use : Record
first_use = record { id = one; use_count = 1; size = 9; chunks = 1; created_at = 5 }

abbrev indexed : Index
indexed = record { objects = (one, first_use) ∷ [] }

no_counts : (j : HashId) → Refcount.get new_table j < 2 ^ 64
unfolding Refcount.get Dict.lookup
no_counts j = omega arith

mark_live_lem_example :
    ((mark_live accepting (λ oid. ok sample) (λ ks. ks) indexed new_table tt).0 ≡ ok tt)
    × ((j : HashId)
        → Refcount.get (mark_live accepting (λ oid. ok sample) (λ ks. ks) indexed new_table tt).1 j
          ≡ raised (Refcount.get new_table j) (
              contains
                (listed accepting
                  (λ oid. ok sample)
                  (map (λ (r : Record). r.id) (Index.list (λ ks. ks) indexed)))
                j))
unfolding Index.list Dict.keys Dict.lookup bytes_discrete
mark_live_lem_example =
    mark_live_lem {J = accepting} accepting_laws (λ oid. ok sample) (λ ks. ks) indexed new_table tt
      tt no_counts ((sample, refl), tt)
