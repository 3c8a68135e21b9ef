-- ===== src/Verify.antt =====
-- internal/verify: reports (report.go) and the check of an object (verifier.go).
pub mod Intact
use go_shardblob.Base.{
  Bytes, ℕ, ◌+◌, ◌%◌, ◌^◌, Bool, true, false, not, Option, none, some, List, [], ◌∷◌, ◌++◌, length,
  ltb, ◌==◌, if◌then◌else◌,
}
use go_shardblob.Base.Result.{Result, ok, err, verify_failed}
use go_shardblob.Hashx.{HashId, Algo, Hash, new_tagged, write, tagged_id, tag_object, chunk_id}
use go_shardblob.Hashx.Ids.{equal_id}
use go_shardblob.Hashx.Registry.{Registry, find}
use go_shardblob.Manifest.{Manifest, Entry, validate}
use go_shardblob.Blobstore.{Backend}

-- `Kind`
pub data Kind : Type 0 where
  kind_chunk_hash kind_chunk_miss kind_chunk_size kind_object_hash kind_manifest kind_algo : Kind

-- `Fault`, without the text of its details; `none` is the index -1.
pub record Fault : Type 0 where
  pub kind : Kind
  pub chunk : Option ℕ

-- `Report`: the identifier whose hexadecimal text is `ObjectHex`, the number of chunks (`none` is
-- -1), the bytes and the faults.
pub record Report : Type 0 where
  pub object : Option HashId
  pub chunks : Option ℕ
  pub bytes : ℕ
  pub faults : List Fault

abbrev no_faults : List Fault → Bool
no_faults [] = true
no_faults (f ∷ fs) = false

-- `Report.OK`
unfoldable pub is_ok : Report → Bool
is_ok r = no_faults r.faults

-- `add`
unfoldable pub add : Report → Kind → Option ℕ → Report
add r k i = record r { faults = r.faults ++ (record { kind = k; chunk = i } ∷ []) }

-- The report twice, the second time as the error.
abbrev pub fail : Report → Report × Result (Unit {0})
fail r = (r, err verify_failed)

-- `Chunk`
unfoldable pub chunk_ok : Algo → HashId → Bytes → Result (Unit {0})
chunk_ok a id p = if equal_id (chunk_id a p) id then ok tt else err verify_failed

-- The checks on a chunk that was read.
unfoldable pub check_chunk : Algo → ℕ → Entry → Bytes → Report → Report
unfolding add
check_chunk a i e p rep =
    let sized = if length p % 2 ^ 32 == e.size then rep else add rep kind_chunk_size (some i) in
    if equal_id (chunk_id a p) e.id then sized else add sized kind_chunk_hash (some i)

module _ (B : Backend) where
  -- The loop of `Object` over the entries from the `i`-th on: the report, the hash of the object
  -- and the bytes written to it, a uint64.
  unfoldable pub check_chunks :
      Algo → B.State → ℕ → List Entry → Report → Hash → ℕ → Report × Hash × ℕ
  unfolding check_chunk add
  check_chunks a b i [] rep obj wrote = (rep, obj, wrote)
  check_chunks a b i (e ∷ es) rep obj wrote = elim (B.get b e.id) [
    | err x ↦ check_chunks a b (i + 1) es (add rep kind_chunk_miss (some i)) obj wrote
    | ok p ↦
        check_chunks a b (i + 1) es (check_chunk a i e p rep) (write obj p)
          ((wrote + length p) % 2 ^ 64)
  ]

  -- `Object` after its loop.
  unfoldable pub conclude : Manifest → Report × Hash × ℕ → Report × Result (Unit {0})
  unfolding is_ok add
  conclude mf (rep, obj, wrote) =
      if not (is_ok rep)
      then fail rep
      else if not (wrote == mf.total_size)
      then fail (add rep kind_chunk_size none)
      else if not (equal_id (tagged_id obj) mf.object)
      then fail (add rep kind_object_hash none)
      else (rep, ok tt)

  -- `Object` from the algorithm on.
  unfoldable pub object_by : B.State → Manifest → Report → Result Algo → Report × Result (Unit {0})
  unfolding check_chunks conclude add
  object_by b mf rep (err e) = fail (add rep kind_algo none)
  object_by b mf rep (ok a) = elim (validate mf) [
    | err e ↦ fail (add rep kind_manifest none)
    | ok mf' ↦ conclude mf' (check_chunks a b 0 mf'.chunks rep (new_tagged a tag_object) 0)
  ]

  -- `Object`; `none` is a nil manifest, and `fold` and `reg` are the registry's.
  unfoldable pub object :
      (Bytes → Bytes) → Registry → B.State → Option Manifest → Report × Result (Unit {0})
  unfolding object_by add
  object fold reg b none =
      fail
        (add (record { object = none; chunks = none; bytes = 0; faults = [] }) kind_manifest none)
  object fold reg b (some mf) =
      object_by b mf
        (record {
          object = some mf.object;
          chunks = some (length mf.chunks);
          bytes = mf.total_size;
          faults = [];
        })
        (find fold reg mf.algo)
