-- ===== src/Blobstore/Memory.antt =====
-- internal/blobstore/memory.go: the backend in memory.
use go_shardblob.Base.{
  Bytes, ℕ, ◌+◌, ◌-◌, Bool, true, false, Option, none, some, List, [], length, if◌then◌else◌,
}
use go_shardblob.Base.Dict
use go_shardblob.Base.Dict.{Dict}
use go_shardblob.Base.Result.{Result, ok, err, ◌>>◌, chunk_not_found, backend_closed}
use go_shardblob.Hashx.{HashId}

-- `Memory`: `nbytes` is the sum of the sizes, and never below 0.
pub record Memory : Type 0 where
  pub blobs : Dict Bytes
  pub nbytes : ℕ
  pub is_closed : Bool

abbrev pub new_memory : Memory
new_memory = record { blobs = []; nbytes = 0; is_closed = false }

unfoldable pub guard : Memory → Result (Unit {0})
guard m = if m.is_closed then err backend_closed else ok tt

-- The guard's failure, before anything is changed.
abbrev pub guarded {ℓ} : {A : Type ℓ} → Memory → Result A × Memory → Result A × Memory
guarded m r = if m.is_closed then (err backend_closed, m) else r

abbrev store_new : Memory → HashId → Bytes → Option Bytes → Result (Unit {0}) × Memory
store_new m id p (some old) = (ok tt, m)
store_new m id p none =
    (ok tt, record m { blobs = Dict.insert id p m.blobs; nbytes = m.nbytes + length p })

unfoldable pub put : Memory → HashId → Bytes → Result (Unit {0}) × Memory
put m id p = guarded m (store_new m id p (Dict.lookup id m.blobs))

abbrev or_missing : Option Bytes → Result Bytes
or_missing none = err chunk_not_found
or_missing (some p) = ok p

unfoldable pub get : Memory → HashId → Result Bytes
unfolding guard
get m id = guard m >> or_missing (Dict.lookup id m.blobs)

unfoldable pub has : Memory → HashId → Result Bool
unfolding guard
has m id = guard m >> ok (Dict.present (Dict.lookup id m.blobs))

abbrev drop_old : Memory → HashId → Option Bytes → Result (Unit {0}) × Memory
drop_old m id none = (ok tt, m)
drop_old m id (some p) =
    (ok tt, record m { blobs = Dict.erase id m.blobs; nbytes = m.nbytes - length p })

unfoldable pub delete : Memory → HashId → Result (Unit {0}) × Memory
delete m id = guarded m (drop_old m id (Dict.lookup id m.blobs))

-- The identifiers are collected before the callback is called, in the map's order of iteration.
unfoldable pub list : (List HashId → List HashId) → Memory → Result (List HashId)
list order m = if m.is_closed then err backend_closed else ok (order (Dict.keys m.blobs))

unfoldable pub bytes : Memory → ℕ
bytes m = m.nbytes

unfoldable pub count : Memory → ℕ
count m = length m.blobs

unfoldable pub close : Memory → Result (Unit {0}) × Memory
close m = (ok tt, record m { is_closed = true })
