-- ===== src/Index.antt =====
-- internal/index/index.go: the object index in memory.
pub mod Uses
pub mod Snapshot
use go_shardblob.Base.{
  ℕ, ◌+◌, ◌-◌, ◌%◌, ◌^◌, Bool, true, false, ◌&&◌, not, Option, none, some, List, [], ◌∷◌, length,
  ◌==◌, if◌then◌else◌,
}
use go_shardblob.Base.Dict
use go_shardblob.Base.Dict.{Dict}
use go_shardblob.Base.Result.{Result, ok, err, no_record, use_count_zero}
use go_shardblob.Hashx.{HashId}

-- `Record`. `created_at` is an int64, by its bit pattern; the others are a uint32, a uint64 and a
-- uint32.
pub record Record : Type 0 where
  pub id : HashId
  pub use_count : ℕ
  pub size : ℕ
  pub chunks : ℕ
  pub created_at : ℕ

-- `Index`
pub record Index : Type 0 where
  pub objects : Dict Record

abbrev pub new_index : Index
new_index = record { objects = [] }

-- `Get`
unfoldable pub get : Index → HashId → Option Record
get x id = Dict.lookup id x.objects

-- `Has`
unfoldable pub has : Index → HashId → Bool
unfolding get
has x id = Dict.present (get x id)

-- The creation time of a record that is put with none: the old record's, if that has one, or the
-- clock's.
unfoldable pub stamp : Option Record → ℕ → ℕ
stamp none now = now
stamp (some old) now = if old.created_at == 0 then now else old.created_at

-- `Put`; `now` is what the clock says.
unfoldable pub put : Index → ℕ → Record → Index
unfolding stamp
put x now r =
    let created =
      if r.created_at == 0 then stamp (Dict.lookup r.id x.objects) now else r.created_at in
    record { objects = Dict.insert r.id (record r { created_at = created }) x.objects }

-- `Delete`
unfoldable pub delete : Index → HashId → Index
delete x id = record { objects = Dict.erase id x.objects }

unfoldable pub size : Index → ℕ
size x = length x.objects

records_at : Dict Record → List HashId → List Record
records_at d [] = []
records_at d (id ∷ ids) =
    let rest = records_at d ids in elim (Dict.lookup id d) [ none ↦ rest | some r ↦ r ∷ rest ]

-- `List`, in the order of iteration over the map.
unfoldable pub list : (List HashId → List HashId) → Index → List Record
unfolding records_at
list order x = records_at x.objects (order (Dict.keys x.objects))

load_from : Dict Record → List Record → Dict Record
load_from d [] = d
load_from d (r ∷ rs) = load_from (Dict.insert r.id r d) rs

-- `LoadAll`: of two records of one object the later stays.
unfoldable pub load_all : List Record → Index
unfolding load_from
load_all rs = record { objects = load_from [] rs }

-- `IncUse`
unfoldable pub inc_use : Index → HashId → Result Record × Index
inc_use x id = elim (Dict.lookup id x.objects) [
  | none ↦ (err no_record, x)
  | some r ↦
      let r' : Record = record r { use_count = (r.use_count + 1) % 2 ^ 32 } in
      (ok r', record { objects = Dict.insert id r' x.objects })
]

-- `DecUse`: the record, whether it is gone, and the error that may stand beside both.
unfoldable pub dec_use : Index → HashId → Result (Record × Bool) × Index
dec_use x id = elim (Dict.lookup id x.objects) [
  | none ↦ (err no_record, x)
  | some r ↦
      if r.use_count == 0
      then (err use_count_zero, x)
      else let r' : Record = record r { use_count = r.use_count - 1 } in
        if r'.use_count == 0
        then (ok (r', true), record { objects = Dict.erase id x.objects })
        else (ok (r', false), record { objects = Dict.insert id r' x.objects })
]

-- `TotalBytes`, a uint64
unfoldable pub total_bytes : Index → ℕ
total_bytes x = Dict.total (λ (r : Record). r.size) x.objects % 2 ^ 64
