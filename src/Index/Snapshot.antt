-- ===== src/Index/Snapshot.antt =====
-- internal/index/snapshot.go: the index as a file. The bytes go to `layout.WriteAtomic` and come from
-- `os.ReadFile`.
use go_shardblob.Base.{
  Bytes, ℕ, ◌^◌, ◌<◌, ◌≡◌, refl, arith, Option, none, some, false, List, [], ◌∷◌, ◌++◌,
  append_assoc, length, All, contains, IsOrder, Option-cases, inl, inr, if◌then◌else◌,
}
use go_shardblob.Base.Dict
use go_shardblob.Base.Dict.{Dict, NodupKeys, lookup-insert, lookup-nil, contains-keys}
use go_shardblob.Base.Result.{Result, ok, err, ◌>>=◌, zero_record_id}
use go_shardblob.Base.Wire.{le, get_bytes, get_uint, get_bytes-append, get_uint-le}
use go_shardblob.Base.Snapshot.{
  frame, open_frame, open_frame-frame, put_each, get_each, get_each-put_each,
}
use go_shardblob.Hashx.{HashId, copy_id, is_zero}
use go_shardblob.Hashx.Tags.{copy_id_of_wide}
use go_shardblob.Index.{Record, Index, new_index, get, records_at, list, load_from, load_all}

abbrev pub idx_magic : ℕ
idx_magic = 0x58444953

unfoldable pub put_record : Record → Bytes
put_record r =
    copy_id r.id ++ (le 4 r.use_count ++ (le 8 r.size ++ (le 4 r.chunks ++ le 8 r.created_at)))

-- A record without an identifier is an error.
nonzero : Record → Bytes → Result (Record × Bytes)
nonzero r rest = if is_zero r.id then err zero_record_id else ok (r, rest)

-- One round of the loop of `Load`.
unfoldable pub get_record : Bytes → Result (Record × Bytes)
unfolding nonzero
get_record r = do
  (id, r1) ← get_bytes 32 r
  (use_count, r2) ← get_uint 4 r1
  (size, r3) ← get_uint 8 r2
  (chunks, r4) ← get_uint 4 r3
  (created_at, r5) ← get_uint 8 r4
  nonzero
      (record {
        id = id;
        use_count = use_count;
        size = size;
        chunks = chunks;
        created_at = created_at;
      })
      r5

-- The bytes of `Save`, in the order of iteration.
unfoldable pub save : (List HashId → List HashId) → Index → Bytes
unfolding put_record
save order x = let recs = list order x in frame idx_magic (length recs) (put_each put_record recs)

unfoldable pub load_bytes : Bytes → Result Index
unfolding get_record
load_bytes raw = do
  (n, r) ← open_frame idx_magic raw
  recs ← get_each get_record n r
  ok (load_all recs)

-- `Load` of what `os.ReadFile` answers: `none` where there is no file.
unfoldable pub load : Result (Option Bytes) → Result Index
unfolding load_bytes
load (err e) = err e
load (ok none) = ok new_index
load (ok (some raw)) = load_bytes raw

-- A record as it fits the format, with the widths of the Go types.
pub record IsStorable (r : Record) : Type 0 where
  pub wide : length r.id ≡ 32
  pub used : is_zero r.id ≡ false
  pub use_count : r.use_count < 2 ^ 32
  pub size : r.size < 2 ^ 64
  pub chunks : r.chunks < 2 ^ 32
  pub created_at : r.created_at < 2 ^ 64

get_record-put_record :
    (r : Record) → IsStorable r → (rest : Bytes) → get_record (put_record r ++ rest) ≡ ok (r, rest)
unfolding get_record put_record
get_record-put_record r fit rest =
    let r4 = le 8 r.created_at ++ rest in
    let r3 = le 4 r.chunks ++ r4 in
    let r2 = le 8 r.size ++ r3 in
    let r1 = le 4 r.use_count ++ r2 in
    rw (
      copy_id_of_wide r.id fit.wide,
      append_assoc,
      append_assoc,
      append_assoc,
      append_assoc,
      get_bytes-append 32 r.id r1 fit.wide,
      get_uint-le 4 r.use_count r2 fit.use_count,
      get_uint-le 8 r.size r3 fit.size,
      get_uint-le 4 r.chunks r4 fit.chunks,
      get_uint-le 8 r.created_at rest fit.created_at,
      fit.used,
    )

-- Every record stands under its own identifier, and fits the format.
pub record IsStored (x : Index) : Type 0 where
  pub keyed : (k : HashId) (r : Record) → get x k ≡ some r → r.id ≡ k
  pub fits : (k : HashId) (r : Record) → get x k ≡ some r → IsStorable r

-- The records at some keys, put over others.
abbrev over : Option Record → Option Record → Option Record
over none old = old
over (some r) old = some r

lookup-load_from :
    (x : Dict Record) (ks : List HashId) (d : Dict Record) (j : HashId)
    → ((k : HashId) (r : Record) → Dict.lookup k x ≡ some r → r.id ≡ k)
    → Dict.lookup j (load_from d (records_at x ks))
      ≡ (if contains ks j then over (Dict.lookup j x) (Dict.lookup j d) else Dict.lookup j d)
unfolding load_from records_at contains
lookup-load_from x [] d j keyed = refl
lookup-load_from x (k ∷ ks) d j keyed = elim (Option-cases (Dict.lookup k x)) [
  | inl missing ↦ ground (arith, missing, lookup-load_from x ks d j keyed)
  | inr (r, stored) ↦
      let own = keyed k r stored in
      ground (
        arith,
        stored,
        own,
        lookup-load_from x ks (Dict.insert r.id r d) j keyed,
        lookup-insert r.id j r d,
      )
]

-- It is read back, whatever follows.
abbrev IsRead : Record → Type 0
IsRead r = (rest : Bytes) → get_record (put_record r ++ rest) ≡ ok (r, rest)

All-records_at :
    (x : Dict Record) (ks : List HashId)
    → ((k : HashId) (r : Record) → Dict.lookup k x ≡ some r → IsStorable r)
    → All IsRead (records_at x ks)
unfolding records_at
All-records_at x [] fits = tt
All-records_at x (k ∷ ks) fits =
    at (Dict.lookup k x) (records_at x ks) (λ r stored. get_record-put_record r (fits k r stored))
      (All-records_at x ks fits)
  where
    at :
        (found : Option Record) (rest : List Record)
        → ((r : Record) → found ≡ some r → IsRead r)
        → All IsRead rest
        → All IsRead (elim found [ none ↦ rest | some r ↦ r ∷ rest ])
    at none rest here h = h
    at (some r) rest here h = (here r refl, h)

-- What is saved, in whatever order the index is iterated, is loaded again with every record, where
-- each stands under its own nonzero identifier of 32 bytes, the fields are machine words, and there
-- are fewer than 2^32 records.
pub load-save_records :
    (order : List HashId → List HashId) (x : Index)
    → IsOrder order
    → IsStored x
    → length (list order x) < 2 ^ 32
    → (x' : Index) × (load (ok (some (save order x))) ≡ ok x')
      × ((id : HashId) → get x' id ≡ get x id)
unfolding get load save list load_all
load-save_records order x o stored few =
    let d = x.objects in
    let recs = list order x in
    let ks = order (Dict.keys d) in
    let read = get_each-put_each put_record get_record recs (All-records_at d ks stored.fits) in
    (
      load_all recs,
      rw (
        open_frame-frame idx_magic (length recs) (put_each put_record recs) (omega arith) few,
        read,
      ),
      λ id. ground (
        arith,
        lookup-load_from d ks [] id stored.keyed,
        o.contains-order (Dict.keys d) id,
        contains-keys d id,
        lookup-nil {V = Record} id,
      ),
    )
