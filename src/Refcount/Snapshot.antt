-- ===== src/Refcount/Snapshot.antt =====
-- internal/refcount/snapshot.go: the counts as a file. The bytes go to `layout.WriteAtomic` and come
-- from `os.ReadFile`.
use go_shardblob.Base.{
  Bytes, ℕ, ◌+◌, ◌^◌, ◌<◌, ◌≡◌, refl, sym, ap, ◌∙◌, arith, Option, none, some, List, [], ◌∷◌, ◌++◌,
  append_assoc, length, ltb, if◌then◌else◌,
}
use go_shardblob.Base.Dict
use go_shardblob.Base.Dict.{Dict, NodupKeys, lookup-insert, lookup-nil, insert-NodupKeys}
use go_shardblob.Base.Result.{Result, ok, err, ◌>>=◌}
use go_shardblob.Base.Wire.{le, get_bytes, get_uint, get_bytes-append, get_uint-le}
use go_shardblob.Base.Snapshot.{
  frame, open_frame, open_frame-frame, put_each, get_each, get_each-put_each, IsIteration,
  All-lookup,
}
use go_shardblob.Hashx.{HashId, copy_id}
use go_shardblob.Hashx.Tags.{copy_id_of_wide}
use go_shardblob.Refcount.{Table, new_table, get, or_zero, snapshot, load_map}

abbrev pub snap_magic : ℕ
snap_magic = 0x53465253

unfoldable pub put_count : HashId × ℕ → Bytes
put_count (id, n) = copy_id id ++ le 8 n

unfoldable pub get_count : Bytes → Result ((HashId × ℕ) × Bytes)
get_count r = do (id, r1) ← get_bytes 32 r; (n, r2) ← get_uint 8 r1; ok ((id, n), r2)

-- The bytes of `Save`, in the order of iteration.
unfoldable pub save : (Dict ℕ → Dict ℕ) → Table → Bytes
unfolding put_count
save order t = let m = order (snapshot t) in frame snap_magic (length m) (put_each put_count m)

-- `m[id] = c` for each entry with a count.
unfoldable pub gather : Dict ℕ → List (HashId × ℕ) → Dict ℕ
gather m [] = m
gather m ((id, c) ∷ es) = if ltb 0 c then gather (Dict.insert id c m) es else gather m es

unfoldable pub load_bytes : Bytes → Result Table
unfolding get_count gather
load_bytes raw = do
  (n, r) ← open_frame snap_magic raw
  es ← get_each get_count n r
  ok (load_map (gather [] es))

-- `Load` of what `os.ReadFile` answers: `none` where there is no file.
unfoldable pub load : Result (Option Bytes) → Result Table
unfolding load_bytes
load (err e) = err e
load (ok none) = ok new_table
load (ok (some raw)) = load_bytes raw

-- A table as it fits the format: keys of 32 bytes, machine words, fewer than 2^32 entries.
pub record IsStorable (t : Table) (visited : Dict ℕ) : Type 0 where
  pub wide : (id : HashId) (n : ℕ) → Dict.lookup id t.counts ≡ some n → length id ≡ 32
  pub word : (id : HashId) (n : ℕ) → Dict.lookup id t.counts ≡ some n → n < 2 ^ 64
  pub few : length visited < 2 ^ 32

get_count-put_count :
    (id : HashId) (n : ℕ)
    → length id ≡ 32
    → n < 2 ^ 64
    → (rest : Bytes) → get_count (put_count (id, n) ++ rest) ≡ ok ((id, n), rest)
unfolding get_count put_count
get_count-put_count id n wide fits rest = rw (
  copy_id_of_wide id wide,
  append_assoc,
  get_bytes-append 32 id (le 8 n ++ rest) wide,
  get_uint-le 8 n rest fits,
)

-- A count of zero is not there.
get-load_map :
    (m : Dict ℕ) → NodupKeys m → (id : HashId) → get (load_map m) id ≡ or_zero (Dict.lookup id m)
unfolding get load_map Dict.lookup
get-load_map [] h id = refl
get-load_map ((j, n) ∷ m) (fresh, h) id =
    ground (arith, get-load_map m h id, lookup-insert j id n (load_map m).counts)

-- Entries that are not there yet are added, with their counts.
gather-lookup :
    (m : Dict ℕ) (es : List (HashId × ℕ))
    → NodupKeys m
    → NodupKeys es
    → ((id : HashId) (n : ℕ) → Dict.lookup id es ≡ some n → Dict.lookup id m ≡ none)
    → NodupKeys (gather m es)
      × ((id : HashId)
          → or_zero (Dict.lookup id (gather m es))
            ≡ or_zero (Dict.lookup id m) + or_zero (Dict.lookup id es))
unfolding gather Dict.lookup
gather-lookup m [] h g apart = (h, λ id. omega arith)
gather-lookup m ((j, n) ∷ es) h (fresh, g) apart =
    let new = apart j n (ground arith) in
    let ih =
      gather-lookup (Dict.insert j n m) es (insert-NodupKeys j n m h) g
        (λ i v e. ground (arith, lookup-insert j i n m, apart i v)) in
    let skip = gather-lookup m es h g (λ i v e. ground (arith, apart i v)) in
    (ground (arith, ih.0, skip.0), λ id. ground (arith, ih.1 id, skip.1 id, lookup-insert j id n m))

-- What is saved, in whatever order the table is iterated, is loaded again: every count is as it was,
-- where the keys are identifiers of 32 bytes, the counts are machine words, and there are fewer than
-- 2^32 of them.
pub load-save_counts :
    (order : Dict ℕ → Dict ℕ) (t : Table)
    → IsIteration t.counts (order t.counts)
    → IsStorable t (order t.counts)
    → (t' : Table) × (load (ok (some (save order t))) ≡ ok t')
      × ((id : HashId) → get t' id ≡ get t id)
unfolding get load save snapshot
load-save_counts order t it fit =
    let m = order t.counts in
    let entries =
      All-lookup (λ k v. (rest : Bytes) → get_count (put_count (k, v) ++ rest) ≡ ok ((k, v), rest))
        m it.once
        (λ k v e.
          get_count-put_count k v (fit.wide k v (sym (it.same k) ∙ e))
            (fit.word k v (sym (it.same k) ∙ e))) in
    let read = get_each-put_each put_count get_count m entries in
    let (once, sums) = gather-lookup [] m tt it.once (λ i v e. lookup-nil i) in
    (
      load_map (gather [] m),
      rw (
        open_frame-frame snap_magic (length m) (put_each put_count m) (omega arith) fit.few,
        read,
      ),
      λ id. omega (
        arith,
        get-load_map (gather [] m) once id,
        sums id,
        ap or_zero (it.same id),
        ap or_zero (lookup-nil {V = ℕ} id),
      ),
    )
