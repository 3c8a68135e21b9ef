-- ===== src/Gc/Mark.antt =====
-- internal/gc/safety.go: `MarkLive`, which repairs the counts from the manifests. Reading a manifest
-- is a parameter, which the journal does not touch.
use go_shardblob.Base.{
  ℕ, ◌<◌, ◌^◌, ◌≡◌, Bool-cases, map, inl, inr, refl, arith, Bool, List, [], ◌∷◌, All, ◌++◌, ◌==◌,
  contains, ◌||◌, if◌then◌else◌,
}
use go_shardblob.Base.Result.{Result, ok, err}
use go_shardblob.Hashx.{HashId}
use go_shardblob.Manifest.{Manifest, chunk_ids}
use go_shardblob.Index
use go_shardblob.Index.{Index, Record}
use go_shardblob.Refcount.{Journal, IsReliable, Table, get, add}
use go_shardblob.Refcount.Exact.{add_ok, get-add}

module _ (J : Journal) where
  -- The inner loop: a chunk without a count gets one.
  unfoldable pub mark_chunks : Table → J.World → List HashId → Result (Unit {0}) × Table × J.World
  mark_chunks t w [] = (ok tt, t, w)
  mark_chunks t w (id ∷ ids) =
      if get t id == 0
      then (let (r, t', w') = add J t w id 1 in
          elim r [ err e ↦ (err e, t', w') | ok _ ↦ mark_chunks t' w' ids ])
      else mark_chunks t w ids

  module _ (load : HashId → Result Manifest) where
    -- The outer loop, over the identifiers of the records.
    unfoldable pub mark_objects :
        Table → J.World → List HashId → Result (Unit {0}) × Table × J.World
    unfolding mark_chunks
    mark_objects t w [] = (ok tt, t, w)
    mark_objects t w (oid ∷ oids) = elim (load oid) [
      | err e ↦ (err e, t, w)
      | ok mf ↦
          let (r, t', w') = mark_chunks t w (chunk_ids mf) in
          elim r [ err e ↦ (err e, t', w') | ok _ ↦ mark_objects t' w' oids ]
    ]

    -- `MarkLive`, in the order in which the index is iterated.
    unfoldable pub mark_live :
        (List HashId → List HashId) → Index → Table → J.World → Result (Unit {0}) × Table × J.World
    unfolding mark_objects
    mark_live order x t w = mark_objects t w (map (λ (r : Record). r.id) (Index.list order x))

    -- The chunks that the manifests of some objects list.
    unfoldable pub listed : List HashId → List HashId
    listed [] = []
    listed (oid ∷ oids) =
        let rest = listed oids in elim (load oid) [ err e ↦ rest | ok mf ↦ chunk_ids mf ++ rest ]

-- What becomes of a count: one that is zero is set to one where the chunk is listed.
abbrev pub raised : ℕ → Bool → ℕ
raised n is_listed = if n == 0 then (if is_listed then 1 else 0) else n

contains-append :
    (xs ys : List HashId) (j : HashId) → contains (xs ++ ys) j ≡ (contains xs j || contains ys j)
unfolding contains
contains-append [] ys j = refl
contains-append (x ∷ xs) ys j = ground (arith, contains-append xs ys j)

module _ {J : Journal} (JR : IsReliable J) where
  open JR use {Ready}

  mark_chunks_ok :
      (t : Table) (w : J.World) (ids : List HashId)
      → Ready w
      → ((mark_chunks J t w ids).0 ≡ ok tt) × Ready (mark_chunks J t w ids).2
  unfolding mark_chunks
  mark_chunks_ok t w [] r = (refl, r)
  mark_chunks_ok t w (id ∷ ids) r =
      let (done, r') = add_ok JR t w id 1 r in
      elim (Bool-cases (get t id == 0)) [
        | inl none_yet ↦
            rw (none_yet)
              (rw (done, mark_chunks) (mark_chunks_ok (add J t w id 1).1 (add J t w id 1).2 ids r'))
        | inr counted ↦ rw counted (mark_chunks_ok t w ids r)
      ]

  get-mark_chunks :
      (t : Table) (w : J.World) (ids : List HashId) (j : HashId)
      → Ready w
      → get t j < 2 ^ 64
      → get (mark_chunks J t w ids).1 j ≡ raised (get t j) (contains ids j)
  unfolding mark_chunks contains
  get-mark_chunks t w [] j r small = ground arith
  get-mark_chunks t w (id ∷ ids) j r small =
      let (done, r') = add_ok JR t w id 1 r in
      let one_more = get-add JR t w id j 1 r (omega arith) small in
      elim (Bool-cases (get t id == 0)) [
        | inl none_yet ↦ rw none_yet (
            rw (done, mark_chunks)
              (ground
                (arith, one_more, get-mark_chunks (add J t w id 1).1 (add J t w id 1).2 ids j r')))
        | inr counted ↦ rw counted (ground (arith, get-mark_chunks t w ids j r small))
      ]

  module _ (load : HashId → Result Manifest) where
    -- The manifest of an object is there.
    abbrev pub IsLoaded : HashId → Type 0
    IsLoaded oid = (mf : Manifest) × (load oid ≡ ok mf)

    mark_objects_lem :
        (t : Table) (w : J.World) (oids : List HashId)
        → Ready w
        → ((j : HashId) → get t j < 2 ^ 64)
        → All IsLoaded oids
        → let (r, t', w') = mark_objects J load t w oids in
          (r ≡ ok tt)
          × ((j : HashId) → get t' j ≡ raised (get t j) (contains (listed J load oids) j))
    unfolding mark_objects listed contains
    mark_objects_lem t w [] r small hs = (refl, λ j. ground arith)
    mark_objects_lem t w (oid ∷ oids) r small ((mf, loaded), hs) =
        let ids = chunk_ids mf in
        let (done, r') = mark_chunks_ok t w ids r in
        let t1 = (mark_chunks J t w ids).1 in
        let w1 = (mark_chunks J t w ids).2 in
        let here = λ (j : HashId). get-mark_chunks t w ids j r (small j) in
        let (fine, rest) =
          mark_objects_lem t1 w1 oids r' (λ j. ground (arith, here j, small j)) hs in
        rw (loaded, done, mark_objects)
          (fine, λ j. ground (arith, rest j, here j, contains-append ids (listed J load oids) j))

    -- When every manifest of the index can be read, and the journal accepts every record, `MarkLive`
    -- succeeds. Afterwards a count is 1 if it was 0 and some manifest lists the chunk, and otherwise
    -- as before.
    pub mark_live_lem :
        (order : List HashId → List HashId) (x : Index) (t : Table) (w : J.World)
        → Ready w
        → ((j : HashId) → get t j < 2 ^ 64)
        → All IsLoaded (map (λ (r : Record). r.id) (Index.list order x))
        → let (r, t', w') = mark_live J load order x t w in
          (r ≡ ok tt)
          × ((j : HashId)
              → get t' j
                ≡ raised
                    (get t j)
                    (contains (listed J load (map (λ (r : Record). r.id) (Index.list order x))) j))
    unfolding mark_live
    mark_live_lem order x t w r small hs =
        mark_objects_lem t w (map (λ (r : Record). r.id) (Index.list order x)) r small hs
