-- ===== src/Gc/Sweep.antt =====
-- What a collection deletes and what it leaves, over any lawful backend.
use go_shardblob.Base.{
  Bytes, ℕ, ◌+◌, ◌≡◌, refl, ap, sym, ◌∙◌, arith, Bool, true, false, Option, none, some, List, [],
  ◌∷◌, length, ltb, ◌==◌, ◌=?◌, if◌then◌else◌, contains, NoRepeat, inl, inr, Option-cases,
}
use go_shardblob.Base.Result.{ok}
use go_shardblob.Hashx.{HashId}
use go_shardblob.Blobstore.{Backend, IsLawful}
use go_shardblob.Refcount
use go_shardblob.Refcount.{Table}
use go_shardblob.Gc.{Stats, no_stats, visit, visit_all, run}

-- What is stored after a collection: a chunk without references is gone.
abbrev pub survivors : Bool → ℕ → Option Bytes → Option Bytes
survivors true n c = c
survivors false n c = if n == 0 then none else c

module _ {B : Backend} (L : IsLawful B) where
  open L use {Ready, contents}

  -- One visit: no error, the state stays ready, and at most the chunk visited is deleted.
  visit_lem :
      (dry : Bool) (t : Table) (st : Stats) (s : B.State) (id : HashId)
      → Ready s
      → ((visit B dry t st s id).0 ≡ ok tt) × Ready (visit B dry t st s id).2
  unfolding visit
  visit_lem dry t st s id r = elim (Option-cases (contents s id)) [
    | inl no_chunk ↦ ground (arith, L.get_lem s id r)
    | inr (p, stored) ↦ ground (arith, L.get_lem s id r, L.delete_ok s id r, L.delete-Ready s id r)
  ]

  contents-visit :
      (dry : Bool) (t : Table) (st : Stats) (s : B.State) (id j : HashId)
      → Ready s
      → contents (visit B dry t st s id).2 j
        ≡ (if id =? j then survivors dry (Refcount.get t j) (contents s j) else contents s j)
  unfolding visit
  contents-visit dry t st s id j r = elim (Option-cases (contents s id)) [
    | inl no_chunk ↦ ground (arith, L.get_lem s id r)
    | inr (p, stored) ↦
        ground (arith, L.get_lem s id r, L.delete_ok s id r, L.contents-delete s id j r)
  ]

  visit_all_lem :
      (dry : Bool) (t : Table) (st : Stats) (s : B.State) (ids : List HashId)
      → Ready s
      → ((visit_all B dry t st s ids).0 ≡ ok tt) × Ready (visit_all B dry t st s ids).2
  unfolding visit_all
  visit_all_lem dry t st s [] r = (refl, r)
  visit_all_lem dry t st s (id ∷ ids) r =
      let (done, r') = visit_lem dry t st s id r in
      rw (done, visit_all)
        (visit_all_lem dry t (visit B dry t st s id).1 (visit B dry t st s id).2 ids r')

  contents-visit_all :
      (dry : Bool) (t : Table) (st : Stats) (s : B.State) (ids : List HashId) (j : HashId)
      → Ready s
      → contents (visit_all B dry t st s ids).2 j
        ≡ (if contains ids j then survivors dry (Refcount.get t j) (contents s j) else contents s j)
  unfolding visit_all contains
  contents-visit_all dry t st s [] j r = refl
  contents-visit_all dry t st s (id ∷ ids) j r =
      let (done, r') = visit_lem dry t st s id r in
      let s' = (visit B dry t st s id).2 in
      rw (done, visit_all)
        (ground (
          arith,
          contents-visit dry t st s id j r,
          contents-visit_all dry t (visit B dry t st s id).1 s' ids j r',
        ))

  -- On a lawful backend a collection does not fail, and leaves exactly the chunks that have
  -- references: each of them with its bytes, and no other.
  pub run_exact :
      (t : Table) (s : B.State)
      → Ready s
      → ((run B false t s).0 ≡ ok tt)
        × Ready (run B false t s).2
        × ((j : HashId)
            → contents (run B false t s).2 j
              ≡ (if Refcount.get t j == 0 then none else contents s j))
  unfolding run
  run_exact t s r =
      let ids = L.listing s in
      rw (L.list_lem s r, run)
        (
          (visit_all_lem false t no_stats s ids r).0,
          (visit_all_lem false t no_stats s ids r).1,
          λ j.
              ground
                (arith, contents-visit_all false t no_stats s ids j r, L.listing_complete s j r),
        )

  -- The counters of one visit: it depends on the table and on what is stored at the identifier.
  abbrev tally : Table → Stats → HashId → Option Bytes → Stats
  tally t st id c =
      let st' : Stats = record st { scanned = st.scanned + 1 } in
      if ltb 0 (Refcount.get t id) then record st' { retained = st'.retained + 1 } else elim c [
        | none ↦ record st' { skipped = st'.skipped + 1 }
        | some p ↦ record st' { deleted = st'.deleted + 1; bytes_free = st'.bytes_free + length p }
      ]

  visit-tally :
      (dry : Bool) (t : Table) (st : Stats) (s : B.State) (id : HashId)
      → Ready s
      → (visit B dry t st s id).1 ≡ tally t st id (contents s id)
  unfolding visit
  visit-tally dry t st s id r = elim (Option-cases (contents s id)) [
    | inl no_chunk ↦ ground (arith, L.get_lem s id r)
    | inr (p, stored) ↦ ground (arith, L.get_lem s id r, L.delete_ok s id r)
  ]

  -- Every identifier scanned is counted as deleted, retained or skipped.
  visit_all-scanned :
      (dry : Bool) (t : Table) (st : Stats) (s : B.State) (ids : List HashId)
      → Ready s
      → st.scanned ≡ st.deleted + st.retained + st.skipped
      → let st' = (visit_all B dry t st s ids).1 in
        (st'.scanned ≡ st.scanned + length ids)
        × (st'.scanned ≡ st'.deleted + st'.retained + st'.skipped)
  unfolding visit_all
  visit_all-scanned dry t st s [] r h = (omega arith, h)
  visit_all-scanned dry t st s (id ∷ ids) r h =
      let (done, r') = visit_lem dry t st s id r in
      rw (done, visit_all)
        (ground (
          arith,
          visit-tally dry t st s id r,
          visit_all-scanned dry t (visit B dry t st s id).1 (visit B dry t st s id).2 ids r',
        ))

  -- Two states that store the same at every identifier listed are tallied alike, dry or not.
  visit_all-tally :
      (d e : Bool) (t : Table) (st : Stats) (s u : B.State) (ids : List HashId)
      → Ready s
      → Ready u
      → NoRepeat ids
      → ((j : HashId) → contains ids j ≡ true → contents s j ≡ contents u j)
      → (visit_all B d t st s ids).1 ≡ (visit_all B e t st u ids).1
  unfolding visit_all contains
  visit_all-tally d e t st s u [] rs ru distinct same = refl
  visit_all-tally d e t st s u (id ∷ ids) rs ru (once, distinct) same =
      let (done, rs') = visit_lem d t st s id rs in
      let (done', ru') = visit_lem e t st u id ru in
      let here = same id (ground arith) in
      let alike =
        visit-tally d t st s id rs ∙ ap (tally t st id) here ∙ sym (visit-tally e t st u id ru) in
      rw (done, done', visit_all, alike)
        (visit_all-tally d e t (visit B e t st u id).1 (visit B d t st s id).2
          (visit B e t st u id).2 ids rs' ru' distinct
          (λ j listed. ground (
            arith,
            once,
            same j,
            contents-visit d t st s id j rs,
            contents-visit e t st u id j ru,
          )))

  -- On a lawful backend a dry run deletes nothing and reports exactly what the run would report.
  pub dry_run_predicts :
      (t : Table) (s : B.State)
      → Ready s
      → ((run B true t s).1 ≡ (run B false t s).1)
        × ((j : HashId) → contents (run B true t s).2 j ≡ contents s j)
  unfolding run
  dry_run_predicts t s r =
      let ids = L.listing s in
      rw (L.list_lem s r, run)
        (
          visit_all-tally true false t no_stats s s ids r r (L.listing-NoRepeat s r) (λ j h. refl),
          λ j. ground (arith, contents-visit_all true t no_stats s ids j r),
        )

  -- On a lawful backend the report of a run, dry or not, is complete: as many scanned as stored identifiers are listed, each of them deleted,
  -- retained or skipped.
  pub run_counts :
      (dry : Bool) (t : Table) (s : B.State)
      → Ready s
      → ((run B dry t s).1.scanned ≡ length (L.listing s))
        × ((run B dry t s).1.scanned
            ≡ (run B dry t s).1.deleted + (run B dry t s).1.retained + (run B dry t s).1.skipped)
  unfolding run
  run_counts dry t s r =
      rw (L.list_lem s r, run) (ground (arith, visit_all-scanned dry t no_stats s (L.listing s) r))
