-- ===== src/Gc.antt =====
-- internal/gc: the collector (collector.go), and the repair and checks around it (safety.go).
pub mod Sweep
pub mod Mark
use go_shardblob.Base.{
  ℕ, ◌+◌, Bool, true, false, Option, none, some, List, [], ◌∷◌, length, ltb, ◌==◌, if◌then◌else◌,
}
use go_shardblob.Base.Result.{Result, ok, err, ◌>>=◌, missing_chunk}
use go_shardblob.Hashx.{HashId}
use go_shardblob.Blobstore.{Backend}
use go_shardblob.Refcount
use go_shardblob.Refcount.{Table}

-- `Stats`
pub record Stats : Type 0 where
  pub scanned : ℕ
  pub deleted : ℕ
  pub retained : ℕ
  pub bytes_free : ℕ
  pub skipped : ℕ

abbrev pub no_stats : Stats
no_stats = record { scanned = 0; deleted = 0; retained = 0; bytes_free = 0; skipped = 0 }

abbrev pub retain : Stats → Stats
retain st = record st { retained = st.retained + 1 }

abbrev pub skip : Stats → Stats
skip st = record st { skipped = st.skipped + 1 }

abbrev pub free : Stats → ℕ → Stats
free st n = record st { deleted = st.deleted + 1; bytes_free = st.bytes_free + n }

module _ (B : Backend) where
  -- The callback of `Run` at one identifier, after the size is known.
  unfoldable pub reclaim :
      Bool → Table → Stats → B.State → HashId → ℕ → Result (Unit {0}) × Stats × B.State
  reclaim dry t st s id n =
      if dry
      then (ok tt, free st n, s)
      else if ltb 0 (Refcount.get t id)
      then (ok tt, retain st, s)
      else let (r, s') = B.delete s id in
        elim r [ err e ↦ (err e, st, s') | ok _ ↦ (ok tt, free st n, s') ]

  -- The callback of `Run` at one identifier.
  unfoldable pub visit :
      Bool → Table → Stats → B.State → HashId → Result (Unit {0}) × Stats × B.State
  unfolding reclaim
  visit dry t st s id =
      let st' : Stats = record st { scanned = st.scanned + 1 } in
      if ltb 0 (Refcount.get t id) then (ok tt, retain st', s) else elim (B.get s id) [
        | err e ↦ (ok tt, skip st', s)
        | ok p ↦ reclaim dry t st' s id (length p)
      ]

  -- `List` with that callback: it stops at the first error.
  unfoldable pub visit_all :
      Bool → Table → Stats → B.State → List HashId → Result (Unit {0}) × Stats × B.State
  visit_all dry t st s [] = (ok tt, st, s)
  visit_all dry t st s (id ∷ ids) =
      let (r, st', s') = visit dry t st s id in
      elim r [ err e ↦ (err e, st', s') | ok _ ↦ visit_all dry t st' s' ids ]

  -- `Collector.Run`
  unfoldable pub run : Bool → Table → B.State → Result (Unit {0}) × Stats × B.State
  run dry t s = elim (B.list s) [
    | err e ↦ (err e, no_stats, s)
    | ok ids ↦ visit_all dry t no_stats s ids
  ]

  -- `SweepIDs`, from the counters so far.
  unfoldable pub sweep_ids :
      Table → Stats → B.State → List HashId → Result (Unit {0}) × Stats × B.State
  sweep_ids t st s [] = (ok tt, st, s)
  sweep_ids t st s (id ∷ ids) =
      let st' : Stats = record st { scanned = st.scanned + 1 } in
      let live = sweep_ids t (retain st') s ids in
      let unread = sweep_ids t (skip st') s ids in
      if ltb 0 (Refcount.get t id) then live else elim (B.get s id) [
        | err e ↦ unread
        | ok p ↦
            let (r, s') = B.delete s id in
            elim r [ err e ↦ (err e, st', s') | ok _ ↦ sweep_ids t (free st' (length p)) s' ids ]
      ]

  -- `Orphans`: the callback never fails.
  unfoldable pub orphans_of : Table → List HashId → List HashId
  orphans_of t [] = []
  orphans_of t (id ∷ ids) =
      let rest = orphans_of t ids in if Refcount.zero_or_missing t id then id ∷ rest else rest

  unfoldable pub orphans : Table → B.State → Result (List HashId)
  unfolding orphans_of
  orphans t s = B.list s >>= λ ids. ok (orphans_of t ids)

  -- `AssertSafe`, over the live identifiers.
  unfoldable pub all_present : B.State → List HashId → Result (Unit {0})
  all_present s [] = ok tt
  all_present s (id ∷ ids) =
      let rest = all_present s ids in
      B.has s id >>= λ there. if there then rest else err missing_chunk

  unfoldable pub assert_safe : (List HashId → List HashId) → Table → B.State → Result (Unit {0})
  unfolding all_present
  assert_safe order t s = all_present s (Refcount.live order t)
