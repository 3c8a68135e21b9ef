-- ===== src/Layout/Whole.antt =====
-- `WriteAtomic` writes a file whole or not at all (atomic.go).
use go_shardblob.Base.{
  Bytes, ◌≡◌, ◌∙◌, ◌⊎◌, inl, inr, refl, ap, arith, true, Bool-cases, List, [], ◌∷◌, ◌++◌,
}
use go_shardblob.Base.FilePath.{dir_of}
use go_shardblob.Base.Dict
use go_shardblob.Base.Dict.{Dict, present}
use go_shardblob.Base.Result.{Result, ok, err}
use go_shardblob.Layout.{
  Fs, Temp, call, failing, no_change, new_temp, make_dir, sync_temp, drop_temp, close_on, sync_on,
  write_on, create_on, write_atomic, rename, rename_failed, exists, or_clean_up, or_close, or_stop,
  try_call, try_write, remove_temp,
}

-- Two states of the files are the same, for readers and after a power failure.
abbrev pub SameFiles : Fs → Fs → Type 0
SameFiles s s' = (s'.files ≡ s.files) × (s'.beside.durable ≡ s.beside.durable)

-- The file is written whole, with success, for readers and after a power failure; or no file is
-- changed, and success means that there was a file.
abbrev pub Whole : Bytes → Bytes → Fs → Result (Unit {0}) × Fs → Type 0
Whole path body before (r, after) =
    ((after.files ≡ Dict.insert path body before.files)
      × (after.beside.durable ≡ Dict.insert path body before.beside.durable)
      × (r ≡ ok tt))
    ⊎ (SameFiles before after × (r ≡ ok tt → present (Dict.lookup path before.files) ≡ true))

-- The newest temporary file has these bytes, and so much of them is synced.
abbrev HasTemp : Bytes → Bytes → Fs → Type 0
HasTemp bytes synced s =
    (t : Temp) × (ts : List Temp) × (s.beside.temps ≡ t ∷ ts)
    × (t.bytes ≡ bytes)
    × (t.synced ≡ synced)

module _ (path body : Bytes) (before : Fs) where
  same_after :
      (fs : Fs) (does : Fs → Fs)
      → ((s : Fs) → SameFiles s (does s))
      → SameFiles before fs
      → SameFiles before (try_call fs does).1
  same_after fs does h (same, lasting) = elim (Bool-cases (failing fs.plan)) [
    | inl bad ↦ rw bad (same, lasting)
    | inr fine ↦ rw fine ((h (call fs).1).0 ∙ same, (h (call fs).1).1 ∙ lasting)
  ]

  remove_temp-SameFiles : (fs : Fs) → SameFiles before fs → SameFiles before (remove_temp fs)
  remove_temp-SameFiles fs h = same_after fs drop_temp (λ s. (refl, refl)) h

  -- A step that keeps the files, and what it promises to the next where it works.
  abbrev Step : (Fs → Type 0) → Result (Unit {0}) × Fs → Type 0
  Step P (r, fs) = SameFiles before fs × (r ≡ ok tt → P fs)

  -- What is left to do ends as it should.
  abbrev Ends : (Fs → Type 0) → (Fs → Result (Unit {0}) × Fs) → Type 0
  Ends P next = (s : Fs) → SameFiles before s → P s → Whole path body before (next s)

  module _ (P : Fs → Type 0) (next : Fs → Result (Unit {0}) × Fs) (h : Ends P next) where
    or_stop-Whole :
        (o : Result (Unit {0}) × Fs) → Step P o → Whole path body before (or_stop o next)
    or_stop-Whole (err e, fs) (same, then_P) = inr (same, λ k. cc)
    or_stop-Whole (ok u, fs) (same, then_P) = h fs same (then_P refl)

    or_close-Whole :
        (o : Result (Unit {0}) × Fs) → Step P o → Whole path body before (or_close o next)
    or_close-Whole (err e, fs) (same, then_P) =
        inr (remove_temp-SameFiles (call fs).1 same, λ k. cc)
    or_close-Whole (ok u, fs) (same, then_P) = h fs same (then_P refl)

    or_clean_up-Whole :
        (o : Result (Unit {0}) × Fs) → Step P o → Whole path body before (or_clean_up o next)
    or_clean_up-Whole (err e, fs) (same, then_P) = inr (remove_temp-SameFiles fs same, λ k. cc)
    or_clean_up-Whole (ok u, fs) (same, then_P) = h fs same (then_P refl)

  -- A call keeps the files, and does what it says where it works.
  try_call-Step :
      (P : Fs → Type 0) (fs : Fs) (does : Fs → Fs)
      → ((s : Fs) → SameFiles s (does s))
      → SameFiles before fs
      → P (does (call fs).1)
      → Step P (try_call fs does)
  try_call-Step P fs does keeps same done = elim (Bool-cases (failing fs.plan)) [
    | inl bad ↦ rw bad (same, λ k. cc)
    | inr fine ↦
        rw fine (((keeps (call fs).1).0 ∙ same.0, (keeps (call fs).1).1 ∙ same.1), λ k. done)
  ]

  rename-Whole : Ends (HasTemp body body) (rename path)
  unfolding rename rename_failed exists
  rename-Whole fs same (t, ts, is, has, synced) = elim (Bool-cases (failing fs.plan)) [
    | inr fine ↦
        rw (fine, is, has, synced)
          (inl (ap (Dict.insert path body) same.0, ap (Dict.insert path body) same.1, refl))
    | inl bad ↦
        let fs' = (call (call fs).1).1 in
        rw bad (inr (remove_temp-SameFiles fs' same, λ k. rw (← same.0) (ground arith)))
  ]

  close_on-Whole : Ends (HasTemp body body) (close_on path)
  unfolding close_on
  close_on-Whole fs same temp =
      or_clean_up-Whole (HasTemp body body) (rename path) rename-Whole (try_call fs no_change)
        (try_call-Step (HasTemp body body) fs no_change (λ s. (refl, refl)) same temp)

  sync_on-Whole : Ends (HasTemp body []) (sync_on path)
  unfolding sync_on
  sync_on-Whole fs same (t, ts, is, has, none_yet) =
      or_close-Whole (HasTemp body body) (close_on path) close_on-Whole (try_call fs sync_temp) (
        try_call-Step (HasTemp body body) fs sync_temp (λ s. (refl, refl)) same
          (record t { synced = t.bytes }, ts, rw is refl, has, has))

  write_on-Whole : Ends (HasTemp [] []) (write_on path body)
  unfolding write_on
  write_on-Whole fs same (t, ts, is, has, none_yet) =
      or_close-Whole (HasTemp body []) (sync_on path) sync_on-Whole (try_write fs body)
        (elim (Bool-cases (failing fs.plan)) [
          | inl bad ↦ rw bad (same, λ k. cc)
          | inr fine ↦ rw fine (
            same,
            λ k. (record t { bytes = t.bytes ++ body }, ts, rw is refl, rw has refl, none_yet),
          )
        ])

  create_on-Whole : Ends (λ s. Unit {0}) (create_on path body)
  unfolding create_on
  create_on-Whole fs same u =
      or_stop-Whole (HasTemp [] []) (write_on path body) write_on-Whole (try_call fs new_temp) (
        try_call-Step (HasTemp [] []) fs new_temp (λ s. (refl, refl)) same
          (record { bytes = []; synced = [] }, fs.beside.temps, refl, refl, refl))

-- Whichever calls of the operating system fail, and however much a failing `Write` writes,
-- `WriteAtomic` either leaves every file as it was, or puts the one file in place with exactly the
-- given data and leaves every other as it was. This holds of what readers see, and of what a power
-- failure leaves, if a rename lasts and file data lasts once it is synced. The latter case is always a
-- success; the former is one only if there was a file already.
pub write_atomic-Whole :
    (fs : Fs) (path body : Bytes) → Whole path body fs (write_atomic fs path body)
unfolding write_atomic
write_atomic-Whole fs path body =
    or_stop-Whole path body fs (λ s. Unit {0}) (create_on path body) (create_on-Whole path body fs)
      (try_call fs (make_dir (dir_of path)))
      (try_call-Step path body fs (λ s. Unit {0}) fs (make_dir (dir_of path)) (λ s. (refl, refl))
        (refl, refl) tt)
