-- ===== src/Store/Reading.antt =====
-- The reader that `Get` returns (get.go): read to the end, it gives the chunks of the entries, one
-- after the other.
use go_shardblob.Base.{
  Bytes, ℕ, zero, suc, ◌<◌, ◌≤◌, ◌≡◌, refl, sym, ap, ◌∙◌, arith, Option, some, List, [], ◌∷◌, ◌++◌,
  append_assoc, append-nil, length, take, drop, take-append-drop, length-append, length-take, ◌⊎◌,
  inl, inr,
}
use go_shardblob.Base.Result.{ok}
use go_shardblob.Hashx.{HashId}
use go_shardblob.Manifest.{Entry}
use go_shardblob.Blobstore.{Backend, IsLawful}
use go_shardblob.Store.Read.{
  BlobReader, Burst, bytes, at_end, take_burst, at_rest, read_burst, read, read_from,
}

-- The chunks of the entries are stored, and make up `c`.
abbrev pub Holds : (HashId → Option Bytes) → List Entry → Bytes → Type 0
Holds at [] c = c ≡ []
Holds at (e ∷ es) c =
    (p : Bytes) × (c' : Bytes) × (at e.id ≡ some p) × (c ≡ p ++ c') × Holds at es c'

module _ {B : Backend} (L : IsLawful B) where
  open L use {Ready, contents, get_lem}

  get_stored :
      (b : B.State) (id : HashId) (p : Bytes) → Ready b → contents b id ≡ some p → B.get b id ≡ ok p
  get_stored b id p r h = rw (get_lem b id r, h) refl

  -- What one call of `Read` does when `buf` and then `c` are still to come.
  abbrev BurstFits : B.State → Bytes → Bytes → Burst × BlobReader → Type 0
  BurstFits b buf c (n, r') =
      ((buf ++ c ≡ []) × (n ≡ at_end))
      ⊎ ((p : Bytes) × (c' : Bytes) × (n ≡ bytes p)
          × (1 ≤ length p)
          × (r' ≡ at_rest r'.rest r'.buf)
          × (buf ++ c ≡ p ++ (r'.buf ++ c'))
          × Holds (contents b) r'.rest c')

  take_burst-BurstFits :
      (b : B.State) (k : ℕ) (rest : List Entry) (x : ℕ) (xs c : Bytes)
      → 1 ≤ k
      → Holds (contents b) rest c
      → BurstFits b (x ∷ xs) c (take_burst k rest (x ∷ xs))
  take_burst-BurstFits b k rest x xs c some_room h = inr (
    take k (x ∷ xs),
    c,
    refl,
    omega (arith, length-take {0} k (x ∷ xs)),
    refl,
    ap (λ y. y ++ c) (sym (take-append-drop k (x ∷ xs)))
        ∙ append_assoc (take k (x ∷ xs)) (drop k (x ∷ xs)) c,
    h,
  )

  read_burst-BurstFits :
      (b : B.State) (k : ℕ) (rest : List Entry) (buf c : Bytes)
      → Ready b
      → 1 ≤ k
      → Holds (contents b) rest c
      → BurstFits b buf c (read_burst B b k rest buf)
  unfolding read_burst
  read_burst-BurstFits b k [] [] c r room h = inl (h, refl)
  read_burst-BurstFits b k [] (x ∷ xs) c r room h = take_burst-BurstFits b k [] x xs c room h
  read_burst-BurstFits b k (e ∷ es) (x ∷ xs) c r room h =
      take_burst-BurstFits b k (e ∷ es) x xs c room h
  read_burst-BurstFits b k (e ∷ es) [] c r room (p, c', stored, split, h) =
      rw (get_stored b e.id p r stored, split, read_burst)
        (read_burst-BurstFits b k es p c' r room h)

  pub read_from_lem :
      (fuel : ℕ) (b : B.State) (k : ℕ) (rest : List Entry) (buf c out : Bytes)
      → Ready b
      → 1 ≤ k
      → Holds (contents b) rest c
      → length (buf ++ c) < fuel
      → read_from B fuel b k (at_rest rest buf) out ≡ some (ok (out ++ (buf ++ c)))
  unfolding read_from read
  read_from_lem zero b k rest buf c out r room h enough = absurd (omega arith)
  read_from_lem (suc fuel) b k rest buf c out r room h enough =
      elim (read_burst-BurstFits b k rest buf c r room h) [
        | inl (empty, end) ↦ rw (end, read_from) (rw (empty, append-nil) refl)
        | inr (p, c', got, some_bytes, shape, split, h') ↦
            let r' = (read_burst B b k rest buf).1 in
            let fewer : length (r'.buf ++ c') < fuel =
              omega
                (arith, ap length split, length-append {0} p (r'.buf ++ c'), some_bytes, enough) in
            let ih = read_from_lem fuel b k r'.rest r'.buf c' (out ++ p) r room h' fewer in
            rw (got, shape, read_from)
              (ih ∙ ap (λ y. some (ok y)) (append_assoc out p _ ∙ ap (λ y. out ++ y) (sym split)))
      ]
