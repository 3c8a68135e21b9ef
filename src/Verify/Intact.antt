-- ===== src/Verify/Intact.antt =====
-- `Object` accepts exactly the objects that are intact.
use go_shardblob.Base.{
  Bytes, ℕ, ◌+◌, ◌%◌, ◌^◌, ◌<◌, ◌≡◌, ◌↔◌, refl, sym, ap, ◌∙◌, arith, true, false, Option, none,
  some, List, [], ◌∷◌, ◌++◌, length, length-append, All, inl, inr, Option-cases,
}
use go_shardblob.Base.Result.{ok, Result-cases}
use go_shardblob.Hashx.{
  HashId, Algo, Hash, new_tagged, write, tagged_id, tag_object, chunk_id, object_id, sum_tagged,
}
use go_shardblob.Hashx.Tags.{length-chunk_id, length-tagged_id, write-write, write-nil}
use go_shardblob.Hashx.Ids.{equal_id, equal_id_iff}
use go_shardblob.Hashx.Registry.{Registry, find}
use go_shardblob.Manifest.{Manifest, Entry, set_version, validate}
use go_shardblob.Blobstore.{Backend, IsLawful, found}
use mathlib.Core.Path.{ap₂, subst}
use go_shardblob.Manifest.Codec.RoundTrip.{validate-eq}
use go_shardblob.Verify.{
  Kind, kind_chunk_hash, kind_chunk_miss, kind_chunk_size, kind_object_hash, kind_manifest,
  kind_algo, Report, no_faults, is_ok, Fault, add, check_chunk, check_chunks, conclude, object_by,
  object,
}

-- The chunks of the entries are stored, each with the size and the digest that its entry says, and
-- make up `c`.
abbrev pub AllIntact : (HashId → Option Bytes) → Algo → List Entry → Bytes → Type 0
AllIntact at a [] c = c ≡ []
AllIntact at a (e ∷ es) c =
    (p : Bytes) × (c' : Bytes) × (at e.id ≡ some p)
    × (length p % 2 ^ 32 ≡ e.size)
    × (chunk_id a p ≡ e.id)
    × (c ≡ p ++ c')
    × AllIntact at a es c'

-- The object of a manifest is intact with the content `c`: its chunks are, and `c` has the size and
-- the digest of the manifest.
abbrev pub IsIntact : (HashId → Option Bytes) → Algo → Manifest → Bytes → Type 0
IsIntact at a mf c =
    AllIntact at a mf.chunks c × (length c % 2 ^ 64 ≡ mf.total_size) × (object_id a c ≡ mf.object)

-- The identifiers are arrays of 32 bytes.
abbrev pub AllWide : List Entry → Type 0
AllWide = All (λ (e : Entry). length e.id ≡ 32)

is_ok-add : (r : Report) (k : Kind) (i : Option ℕ) → is_ok (add r k i) ≡ false
unfolding is_ok add
is_ok-add r k i = at r.faults
  where
    at : (fs : List Fault) → no_faults (fs ++ (record { kind = k; chunk = i } ∷ [])) ≡ false
    at [] = refl
    at (f ∷ fs) = refl

chunk_id_iff :
    (a : Algo) (p : Bytes) (id : HashId)
    → length id ≡ 32
    → (equal_id (chunk_id a p) id ≡ true) ↔ (chunk_id a p ≡ id)
chunk_id_iff a p id wide = equal_id_iff (chunk_id a p) id (length-chunk_id a p ∙ sym wide)

-- A chunk that is as its entry says adds no fault, and no other chunk leaves the report without one.
check_chunk_good :
    (a : Algo) (i : ℕ) (e : Entry) (p : Bytes) (rep : Report)
    → length e.id ≡ 32
    → length p % 2 ^ 32 ≡ e.size
    → chunk_id a p ≡ e.id
    → check_chunk a i e p rep ≡ rep
unfolding check_chunk
check_chunk_good a i e p rep wide sized hashed =
    ground (arith, sized, (chunk_id_iff a p e.id wide).1 hashed)

check_chunk_sound :
    (a : Algo) (i : ℕ) (e : Entry) (p : Bytes) (rep : Report)
    → length e.id ≡ 32
    → is_ok (check_chunk a i e p rep) ≡ true
    → (is_ok rep ≡ true) × (length p % 2 ^ 32 ≡ e.size) × (chunk_id a p ≡ e.id)
unfolding check_chunk
check_chunk_sound a i e p rep wide h =
    let one = is_ok-add rep kind_chunk_size (some i) in
    let two = is_ok-add rep kind_chunk_hash (some i) in
    let both = is_ok-add (add rep kind_chunk_size (some i)) kind_chunk_hash (some i) in
    (
      ground (arith, one, two, both),
      ground (arith, one, two, both),
      (chunk_id_iff a p e.id wide).0 (ground (arith, one, two, both)),
    )

module _ {B : Backend} (L : IsLawful B) where
  open L use {Ready, contents, get_lem}

  check_chunks_good :
      (a : Algo) (b : B.State) (i : ℕ) (es : List Entry) (rep : Report) (obj : Hash) (wrote : ℕ)
      (c : Bytes)
      → Ready b
      → AllWide es
      → AllIntact (contents b) a es c
      → wrote < 2 ^ 64
      → check_chunks B a b i es rep obj wrote ≡ (rep, write obj c, (wrote + length c) % 2 ^ 64)
  unfolding check_chunks
  check_chunks_good a b i [] rep obj wrote c r wide empty small =
      rw (empty, write-nil) (ap (λ n. (rep, obj, n)) (omega arith))
  check_chunks_good a b i (e ∷ es) rep obj wrote c r (w, wide)
        (p, c', there, sized, hashed, split, rest) small =
      let ih =
        check_chunks_good a b (i + 1) es rep (write obj p) ((wrote + length p) % 2 ^ 64) c' r wide
          rest (omega arith) in
      let total : ((wrote + length p) % 2 ^ 64 + length c') % 2 ^ 64 ≡ (wrote + length c) % 2 ^ 64 =
        omega (arith, ap length split, length-append {0} p c') in
      rw (get_lem b e.id r, there, check_chunks)
        (rw (check_chunk_good a i e p rep w sized hashed)
          (ih ∙ ap₂ (λ h n. (rep, h, n)) (write-write obj p c' ∙ ap (write obj) (sym split)) total))

  check_chunks_sound :
      (a : Algo) (b : B.State) (i : ℕ) (es : List Entry) (rep : Report) (obj : Hash) (wrote : ℕ)
      → Ready b
      → AllWide es
      → is_ok (check_chunks B a b i es rep obj wrote).0 ≡ true
      → (is_ok rep ≡ true) × (c : Bytes) × AllIntact (contents b) a es c
  unfolding check_chunks
  check_chunks_sound a b i [] rep obj wrote r wide h = (h, [], refl)
  check_chunks_sound a b i (e ∷ es) rep obj wrote r (w, wide) h =
      elim (Option-cases (contents b e.id)) [
        | inl missing ↦
            let got = get_lem b e.id r ∙ ap found missing in
            let next =
              check_chunks_sound a b (i + 1) es (add rep kind_chunk_miss (some i)) obj wrote r wide
                (rw (got, check_chunks) at h) in
            absurd (ground (arith, is_ok-add rep kind_chunk_miss (some i), next.0))
        | inr (p, there) ↦
            let got = get_lem b e.id r ∙ ap found there in
            let (good, c, rest) =
              check_chunks_sound a b (i + 1) es (check_chunk a i e p rep) (write obj p)
                ((wrote + length p) % 2 ^ 64) r wide (rw (got, check_chunks) at h) in
            let (before, sized, hashed) = check_chunk_sound a i e p rep w good in
            (before, p ++ c, (p, c, there, sized, hashed, refl, rest))
      ]

  -- What the loop leaves is accepted exactly when there is no fault and the sums are right.
  conclude_iff :
      (mf : Manifest) (rep : Report) (obj : Hash) (wrote : ℕ)
      → length mf.object ≡ 32
      → ((conclude B mf (rep, obj, wrote)).1 ≡ ok tt)
        ↔ ((is_ok rep ≡ true) × (wrote ≡ mf.total_size) × (tagged_id obj ≡ mf.object))
  unfolding conclude
  conclude_iff mf rep obj wrote wide =
      let same = equal_id_iff (tagged_id obj) mf.object (length-tagged_id obj ∙ sym wide) in
      (
        λ h. (ground arith, ground arith, same.0 (ground arith)),
        λ (fine, total, named). ground (arith, fine, total, same.1 named),
      )

  conclude_report :
      (mf : Manifest) (rep : Report) (obj : Hash) (wrote : ℕ)
      → ((conclude B mf (rep, obj, wrote)).1 ≡ ok tt)
        ↔ (is_ok (conclude B mf (rep, obj, wrote)).0 ≡ true)
  unfolding conclude
  conclude_report mf rep obj wrote =
      let one = is_ok-add rep kind_chunk_size none in
      let two = is_ok-add rep kind_object_hash none in
      (λ h. ground (arith, one, two), λ h. ground (arith, one, two))

  tagged_id-written :
      (a : Algo) (c : Bytes) → tagged_id (write (new_tagged a tag_object) c) ≡ object_id a c
  unfolding object_id sum_tagged
  tagged_id-written a c = refl

  validate_keeps :
      (mf mf' : Manifest)
      → validate mf ≡ ok mf'
      → length mf.object ≡ 32
      → AllWide mf.chunks
      → (length mf'.object ≡ 32) × AllWide mf'.chunks
  validate_keeps mf mf' valid named wide =
      subst (λ (m : Manifest). (length m.object ≡ 32) × AllWide m.chunks)
        (sym (validate-eq mf mf' valid)) (unfold set_version in (named, wide))

  checked_iff :
      (a : Algo) (b : B.State) (mf : Manifest) (rep : Report)
      → Ready b
      → length mf.object ≡ 32
      → AllWide mf.chunks
      → is_ok rep ≡ true
      → ((conclude B mf (check_chunks B a b 0 mf.chunks rep (new_tagged a tag_object) 0)).1 ≡ ok tt)
        ↔ ((c : Bytes) × IsIntact (contents b) a mf c)
  checked_iff a b mf rep r named wide fresh =
      let start = new_tagged a tag_object in
      let left = check_chunks B a b 0 mf.chunks rep start 0 in
      let good = λ (c : Bytes) (intact : AllIntact (contents b) a mf.chunks c).
        (check_chunks_good a b 0 mf.chunks rep start 0 c r wide intact (omega arith)
          ∙ ap (λ (n : ℕ). (rep, write start c, n))
              (let same : (0 + length c) % 2 ^ 64 ≡ length c % 2 ^ 64 = omega arith in same)) in
      let said = λ (c : Bytes). conclude_iff mf rep (write start c) (length c % 2 ^ 64) named in
      (
        λ h.
            let (fine, _, _) = (conclude_iff mf left.0 left.1 left.2 named).0 h in
            let (_, c, intact) = check_chunks_sound a b 0 mf.chunks rep start 0 r wide fine in
            let (_, total, name) = (said c).0 (rw (good c intact) at h) in
            (c, (intact, total, sym (tagged_id-written a c) ∙ name)),
        λ (c, (intact, total, name)).
            rw (good c intact) ((said c).1 (fresh, total, tagged_id-written a c ∙ name)),
      )

  -- Of a manifest, over a lawful backend that is ready, `Object` accepts exactly those whose
  -- algorithm is registered, that `Validate` accepts, and whose chunks are all stored, each with the
  -- size and the digest of its entry, and make up a content with the size and the digest of the
  -- manifest, where the identifiers have 32 bytes. Its report has no fault exactly when there is no
  -- error.
  pub object_iff :
      (fold : Bytes → Bytes) (reg : Registry) (b : B.State) (mf : Manifest)
      → Ready b
      → length mf.object ≡ 32
      → AllWide mf.chunks
      → (((object B fold reg b (some mf)).1 ≡ ok tt) ↔ (
          (a : Algo) × (mf' : Manifest) × (c : Bytes) × (find fold reg mf.algo ≡ ok a)
          × (validate mf ≡ ok mf')
          × IsIntact (contents b) a mf' c))
        × (((object B fold reg b (some mf)).1 ≡ ok tt)
            ↔ (is_ok (object B fold reg b (some mf)).0 ≡ true))
  unfolding object object_by
  object_iff fold reg b mf r named wide =
      let rep0 : Report = record {
        object = some mf.object;
        chunks = some (length mf.chunks);
        bytes = mf.total_size;
        faults = [];
      } in
      elim (Result-cases (find fold reg mf.algo)) [
        | inl (e, unknown) ↦
            let bad = is_ok-add rep0 kind_algo none in
            rw (unknown, object_by)
              (
                (λ h. cc, λ (a, mf', c, known, valid, intact). cc),
                (λ h. cc, λ h. ground (arith, bad)),
              )
        | inr (a, known) ↦ elim (Result-cases (validate mf)) [
          | inl (e, invalid) ↦
              let bad = is_ok-add rep0 kind_manifest none in
              rw (known, object_by)
                (rw (invalid, object_by)
                  (
                    (λ h. cc, λ (a', mf', c, known', valid, intact). cc),
                    (λ h. cc, λ h. ground (arith, bad)),
                  ))
          | inr (mf', valid) ↦
              let (named', wide') = validate_keeps mf mf' valid named wide in
              let left = check_chunks B a b 0 mf'.chunks rep0 (new_tagged a tag_object) 0 in
              let (to, from) = checked_iff a b mf' rep0 r named' wide' (unfold is_ok in refl) in
              rw (known, object_by)
                (rw (valid, object_by)
                  (
                    (
                      λ h. let (c, intact) = to h in (a, mf', c, refl, refl, intact),
                      λ (a', mf'', c, known', valid', intact).
                          let same_algo : a' ≡ a = cc in
                          let same_mf : mf'' ≡ mf' = cc in
                          from (
                            c,
                            subst (λ x. IsIntact (contents b) x mf' c) same_algo
                                (subst (λ m. IsIntact (contents b) a' m c) same_mf intact),
                          ),
                    ),
                    conclude_report mf' left.0 left.1 left.2,
                  ))
        ]
      ]
