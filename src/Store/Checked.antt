-- ===== src/Store/Checked.antt =====
-- An object that was put passes verification (put.go, verify.go).
use go_shardblob.Base.{
  Bytes, ℕ, ◌%◌, ◌^◌, ◌≡◌, refl, sym, ap, ◌∙◌, arith, none, some, List, [], ◌∷◌, length,
}
use mathlib.Core.Path.{subst}
use go_shardblob.Base.Result.{Result, ok, ◌>>◌}
use go_shardblob.Hashx.{HashId, Algo, chunk_id, object_id}
use go_shardblob.Hashx.Tags.{length-object_id, length-chunk_id}
use go_shardblob.Hashx.Registry.{Registry, find}
use go_shardblob.Chunk.Policy.Bounds.{normalize-IsNormal, IsNormal}
use go_shardblob.Chunk.Reader.{Reader, content}
use go_shardblob.Chunk.Splitter.{Piece}
use go_shardblob.Chunk.Splitter.Split.{pieces_of, pieces_of-joined, pieces_of-IsRun, IsRun, joined}
use go_shardblob.Manifest.{Manifest, validate, sum_sizes}
use go_shardblob.Manifest.Codec.RoundTrip.{decode-valid}
use go_shardblob.Blobstore.{Backend, IsLawful}
use go_shardblob.Index
use go_shardblob.Store.{Store, Config, put, is_cdc_mode}
use go_shardblob.Store.Medium.{Media, IsSound}
use go_shardblob.Store.Pieces.{
  entries_of, store_all, store_all_keeps, stored_as_meant, put_agrees, Agrees,
}
use go_shardblob.Store.Described.{described, new_manifest_lem, sum_sizes_lem}
use go_shardblob.Store.RoundTrip.{CanPut, filled, put-Serves, manifest_for, begin_io_ok}
use go_shardblob.Store.Served.{Serves}
use go_shardblob.Store.Verifying.{verify}
use go_shardblob.Verify.{object}
use go_shardblob.Verify.Intact.{AllIntact, AllWide, IsIntact, object_iff}

entries_of-AllWide : (a : Algo) (ps : List Piece) → AllWide (entries_of a ps)
entries_of-AllWide a [] = tt
entries_of-AllWide a (p ∷ ps) = (length-chunk_id a p.bytes, entries_of-AllWide a ps)

module _ {B : Backend} {M : Media} (L : IsLawful B) (S : IsSound M) where
  open L use {Ready, contents, put-Ready}

  store_all-AllIntact :
      (book : HashId → Bytes) (a : Algo) (b : B.State) (ps : List Piece)
      → Ready b
      → Agrees L book a b ps
      → AllIntact (contents (store_all B a b ps)) a (entries_of a ps) (joined ps)
  store_all-AllIntact book a b [] r h = refl
  store_all-AllIntact book a b (p ∷ ps) r (known, (meant, all)) =
      let id = chunk_id a p.bytes in
      let b' = (B.put b id p.bytes).1 in
      let r' = put-Ready b id p.bytes r in
      (
        p.bytes,
        joined ps,
        store_all_keeps L a b' ps id p.bytes r' (stored_as_meant L book b id p.bytes r known meant),
        refl,
        refl,
        refl,
        store_all-AllIntact book a b' ps r'
            ((λ j d e. put_agrees L book b id p.bytes r known meant j d e), all),
      )

  manifest_for-IsIntact :
      (book : HashId → Bytes) (c : Config) (s : Store B M) (p : Bytes)
      → CanPut L S book c s p
      → IsIntact (contents (filled L S c s p).blobs) c.algo (manifest_for c p) p
  manifest_for-IsIntact book c s p h =
      let ps = pieces_of c.policy p in
      let es = entries_of c.algo ps in
      let whole = pieces_of-joined c.policy p in
      let shape : manifest_for c p
          ≡ described c.algo.name (c.policy.avg % 2 ^ 32) (is_cdc_mode c.policy.mode)
              (object_id c.algo p) es (sum_sizes 0 es) =
        new_manifest_lem c.algo.name _ _ (object_id c.algo p) es in
      let n = subst IsNormal h.normal (normalize-IsNormal c.policy) in
      let run = subst (λ q. IsRun q.max 0 0 ps) h.normal (pieces_of-IsRun c.policy p h.room) in
      let total =
        sum_sizes_lem c.algo c.policy.max 0 0 ps run (omega (arith, n.max-le))
          (omega (arith, ap length whole, h.room)) in
      let intact = store_all-AllIntact book c.algo s.blobs ps h.blobs_ready h.agrees in
      (
        subst (λ (m : Manifest). AllIntact (contents (filled L S c s p).blobs) c.algo m.chunks p)
            (sym shape)
            (subst (λ q. AllIntact (contents (filled L S c s p).blobs) c.algo es q) whole intact),
        omega (arith, ap (λ (m : Manifest). m.total_size) shape, total, ap length whole, h.room),
        sym (ap (λ (m : Manifest). m.object) shape),
      )

  accepts_manifest_for :
      (c : Config) (b : B.State) (p : Bytes) (fold : Bytes → Bytes) (reg : Registry)
      → Ready b
      → IsIntact (contents b) c.algo (manifest_for c p) p
      → validate (manifest_for c p) ≡ ok (manifest_for c p)
      → find fold reg c.algo.name ≡ ok c.algo
      → (object B fold reg b (some (manifest_for c p))).1 ≡ ok tt
  accepts_manifest_for c b p fold reg r intact valid known =
      let es = entries_of c.algo (pieces_of c.policy p) in
      let mf = manifest_for c p in
      let shape : mf
          ≡ described c.algo.name (c.policy.avg % 2 ^ 32) (is_cdc_mode c.policy.mode)
              (object_id c.algo p) es (sum_sizes 0 es) =
        new_manifest_lem c.algo.name _ _ (object_id c.algo p) es in
      let wide : AllWide mf.chunks =
        subst (λ (m : Manifest). AllWide m.chunks) (sym shape)
          (entries_of-AllWide c.algo (pieces_of c.policy p)) in
      let named : length mf.object ≡ 32 =
        ap (λ (m : Manifest). length m.object) shape ∙ length-object_id c.algo p in
      let known' : find fold reg mf.algo ≡ ok c.algo =
        ap (λ (m : Manifest). find fold reg m.algo) shape ∙ known in
      (object_iff L fold reg b mf r named wide).0.1 (c.algo, mf, p, known', valid, intact)

  Serves-verify :
      (s : Store B M) (oid : HashId) (p : Bytes) (fold : Bytes → Bytes) (reg : Registry)
      → (v : Serves L S s oid p) → (object B fold reg s.blobs (some v.mf)).1 ≡ ok tt
      → verify fold reg s oid ≡ ok tt
  unfolding verify Index.has
  Serves-verify s oid p fold reg v accepted =
      rw (v.indexed, S.read_manifest_lem s.world oid v.world_ready, v.written, v.decoded, accepted)
        (ap (λ (g : Result (Unit {0})). g >> ok tt) (begin_io_ok L S s v.is_open))

  -- Under the conditions of `put-get_bytes`, and if the registry has the store's algorithm under its
  -- name, `Put` of an object that the index does not have succeeds, and `Verify` of its identifier
  -- then finds no fault.
  pub put-verify :
      (book : HashId → Bytes) (c : Config) (now : ℕ) (s : Store B M) (r : Reader)
      (fold : Bytes → Bytes) (reg : Registry)
      → r.ending ≡ none
      → CanPut L S book c s (content r)
      → Index.get s.index (object_id c.algo (content r)) ≡ none
      → find fold reg c.algo.name ≡ ok c.algo
      → (s' : Store B M) × (put B M c now s (some r) ≡ some (ok (object_id c.algo (content r)), s'))
        × (verify fold reg s' (object_id c.algo (content r)) ≡ ok tt)
  put-verify book c now s r fold reg e h fresh known =
      let p = content r in
      let (s', done, served, _, _, same_blobs, same_mf) = put-Serves L S book c now s r e h fresh in
      let accepted =
        accepts_manifest_for c s'.blobs p fold reg served.blobs_ready
          (subst (λ b. IsIntact (contents b) c.algo (manifest_for c p) p) (sym same_blobs)
            (manifest_for-IsIntact book c s p h))
          (subst (λ m. validate m ≡ ok m) same_mf
            (decode-valid served.raw served.mf served.decoded))
          known in
      (
        s',
        done,
        Serves-verify s' (object_id c.algo p) p fold reg served
            (subst (λ m. (object B fold reg s'.blobs (some m)).1 ≡ ok tt) (sym same_mf) accepted),
      )
