-- ===== src/Store/Collected.antt =====
-- `GC` (delete.go) and the objects that are in use.
use go_shardblob.Base.{
  Bytes, ℕ, ◌+◌, ◌<◌, ◌≤◌, ◌≡◌, refl, sym, ap, ◌∙◌, arith, false, none, some, List, [], ◌∷◌, All,
  length, ◌^◌,
}
use go_shardblob.Base.Result.{ok}
use mathlib.Core.Path.{subst}
use go_shardblob.Hashx.{HashId, object_id}
use go_shardblob.Chunk.Reader.{Reader, content}
use go_shardblob.Chunk.Splitter.Split.{pieces_of}
use go_shardblob.Store.Pieces.{entries_of}
use go_shardblob.Refcount.Exact.{occurs}
use go_shardblob.Manifest.{Entry}
use go_shardblob.Blobstore.{Backend, IsLawful}
use go_shardblob.Refcount
use go_shardblob.Refcount.{Table}
use go_shardblob.Index
use go_shardblob.Index.{Record}
use go_shardblob.Gc
use go_shardblob.Gc.Sweep.{run_exact}
use go_shardblob.Store.{Store, Config, persist, put}
use go_shardblob.Store.Read.{get_bytes}
use go_shardblob.Store.Remove.{gc}
use go_shardblob.Store.Medium.{Media, IsSound}
use go_shardblob.Store.Reading.{Holds}
use go_shardblob.Store.RoundTrip.{CanPut, ids_of, put-Serves}
use go_shardblob.Store.Served.{Serves, get_bytes-Serves}

-- Every chunk of the entries has a reference.
abbrev pub AllCounted : Table → List Entry → Type 0
AllCounted t = All (λ (e : Entry). 0 < Refcount.get t e.id)

counted_from :
    (t : Table) (es more : List Entry)
    → ((j : HashId) → occurs j (ids_of more) ≤ occurs j (ids_of es))
    → ((j : HashId) → occurs j (ids_of es) ≤ Refcount.get t j)
    → AllCounted t more
unfolding occurs
counted_from t es [] within covers = tt
counted_from t es (e ∷ more) within covers = (
  ground (arith, within e.id, covers e.id),
  counted_from t es more (λ j. ground (arith, within j)) covers,
)

-- Where the counts cover the occurrences, each of the chunks is counted.
counted_in :
    (t : Table) (es : List Entry)
    → ((j : HashId) → occurs j (ids_of es) ≤ Refcount.get t j)
    → AllCounted t es
counted_in t es covers = counted_from t es es (λ j. omega arith) covers

module _ {B : Backend} (L : IsLawful B) where
  -- A collection leaves what is counted.
  run-Holds :
      (t : Table) (b : B.State) (es : List Entry) (p : Bytes)
      → L.Ready b
      → AllCounted t es
      → Holds (L.contents b) es p
      → Holds (L.contents (Gc.run B false t b).2) es p
  run-Holds t b [] p r counted h = h
  run-Holds t b (e ∷ es) p r (one, more) (q, rest, stored, split, h) =
      let (_, _, left) = run_exact {B = B} L t b r in
      (q, rest, ground (arith, left e.id, one, stored), split, run-Holds t b es rest r more h)

module _ {B : Backend} {M : Media} (L : IsLawful B) (S : IsSound M) where
  gc_open :
      (s : Store B M)
      → s.is_closed ≡ false
      → (Gc.run B false s.refs s.blobs).0 ≡ ok tt
      → (M.persist s.world s.index s.refs).0 ≡ ok tt
      → gc s ≡ (
        ok tt,
        (Gc.run B false s.refs s.blobs).1,
        record {
          blobs = (Gc.run B false s.refs s.blobs).2;
          refs = (M.persist s.world s.index s.refs).1;
          index = s.index;
          world = (M.persist s.world s.index s.refs).2;
          is_closed = s.is_closed;
        },
      )
  unfolding gc persist
  gc_open s is_open fine kept = simp (is_open, fine, kept) refl

  -- After a collection a store serves what it served, if each chunk has a reference.
  pub gc-Serves :
      (s : Store B M) (oid : HashId) (p : Bytes) (v : Serves L S s oid p)
      → AllCounted s.refs v.mf.chunks
      → ((gc s).0 ≡ ok tt) × Serves L S (gc s).2 oid p
  gc-Serves s oid p v counted =
      let (fine, rb, left) = run_exact {B = B} L s.refs s.blobs v.blobs_ready in
      let b' = (Gc.run B false s.refs s.blobs).2 in
      let (_, t', w') = M.persist s.world s.index s.refs in
      let s' : Store B M = record {
        blobs = b';
        refs = t';
        index = s.index;
        world = w';
        is_closed = s.is_closed;
      } in
      let swept : gc s ≡ (ok tt, (Gc.run B false s.refs s.blobs).1, s') =
        gc_open s v.is_open fine (S.persist_ok s.world s.index s.refs v.world_ready) in
      let served : Serves L S s' oid p = record {
        is_open = v.is_open;
        blobs_ready = rb;
        world_ready = S.persist-Ready s.world s.index s.refs v.world_ready;
        row = v.row;
        indexed = v.indexed;
        raw = v.raw;
        written = S.manifests-persist s.world s.index s.refs oid v.world_ready ∙ v.written;
        mf = v.mf;
        decoded = v.decoded;
        holds = run-Holds L s.refs s.blobs v.mf.chunks p v.blobs_ready counted v.holds;
      } in
      (ap (λ g. g.0) swept, subst (λ g. Serves L S g.2 oid p) (sym swept) served)

  -- Under the conditions of `put-get_bytes` (the store open and ready, the object new, its manifest
  -- within the format, no two chunks with one identifier), where no count of a chunk passes 2^64, a
  -- `GC` right after the `Put` succeeds too, and `GetBytes` still returns exactly the content.
  pub put-gc-get_bytes :
      (book : HashId → Bytes) (c : Config) (now : ℕ) (s : Store B M) (r : Reader) (fuel k : ℕ)
      → r.ending ≡ none
      → CanPut L S book c s (content r)
      → Index.get s.index (object_id c.algo (content r)) ≡ none
      → ((j : HashId)
          → Refcount.get s.refs j
              + occurs j (ids_of (entries_of c.algo (pieces_of c.policy (content r))))
            < 2 ^ 64)
      → 1 ≤ k
      → length (content r) < fuel
      → (s' : Store B M) × (put B M c now s (some r) ≡ some (ok (object_id c.algo (content r)), s'))
        × ((gc s').0 ≡ ok tt)
        × (get_bytes fuel k (gc s').2 (object_id c.algo (content r)) ≡ some (ok (content r)))
  put-gc-get_bytes book c now s r fuel k e h fresh fits room enough =
      let es = entries_of c.algo (pieces_of c.policy (content r)) in
      let (s', done, served, same, raised, _, _) = put-Serves L S book c now s r e h fresh in
      let (collected, serves) = gc-Serves s' _ (content r) served (
        subst (AllCounted s'.refs) (sym same)
          (counted_in s'.refs es (λ j. omega (arith, raised j (fits j))))) in
      (s', done, collected, get_bytes-Serves L S (gc s').2 _ (content r) fuel k serves room enough)
