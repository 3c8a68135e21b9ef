-- ===== src/Store/RoundTrip.antt =====
-- What `Put` has stored, `GetBytes` returns (put.go, get.go).
use go_shardblob.Base.{
  Bytes, ℕ, suc, ◌+◌, ◌%◌, ◌^◌, ◌<◌, ◌≤◌, ◌≡◌, refl, sym, ap, ◌∙◌, arith, false, none, some, List,
  [], map, length, =?-refl, ◌==◌, if◌then◌else◌,
}
use mathlib.Core.Path.{subst}
use go_shardblob.Base.Result.{ok}
use go_shardblob.Hashx.{HashId, new_tagged, tagged_id, tag_object, object_id}
use go_shardblob.Hashx.Tags.{write_all, object_id-stream, length-object_id}
use go_shardblob.Chunk.Policy.{normalize, Mode, fixed, cdc}
use go_shardblob.Chunk.Policy.Bounds.{IsNormal, normalize-IsNormal, size-bounds}
use go_shardblob.Chunk.Reader.{Reader, content}
use go_shardblob.Chunk.Splitter.{new_splitter, split_all, split_loop}
use go_shardblob.Chunk.Splitter.Split.{
  pieces_of, split_all-pieces, pieces_of-joined, pieces_of-IsRun, pieces_of-IsEven, IsEven, IsRun,
}
use go_shardblob.Manifest.{Manifest, Entry, chunk_ids, new_manifest}
use go_shardblob.Manifest.Codec.{encode, decode}
use go_shardblob.Manifest.Codec.RoundTrip.{decode-encode}
use go_shardblob.Blobstore.{Backend, IsLawful}
use go_shardblob.Refcount
use go_shardblob.Refcount.Exact.{occurs}
use go_shardblob.Index
use go_shardblob.Index.{Record}
use go_shardblob.Index.Uses.{get-put}
use go_shardblob.Store.{
  Store, Config, begin_io, put_pieces, put_new, put_object, put_from, put, is_cdc_mode,
}
use go_shardblob.Store.Read.{get_bytes}
use go_shardblob.Store.Medium.{Media, IsSound}
use go_shardblob.Store.Pieces.{
  bytes_of, concat-bytes_of, entries_of, store_all, put_pieces_lem, store_all-Ready, Agrees,
  contents-store_all,
}
use go_shardblob.Store.Reading.{Holds}
use go_shardblob.Store.Described.{AllNamed, IsNameable, new_manifest_lem, new_manifest-valid}
use go_shardblob.Store.PutGet.{put_encoded-IsPut, first_record}
use go_shardblob.Store.Served.{Serves, get_bytes-Serves}

module _ {B : Backend} {M : Media} (L : IsLawful B) (S : IsSound M) where
  -- The loop of `Put` over a reader that ends in EOF.
  put_pieces_all :
      (c : Config) (r : Reader) (b : B.State)
      → r.ending ≡ none
      → L.Ready b
      → let ps = pieces_of c.policy (content r) in
        put_pieces B
          (suc (length (content r)))
          c.algo
          (new_splitter r c.policy)
          (new_tagged c.algo tag_object)
          []
          b
        ≡ some (
          ok (write_all (new_tagged c.algo tag_object) (bytes_of ps), entries_of c.algo ps),
          store_all B c.algo b ps,
        )
  put_pieces_all c r b e ready =
      let h : split_loop (suc (length (content r))) (new_splitter r c.policy) []
          ≡ some (pieces_of c.policy (content r), none) =
        (unfold split_all in split_all-pieces r c.policy e) in
      let (ps, same, run) =
        put_pieces_lem {B = B} L c.algo (suc (length (content r))) (new_splitter r c.policy) []
          (pieces_of c.policy (content r)) h in
      rw same (run (new_tagged c.algo tag_object) [] b ready)

  tagged_id-pieces :
      (c : Config) (p : Bytes)
      → tagged_id (write_all (new_tagged c.algo tag_object) (bytes_of (pieces_of c.policy p)))
        ≡ object_id c.algo p
  tagged_id-pieces c p =
      object_id-stream c.algo (bytes_of (pieces_of c.policy p))
      ∙ ap (object_id c.algo) (concat-bytes_of (pieces_of c.policy p) ∙ pieces_of-joined c.policy p)

abbrev pub ids_of : List Entry → List HashId
ids_of = map (λ (e : Entry). e.id)

-- The content `p` can be put: the store is open and nothing of it fails, the policy is a normalised
-- one, the content and its manifest fit the format, and no two of the chunks involved, stored or
-- new, share an identifier.
pub record CanPut {B : Backend} {M : Media} (L : IsLawful B) (S : IsSound M) (book : HashId → Bytes)
    (c : Config) (s : Store B M) (p : Bytes) : Type 0 where
  pub is_open : s.is_closed ≡ false
  pub blobs_ready : L.Ready s.blobs
  pub world_ready : S.Ready s.world
  pub normal : normalize c.policy ≡ c.policy
  pub room : length p < 2 ^ 64
  pub agrees : Agrees L book c.algo s.blobs (pieces_of c.policy p)
  pub all_named : AllNamed c.algo (pieces_of c.policy p)
  pub nameable : IsNameable c.algo.name (object_id c.algo p) (length (pieces_of c.policy p))

fixed_unless_cdc : (m : Mode) → is_cdc_mode m ≡ false → m ≡ fixed
fixed_unless_cdc cdc h = cc
fixed_unless_cdc fixed h = refl

pieces-IsEven :
    (c : Config) (p : Bytes)
    → normalize c.policy ≡ c.policy
    → is_cdc_mode c.policy.mode ≡ false
    → IsEven (c.policy.avg % 2 ^ 32) (pieces_of c.policy p)
pieces-IsEven c p normal not_cdc =
    let ps = pieces_of c.policy p in
    let n = subst IsNormal normal (normalize-IsNormal c.policy) in
    let (lo, hi) = size-bounds c.policy.avg n.avg_size in
    let small : c.policy.avg % 2 ^ 32 ≡ c.policy.avg = omega (arith, hi) in
    let even =
      subst (λ q. IsEven q.avg ps) normal
        (pieces_of-IsEven c.policy p (fixed_unless_cdc c.policy.mode not_cdc)) in
    subst (λ n. IsEven n ps) (sym small) even

-- The manifest that `Put` makes of a content.
abbrev pub manifest_for : Config → Bytes → Manifest
manifest_for c p =
    new_manifest c.algo.name (c.policy.avg % 2 ^ 32) (is_cdc_mode c.policy.mode)
      (object_id c.algo p) (entries_of c.algo (pieces_of c.policy p))

module _ {B : Backend} {M : Media} (L : IsLawful B) (S : IsSound M) where
  -- The manifest of the content is encoded, and decoded to itself.
  manifest_of :
      (book : HashId → Bytes) (c : Config) (s : Store B M) (p : Bytes)
      → CanPut L S book c s p
      → let mf = manifest_for c p in (raw : Bytes) × (encode mf ≡ ok raw) × (decode raw ≡ ok mf)
  manifest_of book c s p h =
      let ps = pieces_of c.policy p in
      let n = subst IsNormal h.normal (normalize-IsNormal c.policy) in
      let (lo, hi) = size-bounds c.policy.avg n.avg_size in
      let run = subst (λ q. IsRun q.max 0 0 ps) h.normal (pieces_of-IsRun c.policy p h.room) in
      let whole = pieces_of-joined c.policy p in
      let (valid, wire) =
        new_manifest-valid c.algo (c.policy.avg % 2 ^ 32) (is_cdc_mode c.policy.mode)
          (object_id c.algo p) c.policy.max ps h.nameable (length-object_id c.algo p) run
          (omega (arith, n.max-le)) (omega arith) (rw whole h.room) h.all_named
          (pieces-IsEven c p h.normal) in
      decode-encode _ _ wire valid

  -- The store with the chunks of the content in it.
  abbrev pub filled : Config → Store B M → Bytes → Store B M
  filled c s p = record s { blobs = store_all B c.algo s.blobs (pieces_of c.policy p) }

  pub begin_io_ok : (s : Store B M) → s.is_closed ≡ false → begin_io B M s ≡ ok tt
  unfolding begin_io
  begin_io_ok s is_open = rw is_open refl

  pub put_lem :
      (c : Config) (now : ℕ) (s : Store B M) (r : Reader)
      → r.ending ≡ none
      → s.is_closed ≡ false
      → L.Ready s.blobs
      → put B M c now s (some r)
        ≡ some (
            put_object B M c now
              (filled c s (content r))
              (object_id c.algo (content r))
              (entries_of c.algo (pieces_of c.policy (content r))))
  unfolding put
  put_lem c now s r e is_open ready =
      rw
        (
          begin_io_ok s is_open,
          put_pieces_all L S c r s.blobs e ready,
          tagged_id-pieces L S c (content r),
          put,
          put_from,
        )
        refl

  filled-Holds :
      (book : HashId → Bytes) (c : Config) (s : Store B M) (p : Bytes)
      → CanPut L S book c s p
      → Holds (L.contents (filled c s p).blobs) (entries_of c.algo (pieces_of c.policy p)) p
  filled-Holds book c s p h =
      subst
        (λ q. Holds (L.contents (filled c s p).blobs) (entries_of c.algo (pieces_of c.policy p)) q)
        (pieces_of-joined c.policy p)
        (contents-store_all L book c.algo s.blobs (pieces_of c.policy p) h.blobs_ready h.agrees)

  get-put_same :
      (x : Index.Index) (now : ℕ) (r : Record)
      → (r' : Record) × (Index.get (Index.put x now r) r.id ≡ some r')
  get-put_same x now r =
      let created =
        if r.created_at == 0 then Index.stamp (Index.get x r.id) now else r.created_at in
      (record r { created_at = created }, get-put x now r r.id ∙ rw (=?-refl r.id) refl)

  -- What `Put` of a new object leaves: a store that serves it, by the manifest of its pieces, with
  -- the counts of its chunks raised.
  pub put-Serves :
      (book : HashId → Bytes) (c : Config) (now : ℕ) (s : Store B M) (r : Reader)
      → r.ending ≡ none
      → CanPut L S book c s (content r)
      → Index.get s.index (object_id c.algo (content r)) ≡ none
      → let p = content r in
        let es = entries_of c.algo (pieces_of c.policy p) in
        (s' : Store B M) × (put B M c now s (some r) ≡ some (ok (object_id c.algo p), s'))
        × (v : Serves L S s' (object_id c.algo p) p) × (v.mf.chunks ≡ es)
        × ((j : HashId)
            → Refcount.get s.refs j + occurs j (ids_of es) < 2 ^ 64
            → Refcount.get s'.refs j ≡ Refcount.get s.refs j + occurs j (ids_of es))
        × (s'.blobs ≡ (filled c s p).blobs)
        × (v.mf ≡ manifest_for c p)
  unfolding put_object put_new
  put-Serves book c now s r e h fresh =
      let p = content r in
      let oid = object_id c.algo p in
      let ps = pieces_of c.policy p in
      let es = entries_of c.algo ps in
      let mf = manifest_for c p in
      let (raw, encoded, decoded) = manifest_of book c s p h in
      let (s', done, put_fits) =
        put_encoded-IsPut {B = B} S now (filled c s p) oid mf raw h.world_ready in
      let same : mf.chunks ≡ es =
        ap (λ (m : Manifest). m.chunks) (new_manifest_lem c.algo.name _ _ oid es) in
      let ids : chunk_ids mf ≡ ids_of es = (unfold chunk_ids in ap ids_of same) in
      let (rec, there) = get-put_same s.index now (first_record oid mf) in
      (
        s',
        put_lem c now s r e h.is_open h.blobs_ready
            ∙ ap some (rw (fresh, encoded, put_object, put_new) done),
        record {
          is_open = put_fits.same_closed ∙ h.is_open;
          blobs_ready =
              subst L.Ready (sym put_fits.same_blobs)
                (store_all-Ready L c.algo s.blobs ps h.blobs_ready);
          world_ready = put_fits.ready;
          row = rec;
          indexed = ap (λ x. Index.get x oid) put_fits.recorded ∙ there;
          raw = raw;
          written = put_fits.written oid ∙ rw (=?-refl oid) refl;
          mf = mf;
          decoded = decoded;
          holds =
              subst (λ b. Holds (L.contents b) mf.chunks p) (sym put_fits.same_blobs)
                (subst (λ l. Holds (L.contents (filled c s p).blobs) l p) (sym same)
                  (filled-Holds book c s p h));
        },
        same,
        λ j fits.
            subst
              (λ l.
                Refcount.get s.refs j + occurs j l < 2 ^ 64
                → Refcount.get s'.refs j ≡ Refcount.get s.refs j + occurs j l)
              ids (put_fits.counted j) fits,
        put_fits.same_blobs,
        refl,
      )

  -- In an open store on a lawful backend and a sound medium that are ready, with a normalised policy,
  -- let a content of less than 2^64 bytes have a manifest that fits the format, with no identifier
  -- that is zero, and let no two of the chunks stored or new share an identifier. Over every reader
  -- of it that ends in EOF, `Put` of the object, which the index does not have, succeeds with its
  -- identifier. `GetBytes` then returns exactly the content, if each read has room for a byte at
  -- least and the fuel is more than the length; and the count of each chunk has gone up by its
  -- occurrences in the object, while that stays below 2^64.
  pub put-get_bytes :
      (book : HashId → Bytes) (c : Config) (now : ℕ) (s : Store B M) (r : Reader)
      → r.ending ≡ none
      → CanPut L S book c s (content r)
      → Index.get s.index (object_id c.algo (content r)) ≡ none
      → let p = content r in
        let es = entries_of c.algo (pieces_of c.policy p) in
        (s' : Store B M) × (put B M c now s (some r) ≡ some (ok (object_id c.algo p), s'))
        × ((fuel k : ℕ)
            → 1 ≤ k
            → length p < fuel
            → get_bytes fuel k s' (object_id c.algo p) ≡ some (ok p))
        × ((j : HashId)
            → Refcount.get s.refs j + occurs j (ids_of es) < 2 ^ 64
            → Refcount.get s'.refs j ≡ Refcount.get s.refs j + occurs j (ids_of es))
  put-get_bytes book c now s r e h fresh =
      let (s', done, served, _, counted, _, _) = put-Serves book c now s r e h fresh in
      (
        s',
        done,
        λ fuel k room enough. get_bytes-Serves L S s' _ (content r) fuel k served room enough,
        counted,
      )
