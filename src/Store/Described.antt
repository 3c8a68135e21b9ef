-- ===== src/Store/Described.antt =====
-- The manifest that `Put` makes of the pieces (put.go) is one that `Validate` accepts.
use go_shardblob.Base.{
  Bytes, ℕ, ◌+◌, ◌%◌, ◌^◌, ◌<◌, ◌≤◌, ◌≡◌, ◌≢◌, refl, ap, ◌∙◌, arith, Bool, true, false, List, [],
  ◌∷◌, ◌++◌, All, length, length-append, length-map, if◌then◌else◌,
}
use go_shardblob.Base.Result.{ok}
use go_shardblob.Hashx.{HashId, Algo, is_zero, chunk_id}
use go_shardblob.Hashx.Tags.{length-chunk_id}
use go_shardblob.Chunk.Splitter.{Piece}
use go_shardblob.Chunk.Splitter.Split.{joined, IsRun, IsEven}
use go_shardblob.Manifest.{
  Manifest, Entry, max_chunks, version1, is_cdc, is_blank, check_entry, check_entries, check_header,
  validate, sum_sizes, set_cdc, new_manifest,
}
use go_shardblob.Manifest.Codec.RoundTrip.{IsWire, IsWireEntry}
use go_shardblob.Store.{entry_of}
use go_shardblob.Store.Pieces.{entries_of}

check_entry_ok :
    (cs : ℕ) (cdc last : Bool) (o : ℕ) (e : Entry)
    → 1 ≤ e.size
    → is_zero e.id ≡ false
    → e.offset ≡ o
    → (cdc ≡ false → e.size ≤ cs)
    → (cdc ≡ false → last ≡ false → e.size ≡ cs)
    → check_entry cs cdc last o e ≡ ok tt
unfolding check_entry
check_entry_ok cs true last o e pos named at small full = ground arith
check_entry_ok cs false true o e pos named at small full = ground (arith, small refl)
check_entry_ok cs false false o e pos named at small full =
    ground (arith, small refl, full refl refl)

-- An identifier of only zeros stands for none; the digests of the pieces are others.
abbrev pub AllNamed : Algo → List Piece → Type 0
AllNamed a = All (λ (p : Piece). is_zero (chunk_id a p.bytes) ≡ false)

check_entries_step :
    (cs : ℕ) (cdc : Bool) (o total : ℕ) (e : Entry) (es : List Entry)
    → check_entry cs cdc (elim es [ [] ↦ true | ◌∷◌ x xs ↦ false ]) o e ≡ ok tt
    → o + e.size < 2 ^ 64
    → check_entries cs cdc (o + e.size) (o + e.size) es ≡ ok total
    → check_entries cs cdc o o (e ∷ es) ≡ ok total
unfolding check_entries
check_entries_step cs cdc o total e [] passed room rest =
    let same : (o + e.size) % 2 ^ 64 ≡ o + e.size = omega arith in rw (passed, same) rest
check_entries_step cs cdc o total e (f ∷ es) passed room rest =
    let same : (o + e.size) % 2 ^ 64 ≡ o + e.size = omega arith in rw (passed, same) rest

pub check_entries_ok :
    (a : Algo) (cs : ℕ) (cdc : Bool) (m i o : ℕ) (ps : List Piece)
    → IsRun m i o ps
    → m < 2 ^ 32
    → o + length (joined ps) < 2 ^ 64
    → AllNamed a ps
    → (cdc ≡ false → IsEven cs ps)
    → check_entries cs cdc o o (entries_of a ps) ≡ ok (o + length (joined ps))
unfolding check_entries
check_entries_ok a cs cdc m i o [] run small room named even = ap ok (omega arith)
check_entries_ok a cs cdc m i o (p ∷ []) (r1, r2, r3, r4, rest) small room (named, _) even =
    let size : length p.bytes % 2 ^ 32 ≡ length p.bytes = omega arith in
    let all = length-append {0} p.bytes [] in
    check_entries_step cs cdc o (o + length (p.bytes ++ [])) (entry_of a p) []
      (check_entry_ok cs cdc true o (entry_of a p) (omega (arith, size, r3)) named r2
        (λ c. omega (arith, size, even c)) (λ c l. cc))
      (omega (arith, size, all, room)) (ap ok (omega (arith, size, all)))
check_entries_ok a cs cdc m i o (p ∷ q ∷ ps) (r1, r2, r3, r4, rest) small room (named, more) even =
    let size : length p.bytes % 2 ^ 32 ≡ length p.bytes = omega arith in
    let all = length-append {0} p.bytes (joined (q ∷ ps)) in
    let fits : o + length p.bytes + length (joined (q ∷ ps)) < 2 ^ 64 = omega (arith, all, room) in
    let ih =
      check_entries_ok a cs cdc m (i + 1) (o + length p.bytes) (q ∷ ps) rest small fits more
        (λ c. (even c).1) in
    check_entries_step cs cdc o (o + length (p.bytes ++ joined (q ∷ ps))) (entry_of a p)
      (entries_of a (q ∷ ps))
      (check_entry_ok cs cdc false o (entry_of a p) (omega (arith, size, r3)) named r2
        (λ c. omega (arith, size, (even c).0)) (λ c l. omega (arith, size, (even c).0)))
      (omega (arith, size, all, room)) (rw size (ih ∙ ap ok (omega (arith, all))))

pub sum_sizes_lem :
    (a : Algo) (m i o : ℕ) (ps : List Piece)
    → IsRun m i o ps
    → m < 2 ^ 32
    → o + length (joined ps) < 2 ^ 64
    → sum_sizes o (entries_of a ps) ≡ o + length (joined ps)
unfolding sum_sizes
sum_sizes_lem a m i o [] run small room = omega arith
sum_sizes_lem a m i o (p ∷ ps) (r1, r2, r3, r4, rest) small room =
    let size : length p.bytes % 2 ^ 32 ≡ length p.bytes = omega arith in
    let all = length-append {0} p.bytes (joined ps) in
    let next : (o + length p.bytes) % 2 ^ 64 ≡ o + length p.bytes = omega (arith, all, room) in
    let fits : o + length p.bytes + length (joined ps) < 2 ^ 64 = omega (arith, all, room) in
    rw (size, next)
      (sum_sizes_lem a m (i + 1) (o + length p.bytes) ps rest small fits ∙ omega (arith, all))

pub entries_of-IsWireEntry :
    (a : Algo) (m i o : ℕ) (ps : List Piece)
    → IsRun m i o ps
    → o + length (joined ps) < 2 ^ 64
    → All IsWireEntry (entries_of a ps)
entries_of-IsWireEntry a m i o [] run room = tt
entries_of-IsWireEntry a m i o (p ∷ ps) (r1, r2, r3, r4, rest) room =
    let all = length-append {0} p.bytes (joined ps) in
    let fits : o + length p.bytes + length (joined ps) < 2 ^ 64 = omega (arith, all, room) in
    (
      (length-chunk_id a p.bytes, omega arith, omega (arith, r2)),
      entries_of-IsWireEntry a m (i + 1) (o + length p.bytes) ps rest fits,
    )

-- The manifest of the entries, with its fields written out.
abbrev pub described : Bytes → ℕ → Bool → HashId → List Entry → ℕ → Manifest
described name cs cdc oid es total = record {
  version = version1;
  flags = if cdc then 1 else 0;
  algo = name;
  chunk_size = cs;
  total_size = total;
  object = oid;
  chunks = es;
}

pub new_manifest_lem :
    (name : Bytes) (cs : ℕ) (cdc : Bool) (oid : HashId) (es : List Entry)
    → new_manifest name cs cdc oid es ≡ described name cs cdc oid es (sum_sizes 0 es)
unfolding new_manifest set_cdc
new_manifest_lem name cs true oid es = refl
new_manifest_lem name cs false oid es = refl

is_cdc-described :
    (name : Bytes) (cs : ℕ) (cdc : Bool) (oid : HashId) (es : List Entry) (total : ℕ)
    → is_cdc (described name cs cdc oid es total) ≡ cdc
unfolding is_cdc
is_cdc-described name cs true oid es total = refl
is_cdc-described name cs false oid es total = refl

-- What the manifest of an object needs, beside its pieces, to be valid: a name that is not blank and
-- fits its field, no more chunks than the format allows, and an identifier that is not zero.
pub record IsNameable (name : Bytes) (oid : HashId) (count : ℕ) : Type 0 where
  pub not_blank : is_blank name ≡ false
  pub short : length name < 32
  pub plain : All (λ b. b ≢ 0) name
  pub few : count ≤ max_chunks
  pub named : is_zero oid ≡ false

validate-described :
    (name : Bytes) (cs : ℕ) (cdc : Bool) (oid : HashId) (es : List Entry) (total : ℕ)
    → IsNameable name oid (length es)
    → check_entries cs cdc 0 0 es ≡ ok total
    → validate (described name cs cdc oid es total) ≡ ok (described name cs cdc oid es total)
unfolding validate check_header
validate-described name cs cdc oid es total h sums =
    rw (is_cdc-described name cs cdc oid es total)
      (ground (arith, h.not_blank, h.short, h.few, h.named, sums))

described-IsWire :
    (name : Bytes) (cs : ℕ) (cdc : Bool) (oid : HashId) (es : List Entry) (total : ℕ)
    → IsNameable name oid (length es)
    → length oid ≡ 32
    → cs < 2 ^ 32
    → total < 2 ^ 64
    → All IsWireEntry es
    → IsWire (described name cs cdc oid es total)
described-IsWire name cs cdc oid es total h wide small fits wire = record {
  version = omega arith;
  flags = ground arith;
  algo_short = h.short;
  algo_plain = h.plain;
  chunk_size = small;
  total_size = fits;
  object = wide;
  entries = wire;
  few = h.few;
}

-- The manifest that `Put` makes of a run of pieces is valid, and fits the format.
pub new_manifest-valid :
    (a : Algo) (cs : ℕ) (cdc : Bool) (oid : HashId) (m : ℕ) (ps : List Piece)
    → IsNameable a.name oid (length ps)
    → length oid ≡ 32
    → IsRun m 0 0 ps
    → m < 2 ^ 32
    → cs < 2 ^ 32
    → length (joined ps) < 2 ^ 64
    → AllNamed a ps
    → (cdc ≡ false → IsEven cs ps)
    → let mf = new_manifest a.name cs cdc oid (entries_of a ps) in (validate mf ≡ ok mf) × IsWire mf
new_manifest-valid a cs cdc oid m ps h wide run small cs_small room named even =
    let es = entries_of a ps in
    let total = length (joined ps) in
    let start : 0 + total ≡ total = omega arith in
    let room' : 0 + total < 2 ^ 64 = omega arith in
    let same : new_manifest a.name cs cdc oid es ≡ described a.name cs cdc oid es total =
      new_manifest_lem a.name cs cdc oid es
      ∙ ap (described a.name cs cdc oid es) (sum_sizes_lem a m 0 0 ps run small room' ∙ start) in
    let h' : IsNameable a.name oid (length es) = rw (length-map (entry_of a) ps) h in
    rw same (
      validate-described a.name cs cdc oid es total h'
          (check_entries_ok a cs cdc m 0 0 ps run small room' named even ∙ ap ok start),
      described-IsWire a.name cs cdc oid es total h' wide cs_small room
          (entries_of-IsWireEntry a m 0 0 ps run room'),
    )
