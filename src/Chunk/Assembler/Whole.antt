-- ===== src/Chunk/Assembler/Whole.antt =====
-- What is split is assembled again, by either of the two ways to write pieces.
use go_shardblob.Base.{
  Bytes, ℕ, ◌+◌, ◌%◌, ◌^◌, ◌≤◌, ◌<◌, ◌≡◌, ◌↔◌, refl, sym, ap, ◌∙◌, arith, Bool-cases, ◌⊎◌, inl, inr,
  none, some, List, [], ◌∷◌, ◌++◌, append_assoc, append-nil, length, length-append, ◌==◌,
}
use go_shardblob.Base.Result.{Result, ok, err, Result-cases}
use go_shardblob.Chunk.Policy.{Policy, normalize}
use go_shardblob.Chunk.Reader.{Reader, content}
use go_shardblob.Chunk.Splitter.{Piece, split_all}
use go_shardblob.Chunk.Splitter.Split.{
  joined, IsRun, pieces_of, split_all-pieces, pieces_of-joined, pieces_of-IsRun,
}
use go_shardblob.Chunk.Assembler.{
  Sink, taken, assemble_from, assemble, Writer, new_writer, append, assemble_bytes_from,
  assemble_bytes, Measure, first_measure, measure_piece, measure_each, measure_pieces,
}

-- `bytes.Buffer`: it takes everything.
abbrev pub buffer : Sink
buffer = record { State = Bytes; write = λ b p. (length p, none, b ++ p) }

assemble_from-IsRun :
    (w : Bytes) (n m i o : ℕ) (ps : List Piece)
    → IsRun m i o ps
    → o + length (joined ps) < 2 ^ 64
    → n < 2 ^ 64
    → assemble_from buffer w n o i ps ≡ ((n + length (joined ps)) % 2 ^ 64, ok tt, w ++ joined ps)
unfolding assemble_from
assemble_from-IsRun w n m i o [] run room small =
    rw append-nil
      (ap (λ (k : ℕ). (k, ok tt, w)) (let same : n ≡ (n + 0) % 2 ^ 64 = omega arith in same))
assemble_from-IsRun w n m i o (p ∷ ps) (e1, e2, e3, e4, run) room small =
    let all = length-append {0} p.bytes (joined ps) in
    let ih =
      assemble_from-IsRun (w ++ p.bytes) ((n + length p.bytes) % 2 ^ 64) m (i + 1)
        (o + length p.bytes) ps run (omega (arith, all, room)) (omega arith) in
    let same : (o + length p.bytes) % 2 ^ 64 ≡ o + length p.bytes = omega (arith, all, room) in
    let total : ((n + length p.bytes) % 2 ^ 64 + length (joined ps)) % 2 ^ 64
        ≡ (n + length (p.bytes ++ joined ps)) % 2 ^ 64 =
      omega (arith, all) in
    ground (arith, e1, e2, ih, same, total, append_assoc w p.bytes (joined ps))

assemble_bytes_from-IsRun :
    (buf : Bytes) (m i o : ℕ) (ps : List Piece)
    → IsRun m i o ps
    → assemble_bytes_from buf i ps ≡ ok (buf ++ joined ps)
unfolding assemble_bytes_from
assemble_bytes_from-IsRun buf m i o [] run = ap ok (sym (append-nil buf))
assemble_bytes_from-IsRun buf m i o (p ∷ ps) (e1, e2, e3, e4, run) = ground (
  arith,
  assemble_bytes_from-IsRun (buf ++ p.bytes) m (i + 1) (o + length p.bytes) ps run,
  append_assoc buf p.bytes (joined ps),
)

module _ (K : Sink) where
  -- `Append` for each piece, up to the first that fails.
  abbrev pub append_all : Writer K → List Piece → Result (Unit {0}) × Writer K
  append_all a [] = (ok tt, a)
  append_all a (p ∷ ps) =
      let (r, a') = append K a p in elim r [ err e ↦ (err e, a') | ok _ ↦ append_all a' ps ]

  append_all-assemble_from :
      (a : Writer K) (ps : List Piece)
      → let (n, r, w) = assemble_from K a.w a.n a.offset a.index ps in
        let (r', a') = append_all a ps in (a'.w ≡ w) × (a'.n ≡ n) × ((r' ≡ ok tt) ↔ (r ≡ ok tt))
  unfolding assemble_from append
  append_all-assemble_from a [] = (refl, refl, (λ h. refl, λ h. refl))
  append_all-assemble_from a (p ∷ ps) =
      let wrote = K.write a.w p.bytes in
      let a' : Writer K = record {
        w = wrote.2;
        n = (a.n + wrote.0) % 2 ^ 64;
        index = a.index + 1;
        offset = (a.offset + length p.bytes) % 2 ^ 64;
      } in
      let ih = append_all-assemble_from a' ps in
      elim (Bool-cases (p.offset == a.offset)) [
        | inl o ↦ elim (Bool-cases (p.index == a.index)) [
          | inl i ↦ elim (Result-cases (taken (length p.bytes) wrote.0 wrote.1)) [
            | inl (x, failed) ↦
                rw (o, i, failed, assemble_from, append_all)
                  (rw (o, i, failed, append) (refl, refl, (λ h. cc, λ h. cc)))
            | inr (u, fine) ↦
                rw (o, i, fine, assemble_from, append_all) (rw (o, i, fine, append) ih)
          ]
          | inr i ↦
              rw (o, i, assemble_from, append_all)
                (rw (o, i, append) (refl, refl, (λ h. cc, λ h. cc)))
        ]
        | inr o ↦ elim (Bool-cases (p.index == a.index)) [
          | inl i ↦
              rw (o, i, assemble_from, append_all)
                (rw (o, i, append) (refl, refl, (λ h. cc, λ h. cc)))
          | inr i ↦
              rw (o, i, assemble_from, append_all)
                (rw (o, i, append) (refl, refl, (λ h. cc, λ h. cc)))
        ]
      ]

  -- Over any writer, `Append` of the pieces one by one, up to the first that fails, writes and counts
  -- what `Assemble` does, and fails exactly when `Assemble` does.
  pub append_all-assemble :
      (w : K.State) (ps : List Piece)
      → let (n, r, w') = assemble K w ps in
        let (r', a) = append_all (new_writer K w) ps in
        (a.w ≡ w') × (a.n ≡ n) × ((r' ≡ ok tt) ↔ (r ≡ ok tt))
  unfolding assemble
  append_all-assemble w ps = append_all-assemble_from (new_writer K w) ps

-- A stream of less than 2^64 bytes that ends in EOF is split, and its pieces are assembled to its
-- content: by `Assemble` into a buffer, with the number of bytes, and by `AssembleBytes`.
pub split_all-assemble :
    (r : Reader) (pol : Policy) (w : Bytes)
    → r.ending ≡ none
    → length (content r) < 2 ^ 64
    → (ps : List Piece) × (split_all r pol ≡ some (ps, none))
      × (assemble buffer w ps ≡ (length (content r), ok tt, w ++ content r))
      × (assemble_bytes ps ≡ ok (content r))
unfolding assemble assemble_bytes
split_all-assemble r pol w e room =
    let c = content r in
    let ps = pieces_of pol c in
    let run = pieces_of-IsRun pol c room in
    let whole = pieces_of-joined pol c in
    let size : (0 + length (joined ps)) % 2 ^ 64 ≡ length c =
      omega (arith, ap length whole, room) in
    (
      ps,
      split_all-pieces r pol e,
      assemble_from-IsRun w 0 (normalize pol).max 0 0 ps run (omega (arith, ap length whole, room))
            (omega arith)
          ∙ cc (size, whole),
      assemble_bytes_from-IsRun [] (normalize pol).max 0 0 ps run ∙ ap ok whole,
    )

measure_each-IsRun :
    (m : Measure) (top i o : ℕ) (ps : List Piece)
    → IsRun top i o ps
    → m.total + length (joined ps) < 2 ^ 64
    → m.max_piece ≤ top
    → 1 ≤ m.min_piece
    → ((measure_each m ps).total ≡ m.total + length (joined ps))
      × ((measure_each m ps).max_piece ≤ top)
      × (1 ≤ (measure_each m ps).min_piece)
unfolding measure_each
measure_each-IsRun m top i o [] run room small pos = (omega arith, small, pos)
measure_each-IsRun m top i o (p ∷ ps) (e1, e2, e3, e4, run) room small pos =
    let all = length-append {0} p.bytes (joined ps) in
    let m' = measure_piece m p in
    let (t, b, l) =
      measure_each-IsRun m' top (i + 1) (o + length p.bytes) ps run (omega (arith, all, room))
        (ground (arith, e4, small)) (ground (arith, e3, pos)) in
    (omega (arith, all, t, room), b, l)

measured :
    (pol : Policy) (ps : List Piece)
    → IsRun (normalize pol).max 0 0 ps
    → length (joined ps) < 2 ^ 64
    → let m = measure_pieces ps pol in
      (m.total ≡ length (joined ps))
      × (m.max_piece ≤ (normalize pol).max)
      × ((m.pieces ≡ 0) ⊎ (1 ≤ m.min_piece))
unfolding measure_pieces
measured pol [] run room = (refl, omega arith, inl refl)
measured pol (p ∷ ps) run room =
    let (t, b, l) =
      measure_each-IsRun (first_measure (length (p ∷ ps)) (normalize pol)) (normalize pol).max 0 0
        (p ∷ ps) run (omega (arith, room)) (omega arith) (omega arith) in
    (omega (arith, t), b, inr l)

-- The measure of the pieces of a content of less than 2^64 bytes: its total is the size of the
-- content, no piece is above the policy's `max`, and unless there is no piece none is empty.
pub measure_pieces-pieces_of :
    (pol : Policy) (c : Bytes)
    → length c < 2 ^ 64
    → let m = measure_pieces (pieces_of pol c) pol in
      (m.total ≡ length c)
      × (m.max_piece ≤ (normalize pol).max)
      × ((m.pieces ≡ 0) ⊎ (1 ≤ m.min_piece))
measure_pieces-pieces_of pol c room =
    let whole = pieces_of-joined pol c in
    let (t, b, l) = measured pol (pieces_of pol c) (pieces_of-IsRun pol c room) (rw whole room) in
    (t ∙ ap length whole, b, l)
