-- ===== src/Chunk/Assembler.antt =====
-- internal/chunk/assembler.go: pieces back to bytes, into any `io.Writer`; and measure.go.
pub mod Whole
use go_shardblob.Base.{
  Bytes, ℕ, ◌+◌, ◌-◌, ◌%◌, ◌^◌, Bool, true, false, not, ◌&&◌, Option, none, some, List, [], ◌∷◌,
  ◌++◌, length, ltb, ◌==◌, if◌then◌else◌,
}
use go_shardblob.Base.Result.{Result, ok, err, Error, assemble_gap, assemble_index, short_write}
use go_shardblob.Chunk.Policy.{Policy, Mode, fixed, cdc, normalize}
use go_shardblob.Chunk.Splitter.{Piece}

-- An `io.Writer`: `Write` returns the bytes it took and the error, if there is one.
pub record Sink : Type 1 where
  pub State : Type 0
  pub write : State → Bytes → ℕ × Option Error × State

-- What a `Write` that has returned means to the code that goes on only after a full one.
abbrev pub taken : ℕ → ℕ → Option Error → Result (Unit {0})
taken wanted wn (some e) = err e
taken wanted wn none = if wn == wanted then ok tt else err short_write

module _ (K : Sink) where
  -- The loop of `Assemble`: `n` is an int64 by its bit pattern, `expect` a uint64.
  unfoldable pub assemble_from : K.State → ℕ → ℕ → ℕ → List Piece → ℕ × Result (Unit {0}) × K.State
  assemble_from w n expect i [] = (n, ok tt, w)
  assemble_from w n expect i (p ∷ ps) =
      let (wn, e, w') = K.write w p.bytes in
      let n' = (n + wn) % 2 ^ 64 in
      let rest = assemble_from w' n' ((expect + length p.bytes) % 2 ^ 64) (i + 1) ps in
      if not (p.offset == expect)
      then (n, err assemble_gap, w)
      else if not (p.index == i)
      then (n, err assemble_index, w)
      else elim (taken (length p.bytes) wn e) [ err x ↦ (n', err x, w') | ok _ ↦ rest ]

  -- `Assemble`
  unfoldable pub assemble : K.State → List Piece → ℕ × Result (Unit {0}) × K.State
  unfolding assemble_from
  assemble w ps = assemble_from w 0 0 0 ps

  -- `Writer`
  pub record Writer : Type 0 where
    pub w : K.State
    pub n : ℕ
    pub index : ℕ
    pub offset : ℕ

  -- `NewWriter`
  abbrev pub new_writer : K.State → Writer
  new_writer w = record { w = w; n = 0; index = 0; offset = 0 }

  -- `Append`
  unfoldable pub append : Writer → Piece → Result (Unit {0}) × Writer
  append a p =
      let (wn, e, w') = K.write a.w p.bytes in
      let a' : Writer = record a { w = w'; n = (a.n + wn) % 2 ^ 64 } in
      if not (p.index == a.index)
      then (err assemble_index, a)
      else if not (p.offset == a.offset)
      then (err assemble_gap, a)
      else elim (taken (length p.bytes) wn e) [
        | err x ↦ (err x, a')
        | ok _ ↦ (
          ok tt,
          record a' { index = a.index + 1; offset = (a.offset + length p.bytes) % 2 ^ 64 },
        )
      ]

-- The loop of `AssembleBytes`.
unfoldable pub assemble_bytes_from : Bytes → ℕ → List Piece → Result Bytes
assemble_bytes_from buf i [] = ok buf
assemble_bytes_from buf i (p ∷ ps) =
    let rest = assemble_bytes_from (buf ++ p.bytes) (i + 1) ps in
    if not (p.index == i) then err assemble_index else rest

-- `AssembleBytes`
unfoldable pub assemble_bytes : List Piece → Result Bytes
unfolding assemble_bytes_from
assemble_bytes ps = assemble_bytes_from [] 0 ps

-- `Measure`
pub record Measure : Type 0 where
  pub pieces : ℕ
  pub total : ℕ
  pub last_size : ℕ
  pub avg_size : ℕ
  pub max_piece : ℕ
  pub min_piece : ℕ
  pub is_cdc : Bool
  pub short_tail : Bool

-- One round of the loop of `MeasurePieces`.
abbrev pub measure_piece : Measure → Piece → Measure
measure_piece m p =
    let n = length p.bytes in
    record m {
      total = (m.total + n) % 2 ^ 64;
      max_piece = if ltb m.max_piece n then n else m.max_piece;
      min_piece = if ltb n m.min_piece then n else m.min_piece;
    }

unfoldable pub measure_each : Measure → List Piece → Measure
measure_each m [] = m
measure_each m (p ∷ ps) = measure_each (measure_piece m p) ps

last_length : List Piece → ℕ
last_length [] = 0
last_length (p ∷ []) = length p.bytes
last_length (p ∷ q ∷ ps) = last_length (q ∷ ps)

abbrev is_cdc_mode : Mode → Bool
is_cdc_mode cdc = true
is_cdc_mode fixed = false

-- The measure before the loop; the least size starts from the largest int.
abbrev pub first_measure : ℕ → Policy → Measure
first_measure count pol = record {
  pieces = count;
  total = 0;
  last_size = 0;
  avg_size = pol.avg;
  max_piece = 0;
  min_piece = 2 ^ 63 - 1;
  is_cdc = is_cdc_mode pol.mode;
  short_tail = false;
}

-- `MeasurePieces`
unfoldable pub measure_pieces : List Piece → Policy → Measure
unfolding measure_each last_length
measure_pieces [] p = record (first_measure 0 (normalize p)) { min_piece = 0 }
measure_pieces (q ∷ qs) p =
    let pol = normalize p in
    let m = measure_each (first_measure (length (q ∷ qs)) pol) (q ∷ qs) in
    let last = last_length (q ∷ qs) in
    record m { last_size = last; short_tail = not m.is_cdc && ltb 0 last && ltb last pol.avg }
