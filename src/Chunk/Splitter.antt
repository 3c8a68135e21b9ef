-- ===== src/Chunk/Splitter.antt =====
-- internal/chunk/splitter.go: the splitter over a reader.
pub mod Fixed
pub mod Cdc
pub mod Reference
pub mod Split
use go_shardblob.Base.{
  Bytes, ℕ, zero, suc, ◌+◌, ◌-◌, ◌*◌, ◌%◌, ◌^◌, Bool, true, false, ◌&&◌, Option, none, some, List,
  [], ◌∷◌, ◌++◌, length, take, drop, ltb, leb, ◌==◌, if◌then◌else◌,
}
use go_shardblob.Base.Result.{Error, is_unexpected}
use go_shardblob.Chunk.Policy.{Policy, Mode, fixed, cdc, normalize}
use go_shardblob.Chunk.Gear.{Gear, new_gear, reset, scan}
use go_shardblob.Chunk.Reader.{
  Reader, Status, more, eof, unexpected_eof, failed, content, read, read_full,
}

-- `Piece`
pub record Piece : Type 0 where
  pub index : ℕ
  pub offset : ℕ
  pub bytes : Bytes

-- What `Next` returns: a piece, or `io.EOF`, or another error.
pub data Next : Type 0 where
  piece : Piece → Next
  finished : Next
  broken : Error → Next

-- `Splitter`. The buffer `fixed` is known by its size, `pol.avg`; `stopped` is `err`, once set.
pub record Splitter : Type 0 where
  pub r : Reader
  pub pol : Policy
  pub carry : Bytes
  pub gear : Gear
  pub offset : ℕ
  pub index : ℕ
  pub is_eof : Bool
  pub stopped : Option Next

-- `NewSplitter`
unfoldable pub new_splitter : Reader → Policy → Splitter
new_splitter r p =
    let pol = normalize p in
    record {
      r = r;
      pol = pol;
      carry = [];
      gear = new_gear pol;
      offset = 0;
      index = 0;
      is_eof = false;
      stopped = none;
    }

-- `emit`: the piece, and the splitter that has counted it. The offset is a uint64.
unfoldable pub emit : Splitter → Bytes → Next × Splitter
emit s p = (
  piece (record { index = s.index; offset = s.offset; bytes = p }),
  record s { offset = (s.offset + length p) % 2 ^ 64; index = s.index + 1 },
)

abbrev pub stop : Splitter → Next → Next × Splitter
stop s e = (e, record s { stopped = some e })

abbrev pub at_eof : Splitter → Splitter
at_eof s = record s { is_eof = true }

-- A short block is the last one; an empty one is none.
abbrev pub last_block : Splitter → Bytes → Next × Splitter
last_block s p = if length p == 0 then stop (at_eof s) finished else emit (at_eof s) p

-- The part of `nextFixed` after `io.ReadFull` has answered: EOF in mid-block, be it from `ReadFull` or
-- from the reader itself, is an end like any other.
abbrev pub fixed_end : Splitter → Bytes → Status → Next × Splitter
fixed_end s p (failed e) = if is_unexpected e then last_block s p else stop s (broken e)
fixed_end s p more = emit (if ltb (length p) s.pol.avg then at_eof s else s) p
fixed_end s p st = last_block s p

-- `nextFixed`
unfoldable pub next_fixed : Splitter → Next × Splitter
unfolding emit
next_fixed s = let (p, st, r') = read_full s.r s.pol.avg in fixed_end (record s { r = r' }) p st

-- The size of the buffer of `nextCDC`
abbrev pub buf_size : ℕ
buf_size = 32 * 2 ^ 10

-- The splitter, when a cut came after `c` bytes of `tmp` and the rest is carried over. If the
-- reader ended in the same call and nothing is left, that was the last piece.
abbrev pub after_cut : Splitter → Bytes → ℕ → Status → Splitter
after_cut s tmp c eof = record s {
  carry = drop c tmp;
  is_eof = if c == length tmp then true else s.is_eof;
}
after_cut s tmp c st = record s { carry = drop c tmp }

-- The end of the stream: what is in the buffer is the last piece.
abbrev pub last_piece : Splitter → Bytes → Next × Splitter
last_piece s [] = stop s finished
last_piece s (b ∷ bs) = emit s (b ∷ bs)

-- The end of a round of the loop in `nextCDC` with no cut in what was read.
abbrev pub cdc_round_end : Splitter → Bytes → Status → Next × Splitter → Next × Splitter
cdc_round_end s buf more next = next
cdc_round_end s buf (failed e) next = stop s (broken e)
cdc_round_end s buf st next = last_piece (at_eof s) buf

-- The end of a round: a cut in what was read, or none.
abbrev pub cdc_cut :
    Splitter → Bytes → Bytes → Status → Option ℕ → Next × Splitter → Next × Splitter
cdc_cut s buf tmp st none next = cdc_round_end s (buf ++ tmp) st next
cdc_cut s buf tmp st (some c) next = emit (after_cut s tmp c st) (buf ++ take c tmp)

-- The loop of `nextCDC`; each round takes a burst or fills the buffer.
unfoldable pub cdc_loop : ℕ → Splitter → Bytes → Next × Splitter
unfolding emit
cdc_loop zero s buf = stop s finished
cdc_loop (suc fuel) s buf =
    let (tmp, st, r') = read s.r buf_size in
    let (cut, g') = scan s.gear tmp in
    let s' : Splitter = record s { r = r'; gear = g' } in
    let next = cdc_loop fuel s' (buf ++ tmp) in
    if s.is_eof then last_piece s buf else cdc_cut s' buf tmp st cut next

-- `nextCDC` after the scan of what was carried over.
abbrev pub cdc_carried : ℕ → Splitter → Bytes → Option ℕ × Gear → Next × Splitter
cdc_carried fuel s buf (some c, g) = emit (record s { gear = g; carry = drop c buf }) (take c buf)
cdc_carried fuel s buf (none, g) = cdc_loop fuel (record s { gear = g; carry = [] }) buf

-- `nextCDC`. As many rounds as the bytes and the bursts that are left, and one more, are enough.
unfoldable pub next_cdc : Splitter → Next × Splitter
unfolding emit cdc_loop
next_cdc s =
    let fuel = suc (length s.r.bursts + length (content s.r)) in
    cdc_carried fuel s s.carry (scan (reset s.gear) s.carry)

abbrev next_by : Mode → Splitter → Next × Splitter
next_by cdc s = next_cdc s
next_by fixed s = next_fixed s

abbrev next_from : Option Next → Splitter → Next × Splitter
next_from (some e) s = (e, s)
next_from none s = if s.is_eof then stop s finished else next_by s.pol.mode s

-- `Next`
unfoldable pub next : Splitter → Next × Splitter
next s = next_from s.stopped s

-- `SplitAll`; `none` means that the fuel ran out.
unfoldable pub split_loop : ℕ → Splitter → List Piece → Option (List Piece × Option Error)
split_loop zero s out = none
split_loop (suc fuel) s out =
    let (n, s') = next s in
    elim n [
      | finished ↦ some (out, none)
      | broken e ↦ some (out, some e)
      | piece p ↦ split_loop fuel s' (out ++ (p ∷ []))
    ]

-- Every piece has a byte at least, so one round more than there are bytes is enough.
unfoldable pub split_all : Reader → Policy → Option (List Piece × Option Error)
unfolding split_loop
split_all r pol = split_loop (suc (length (content r))) (new_splitter r pol) []
