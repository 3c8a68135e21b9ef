-- ===== src/Refcount/Log.antt =====
-- internal/refcount/journal.go: the records of the journal, the file behind it, and its replay.
pub mod Codec
pub mod Replay
pub mod Follows
pub mod Recovery
pub mod Once
use go_shardblob.Base.{
  Bytes, ℕ, zero, suc, ◌+◌, ◌-◌, ◌*◌, ◌%◌, ◌^◌, Bool, true, false, not, ◌||◌, Option, none, some,
  List, [], ◌∷◌, ◌++◌, length, take, drop, replicate, ltb, ◌==◌, if◌then◌else◌,
}
use go_shardblob.Base.Wire.{le, of_le, checksum}
use go_shardblob.Base.Result.{
  Result, ok, err, Error, io_failed, underflow, bad_journal_record, unknown_op, is_unexpected,
}
use go_shardblob.Hashx.{HashId, copy_id}
use go_shardblob.Chunk.Reader.{
  Reader, Status, more, eof, unexpected_eof, failed, content, read_full,
}
use go_shardblob.Refcount.{Op, inc, dec, checkpoint, Journal, Table, get, set}

abbrev pub magic : ℕ
magic = 0x4A465342

abbrev pub rec_size : ℕ
rec_size = 52

-- The byte that stands for an `Op`
abbrev pub op_code : Op → ℕ
op_code inc = 1
op_code dec = 2
op_code checkpoint = 3

-- The first 48 bytes of a record, with three bytes unused.
unfoldable pub rec_head : Op → HashId → ℕ → Bytes
rec_head op id n = le 4 magic ++ ((op_code op ∷ 0 ∷ 0 ∷ 0 ∷ []) ++ (copy_id id ++ le 8 n))

-- `encodeRec`
unfoldable pub encode_rec : Op → HashId → ℕ → Bytes
unfolding rec_head
encode_rec op id n = let head = rec_head op id n in head ++ le 4 (checksum head)

-- What `decodeRec` reads: the byte of the operation, an identifier and a number.
pub record LogRec : Type 0 where
  pub code : ℕ
  pub id : HashId
  pub n : ℕ

-- The bytes of `buf` from `start` to `stop`
abbrev pub slice : ℕ → ℕ → Bytes → Bytes
slice start stop buf = take (stop - start) (drop start buf)

-- `decodeRec`
unfoldable pub decode_rec : Bytes → Option LogRec
decode_rec buf =
    if ltb (length buf) rec_size
    then none
    else if not (of_le (slice 0 4 buf) == magic)
    then none
    else if not (checksum (take 48 buf) == of_le (slice 48 52 buf))
    then none
    else some (record {
      code = of_le (slice 4 5 buf);
      id = copy_id (slice 8 40 buf);
      n = of_le (slice 40 48 buf);
    })

-- The body of the loop of `Replay` for one record.
unfoldable pub apply_rec : Table → LogRec → Result (Unit {0}) × Table
apply_rec t r =
    if r.code == op_code inc
    then (ok tt, set t r.id ((get t r.id + r.n) % 2 ^ 64))
    else if r.code == op_code dec
    then if ltb (get t r.id) r.n then (err underflow, t) else (ok tt, set t r.id (get t r.id - r.n))
    else if r.code == op_code checkpoint
    then (ok tt, t)
    else (err unknown_op, t)

abbrev pub apply_found : Table → Option LogRec → Result (Unit {0}) × Table
apply_found t none = (err bad_journal_record, t)
apply_found t (some r) = apply_rec t r

abbrev pub Replayed : Type 0
Replayed = Option (Result (Unit {0}) × Table)

-- On with the loop, unless the record failed.
abbrev pub go_on : Result (Unit {0}) × Table → (Table → Replayed) → Replayed
go_on (err e, t) next = some (err e, t)
go_on (ok _, t) next = next t

-- A round of the loop of `Replay`, after `io.ReadFull`: a record that is cut off is dropped.
abbrev pub round : Table → (Reader → Table → Replayed) → Bytes × Status × Reader → Replayed
round t next (p, eof, r) = some (ok tt, t)
round t next (p, unexpected_eof, r) = some (ok tt, t)
round t next (p, failed e, r) = some (if is_unexpected e then ok tt else err e, t)
round t next (p, more, r) = go_on (apply_found t (decode_rec p)) (next r)

-- The loop of `Replay` over the journal from its start. Every round takes 52 bytes, so one round
-- more than there are bytes is enough; `none` means that the fuel ran out.
unfoldable pub replay_loop : ℕ → Reader → Table → Replayed
unfolding apply_rec
replay_loop zero r t = none
replay_loop (suc fuel) r t = round t (replay_loop fuel) (read_full r rec_size)

-- `Replay`, once the file is at its start.
unfoldable pub replay : Reader → Table → Replayed
unfolding replay_loop
replay r t = replay_loop (suc (length (content r))) r t

-- How one call of `Append` or `Truncate` goes: all is well, or it stops, `Append` after so many bytes
-- and `Truncate` after so many of its steps, or only the `Sync` at the end fails.
pub data Outcome : Type 0 where
  fine : Outcome
  short : ℕ → Outcome
  unsynced : Outcome

-- The file of a `Journal`: its bytes, the position of the handle, and how the next calls go; when
-- that list is at its end, all is well.
pub record LogFile : Type 0 where
  pub bytes : Bytes
  pub pos : ℕ
  pub plan : List Outcome

-- `Write` at the position: a gap reads as zeros, and what is overwritten is gone.
unfoldable pub write_at : LogFile → Bytes → LogFile
write_at f p = record f {
  bytes =
      take f.pos (f.bytes ++ replicate (f.pos - length f.bytes) 0)
      ++ (p ++ drop (f.pos + length p) f.bytes);
  pos = f.pos + length p;
}

abbrev pub outcome : List Outcome → Outcome
outcome [] = fine
outcome (o ∷ os) = o

abbrev pub later : List Outcome → List Outcome
later [] = []
later (o ∷ os) = os

-- `Append`
unfoldable pub append : LogFile → Op → HashId → ℕ → Result (Unit {0}) × LogFile
unfolding write_at
append f op id n =
    let rec = encode_rec op id n in
    let f' : LogFile = record f { plan = later f.plan } in
    elim (outcome f.plan) [
      | fine ↦ (ok tt, write_at f' rec)
      | short k ↦ (err io_failed, write_at f' (take k rec))
      | unsynced ↦ (err io_failed, write_at f' rec)
    ]

-- The journal that `Table` writes to.
abbrev pub log_journal : Journal
log_journal = record { World = LogFile; append = append }

-- `Truncate`: the file is emptied, and the position goes back to the start.
unfoldable pub truncate : LogFile → Result (Unit {0}) × LogFile
truncate f =
    let f' : LogFile = record f { plan = later f.plan } in
    elim (outcome f.plan) [
      | fine ↦ (ok tt, record f' { bytes = []; pos = 0 })
      | short k ↦ (err io_failed, if k == 0 then f' else record f' { bytes = [] })
      | unsynced ↦ (err io_failed, record f' { bytes = []; pos = 0 })
    ]

-- `OpenJournal` of a file with these bytes.
unfoldable pub open_log : Bytes → LogFile
open_log b = record { bytes = b; pos = 0; plan = [] }
