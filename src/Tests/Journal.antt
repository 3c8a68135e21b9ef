-- ===== src/Tests/Journal.antt =====
-- The journal, the snapshots, the order of identifiers and the assembler at concrete inputs.
use go_shardblob.Base.{
  Bytes, ◌^◌, ◌<◌, ◌≡◌, ◌↔◌, refl, arith, false, none, some, List, [], ◌∷◌, ◌++◌, append-nil,
  length, take, replicate, identity-IsOrder, bytes_discrete,
}
use mathlib.Core.Path.{subst}
use go_shardblob.Base.Dict
use go_shardblob.Base.Snapshot.{IsIteration}
use go_shardblob.Base.Result.{ok, err, bad_journal_record}
use go_shardblob.Base.Wire.{le, of_le, checksum}
use go_shardblob.Hashx.{HashId, is_zero, zero_id, copy_id}
use go_shardblob.Chunk.Policy.{Policy, fixed}
use go_shardblob.Chunk.Reader.{Reader, read, read_full}
use go_shardblob.Chunk.Splitter.{Piece, split_all}
use go_shardblob.Chunk.Assembler.{assemble, assemble_bytes, new_writer}
use go_shardblob.Chunk.Assembler.Whole.{buffer, append_all, split_all-assemble, append_all-assemble}
use go_shardblob.Refcount
use go_shardblob.Refcount.{Table, inc, dec, new_table}
use go_shardblob.Refcount.Log.{encode_rec, decode_rec, replay, open_log}
use go_shardblob.Refcount.Log.Codec.{decode_rec-encode_rec}
use go_shardblob.Refcount.Log.Replay.{Change, encode_all, apply_all, replay-encode_all}
use go_shardblob.Refcount.Log.Recovery.{Event, up, down, run_events, replay_recovers}
use go_shardblob.Refcount.Snapshot.{IsStorable, save, load, load-save_counts}
use go_shardblob.Index
use go_shardblob.Index.{Record, Index}
use go_shardblob.Index.Snapshot as IndexFile
use go_shardblob.Index.Snapshot.{IsStored, load-save_records}

abbrev pub sevens : HashId
sevens = replicate 32 7

-- A reader that delivers some bytes at once.
abbrev at_once : Bytes → Reader
at_once b = record { bursts = b ∷ []; ending = none; together = false }

decode_rec-encode_rec_example :
    decode_rec (encode_rec inc sevens 5) ≡ some (record { code = 1; id = sevens; n = 5 })
decode_rec-encode_rec_example = decode_rec-encode_rec inc sevens 5 refl (omega arith)

abbrev changes : List Change
changes = record { op = inc; id = sevens; n = 5 } ∷ record { op = dec; id = sevens; n = 2 } ∷ []

abbrev torn : Bytes
torn = 0x42 ∷ 0x53 ∷ []

replay-encode_all_example :
    replay (at_once (encode_all changes ++ torn)) new_table ≡ some (apply_all new_table changes)
replay-encode_all_example =
    replay-encode_all (at_once (encode_all changes ++ torn)) new_table changes torn refl
      (append-nil (encode_all changes ++ torn)) ((refl, omega arith), ((refl, omega arith), tt))
      (omega arith)

-- A record behind a torn one, as `Append` leaves it after a `Replay` that dropped the tail: the next
-- `Replay` fails.
abbrev behind_torn : Bytes
behind_torn = take 10 (encode_rec inc sevens 5) ++ encode_rec inc sevens 1

fails_behind_torn :
    replay (at_once behind_torn) new_table ≡ some (err bad_journal_record, new_table)
unfolding replay encode_rec decode_rec copy_id le of_le checksum read_full read
fails_behind_torn = refl

abbrev events : List Event
events = up sevens 5 ∷ down sevens 2 ∷ down sevens 9 ∷ []

abbrev written : Bytes
written = (run_events (new_table, open_log []) events).1.bytes

replay_recovers_example :
    (t' : Table) × (replay (at_once (written ++ torn)) new_table ≡ some (ok tt, t'))
    × ((j : HashId)
        → Refcount.get t' j ≡ Refcount.get (run_events (new_table, open_log []) events).0 j)
replay_recovers_example =
    replay_recovers new_table events (at_once (written ++ torn)) torn
      ((refl, omega arith), ((refl, omega arith), ((refl, omega arith), tt))) (omega arith) refl
      (append-nil (written ++ torn))

abbrev pub table : Table
table = record { counts = (sevens, 5) ∷ []; dirty = 0 }

pub table-IsStorable : IsStorable table table.counts
unfolding Dict.lookup
table-IsStorable = record {
  wide = λ id n e. ground arith;
  word = λ id n e. ground arith;
  few = omega arith;
}

pub table-IsIteration : IsIteration table.counts table.counts
unfolding Dict.lookup
table-IsIteration = record { same = λ k. refl; once = (refl, tt) }

load-save_counts_example :
    (t' : Table) × (load (ok (some (save (λ d. d) table))) ≡ ok t')
    × ((id : HashId) → Refcount.get t' id ≡ Refcount.get table id)
load-save_counts_example = load-save_counts (λ d. d) table table-IsIteration table-IsStorable

abbrev pub row : Record
row = record { id = sevens; use_count = 1; size = 9; chunks = 1; created_at = 5 }

abbrev pub indexed : Index
indexed = record { objects = (sevens, row) ∷ [] }

row-fits : (r : Record) → row ≡ r → IndexFile.IsStorable r
unfolding is_zero zero_id bytes_discrete
row-fits r e = subst IndexFile.IsStorable e (record {
  wide = refl;
  used = refl;
  use_count = omega arith;
  size = omega arith;
  chunks = omega arith;
  created_at = omega arith;
})

only_row : (k : HashId) (r : Record) → Index.get indexed k ≡ some r → (row ≡ r) × (sevens ≡ k)
unfolding Index.get Dict.lookup
only_row k r e = (ground arith, ground arith)

pub indexed-IsStored : IsStored indexed
indexed-IsStored = record {
  keyed = λ k r e. let (same, at) = only_row k r e in subst (λ (x : Record). x.id ≡ k) same at;
  fits = λ k r e. row-fits r (only_row k r e).0;
}

pub few_records : length (Index.list (λ ks. ks) indexed) < 2 ^ 32
unfolding Index.list Dict.keys Dict.lookup bytes_discrete
few_records = omega arith

load-save_records_example :
    (x' : Index) × (IndexFile.load (ok (some (IndexFile.save (λ ks. ks) indexed))) ≡ ok x')
    × ((id : HashId) → Index.get x' id ≡ Index.get indexed id)
load-save_records_example =
    load-save_records (λ ks. ks) indexed identity-IsOrder indexed-IsStored few_records

abbrev six : Reader
six = record { bursts = (1 ∷ 2 ∷ 3 ∷ []) ∷ (4 ∷ 5 ∷ 6 ∷ []) ∷ []; ending = none; together = false }

abbrev four : Policy
four = record { mode = fixed; avg = 4; min = 1; max = 16 }

split_all-assemble_example :
    (ps : List Piece) × (split_all six four ≡ some (ps, none))
    × (assemble buffer (9 ∷ []) ps ≡ (6, ok tt, 9 ∷ 1 ∷ 2 ∷ 3 ∷ 4 ∷ 5 ∷ 6 ∷ []))
    × (assemble_bytes ps ≡ ok (1 ∷ 2 ∷ 3 ∷ 4 ∷ 5 ∷ 6 ∷ []))
split_all-assemble_example = split_all-assemble six four (9 ∷ []) refl (omega arith)

abbrev pieces : List Piece
pieces =
    record { index = 0; offset = 0; bytes = 1 ∷ 2 ∷ [] }
    ∷ record { index = 1; offset = 3; bytes = 5 ∷ [] }
    ∷ []

append_all-assemble_example :
    let (n, r, w') = assemble buffer [] pieces in
    let (r', a) = append_all buffer (new_writer buffer []) pieces in
    (a.w ≡ w') × (a.n ≡ n) × ((r' ≡ ok tt) ↔ (r ≡ ok tt))
append_all-assemble_example = append_all-assemble buffer [] pieces
