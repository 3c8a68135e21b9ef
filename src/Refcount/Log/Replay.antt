-- ===== src/Refcount/Log/Replay.antt =====
-- The replay of a journal: what it does to the table is determined by the records.
use go_shardblob.Base.{
  Bytes, ℕ, zero, suc, ◌*◌, ◌^◌, ◌<◌, ◌≡◌, refl, sym, ap, ◌∙◌, arith, none, some, List, [], ◌∷◌,
  ◌++◌, append_assoc, length, length-append, All,
}
use go_shardblob.Base.Result.{Result, ok, err}
use go_shardblob.Hashx.{HashId}
use go_shardblob.Chunk.Reader.{
  Reader, Status, more, eof, unexpected_eof, failed, content, content_of, read_full,
}
use go_shardblob.Chunk.Reader.Full.{LoopFits, read_full-fits}
use go_shardblob.Refcount.{Op, Table}
use go_shardblob.Refcount.Log.{
  Replayed, go_on, round, LogRec, op_code, rec_size, encode_rec, apply_rec, apply_found,
  replay_loop, replay,
}
use go_shardblob.Refcount.Log.Codec.{length-encode_rec, decode_rec-encode_rec}

-- A change of one count, as `Append` is given it.
pub record Change : Type 0 where
  pub op : Op
  pub id : HashId
  pub n : ℕ

-- An identifier has 32 bytes, and a number 64 bits.
abbrev pub IsChange : Change → Type 0
IsChange c = (length c.id ≡ 32) × (c.n < 2 ^ 64)

abbrev pub as_rec : Change → LogRec
as_rec c = record { code = op_code c.op; id = c.id; n = c.n }

-- The records of the changes, one after the other.
unfoldable pub encode_all : List Change → Bytes
encode_all [] = []
encode_all (c ∷ cs) = encode_rec c.op c.id c.n ++ encode_all cs

abbrev pub stop_on :
    Result (Unit {0}) × Table → (Table → Result (Unit {0}) × Table) → Result (Unit {0}) × Table
stop_on (err e, t) next = (err e, t)
stop_on (ok _, t) next = next t

-- The changes, one after the other, up to the first that fails.
unfoldable pub apply_all : Table → List Change → Result (Unit {0}) × Table
apply_all t [] = (ok tt, t)
apply_all t (c ∷ cs) = stop_on (apply_rec t (as_rec c)) (λ t'. apply_all t' cs)

pub length-encode_all : (cs : List Change) → length (encode_all cs) ≡ length cs * 52
unfolding encode_all
length-encode_all [] = refl
length-encode_all (c ∷ cs) = omega (
  arith,
  length-append {0} (encode_rec c.op c.id c.n) (encode_all cs),
  length-encode_rec c.op c.id c.n,
  length-encode_all cs,
)

-- Two lists that are equal up to the same length are equal there, and after.
pub append-cancel : (a b c d : Bytes) → length a ≡ length c → a ++ b ≡ c ++ d → (a ≡ c) × (b ≡ d)
append-cancel [] b [] d e h = (refl, h)
append-cancel [] b (y ∷ c) d e h = absurd (omega arith)
append-cancel (x ∷ a) b [] d e h = absurd (omega arith)
append-cancel (x ∷ a) b (y ∷ c) d e h = ground (arith, append-cancel a b c d)

content_end : (r : Reader) → r.bursts ≡ [] → content r ≡ []
content_end r h = ap content_of h

-- A record is read when it is next.
read_next :
    (r : Reader) (p rest : Bytes)
    → r.ending ≡ none
    → length p ≡ 52
    → content r ≡ p ++ rest
    → (r' : Reader) × (read_full r rec_size ≡ (p, more, r'))
      × (content r' ≡ rest)
      × (r'.ending ≡ none)
read_next r p rest e wide shape = by_status (read_full r rec_size) refl (read_full-fits r rec_size)
  where
    by_status :
        (o : Bytes × Status × Reader)
        → read_full r rec_size ≡ o
        → LoopFits rec_size [] r o
        → (r' : Reader) × (read_full r rec_size ≡ (p, more, r'))
          × (content r' ≡ rest)
          × (r'.ending ≡ none)
    by_status (q, more, r') is (front, full, same) =
        let (here, after) = append-cancel q (content r') p rest (full ∙ sym wide) (front ∙ shape) in
        (r', is ∙ ap (λ y. (y, more, r')) here, after, same ∙ e)
    by_status (q, eof, r') is (front, full, same) = absurd (
        omega (
          arith,
          ap length front,
          length-append {0} q (content r'),
          ap length shape,
          length-append {0} p rest,
          wide,
          ap length full.0,
          ap length (content_end r' full.1),
        ))
    by_status (q, unexpected_eof, r') is (front, full, same) = absurd (
        omega (
          arith,
          ap length front,
          length-append {0} q (content r'),
          ap length shape,
          length-append {0} p rest,
          wide,
          full.1,
          ap length (content_end r' full.2),
        ))
    by_status (q, failed x, r') is (front, full, same) = absurd (cc (same, e, full.2))

-- A front of a record, or nothing, ends the replay.
read_torn :
    (r : Reader) (fuel : ℕ) (t : Table)
    → r.ending ≡ none
    → length (content r) < 52
    → replay_loop (suc fuel) r t ≡ some (ok tt, t)
unfolding replay_loop
read_torn r fuel t e few = by_status (read_full r rec_size) refl (read_full-fits r rec_size)
  where
    by_status :
        (o : Bytes × Status × Reader)
        → read_full r rec_size ≡ o
        → LoopFits rec_size [] r o
        → replay_loop (suc fuel) r t ≡ some (ok tt, t)
    by_status (q, more, r') is (front, full, same) =
        absurd (omega (arith, ap length front, length-append {0} q (content r'), full, few))
    by_status (q, eof, r') is (front, full, same) = rw (is, replay_loop) refl
    by_status (q, unexpected_eof, r') is (front, full, same) = rw (is, replay_loop) refl
    by_status (q, failed x, r') is (front, full, same) = absurd (cc (same, e, full.2))

go_on-stop_on :
    (o : Result (Unit {0}) × Table) (next : Table → Replayed)
    (spec : Table → Result (Unit {0}) × Table)
    → ((t : Table) → next t ≡ some (spec t))
    → go_on o next ≡ some (stop_on o spec)
go_on-stop_on (err e, t) next spec h = refl
go_on-stop_on (ok _, t) next spec h = h t

replay_loop-encode_all :
    (fuel : ℕ) (r : Reader) (t : Table) (cs : List Change) (torn : Bytes)
    → r.ending ≡ none
    → content r ≡ encode_all cs ++ torn
    → All IsChange cs
    → length torn < 52
    → length cs < fuel
    → replay_loop fuel r t ≡ some (apply_all t cs)
unfolding encode_all apply_all replay_loop
replay_loop-encode_all zero r t cs torn e shape all few enough = absurd (omega arith)
replay_loop-encode_all (suc fuel) r t [] torn e shape all few enough =
    read_torn r fuel t e (omega (arith, ap length shape))
replay_loop-encode_all (suc fuel) r t (c ∷ cs) torn e shape (h, all) few enough =
    let p = encode_rec c.op c.id c.n in
    let (r', is, rest, e') =
      read_next r p (encode_all cs ++ torn) e (length-encode_rec c.op c.id c.n)
        (shape ∙ append_assoc p (encode_all cs) torn) in
    ap (round t (replay_loop fuel)) is
    ∙ ap (λ o. go_on (apply_found t o) (replay_loop fuel r'))
        (decode_rec-encode_rec c.op c.id c.n h.0 h.1)
    ∙ go_on-stop_on (apply_rec t (as_rec c)) (replay_loop fuel r') (λ t'. apply_all t' cs)
        (λ t'. replay_loop-encode_all fuel r' t' cs torn e' rest all few (omega arith))

-- `Replay` of a journal of whole records, after which a front of a record may stand, does to the
-- table what the changes do, one after the other up to the first that fails, whatever way the bytes
-- are delivered; and it ends.
pub replay-encode_all :
    (r : Reader) (t : Table) (cs : List Change) (torn : Bytes)
    → r.ending ≡ none
    → content r ≡ encode_all cs ++ torn
    → All IsChange cs
    → length torn < 52
    → replay r t ≡ some (apply_all t cs)
unfolding replay
replay-encode_all r t cs torn e shape all few =
    replay_loop-encode_all (suc (length (content r))) r t cs torn e shape all few
      (omega (arith, ap length shape, length-append {0} (encode_all cs) torn, length-encode_all cs))
