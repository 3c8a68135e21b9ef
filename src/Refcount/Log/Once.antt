-- ===== src/Refcount/Log/Once.antt =====
-- One `Add`, its record in an empty journal, and the replay of that record.
use go_shardblob.Base.{
  ℕ, zero, suc, ◌+◌, ◌%◌, ◌^◌, ◌<◌, ◌≡◌, refl, sym, ap, ◌∙◌, arith, none, some, List, [], ◌∷◌, ◌++◌,
  append-nil, length, drop,
}
use go_shardblob.Base.Dict.{lookup-insert}
use go_shardblob.Base.Result.{ok}
use go_shardblob.Hashx.{HashId}
use go_shardblob.Chunk.Reader.{Reader, content}
use go_shardblob.Refcount.{inc, Table, get, set, add}
use go_shardblob.Refcount.Log.{
  encode_rec, apply_rec, replay, LogFile, append, log_journal, Outcome, fine, write_at,
}
use go_shardblob.Refcount.Log.Replay.{Change, encode_all, apply_all, replay-encode_all}
use go_shardblob.Refcount.Log.Recovery.{raised, add_accepted}

drop-nil : (n : ℕ) → drop {A = ℕ} n [] ≡ []
drop-nil zero = refl
drop-nil (suc n) = refl

-- The first record of a journal.
first_append :
    (os : List Outcome) (id : HashId) (n : ℕ)
    → append (record { bytes = []; pos = 0; plan = fine ∷ os }) inc id n ≡ (
      ok tt,
      record { bytes = encode_rec inc id n; pos = 0 + length (encode_rec inc id n); plan = os },
    )
unfolding append write_at
first_append os id n =
    ap (λ b. (ok tt, record { bytes = b; pos = 0 + length (encode_rec inc id n); plan = os }))
      (ap (λ b. encode_rec inc id n ++ b) (drop-nil (0 + length (encode_rec inc id n)))
        ∙ append-nil (encode_rec inc id n))

pub first_add :
    (t : Table) (os : List Outcome) (id : HashId) (n : ℕ)
    → 0 < n
    → add log_journal t (record { bytes = []; pos = 0; plan = fine ∷ os }) id n ≡ (
      ok tt,
      raised t id n,
      record { bytes = encode_rec inc id n; pos = 0 + length (encode_rec inc id n); plan = os },
    )
first_add t os id n pos =
    let f : LogFile = record { bytes = []; pos = 0; plan = fine ∷ os } in
    let wrote = first_append os id n in
    add_accepted t f id n pos (ap (λ o. o.0) wrote) ∙ ap (λ o. (ok tt, raised t id n, o.1)) wrote

pub replay_one :
    (t : Table) (id : HashId) (n : ℕ) (r : Reader)
    → length id ≡ 32
    → n < 2 ^ 64
    → r.ending ≡ none
    → content r ≡ encode_rec inc id n
    → replay r t ≡ some (ok tt, set t id ((get t id + n) % 2 ^ 64))
replay_one t id n r wide fits e shape =
    let c : Change = record { op = inc; id = id; n = n } in
    let logged : content r ≡ encode_all (c ∷ []) ++ [] =
      shape
      ∙ (unfold encode_all in
          sym (append-nil (encode_rec inc id n ++ []) ∙ append-nil (encode_rec inc id n))) in
    replay-encode_all r t (c ∷ []) [] e logged ((wide, fits), tt) (omega arith)
    ∙ (unfold apply_all apply_rec in refl)

pub get-raised_self :
    (t : Table) (id : HashId) (n : ℕ)
    → get t id + n < 2 ^ 64
    → get (raised t id n) id ≡ get t id + n
unfolding get
get-raised_self t id n fits = ground (arith, lookup-insert id id ((get t id + n) % 2 ^ 64) t.counts)
