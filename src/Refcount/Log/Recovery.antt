-- ===== src/Refcount/Log/Recovery.antt =====
-- The table on disk: a snapshot, and a journal of what has changed since.
use go_shardblob.Base.{
  Bytes, ℕ, zero, suc, ◌+◌, ◌-◌, ◌%◌, ◌^◌, ◌<◌, ◌≤◌, ◌≡◌, refl, sym, ap, ◌∙◌, arith, none, some,
  List, [], ◌∷◌, ◌++◌, length, All, inl, inr, ◌==◌, if◌then◌else◌, dec_lt, Option-cases,
}
use mathlib.Core.Path.{subst}
use go_shardblob.Base.Dict
use go_shardblob.Base.Dict.{lookup-insert, lookup-erase}
use go_shardblob.Base.Result.{ok}
use go_shardblob.Hashx.{HashId}
use go_shardblob.Chunk.Reader.{Reader, content}
use go_shardblob.Refcount.{inc, dec, Table, get, set, add, sub}
use go_shardblob.Refcount.Exact.{get-set, sub_underflow}
use go_shardblob.Refcount.Log.{apply_rec, replay, LogFile, append, log_journal, open_log}
use go_shardblob.Refcount.Log.Replay.{Change, encode_all, apply_all, replay-encode_all}
use go_shardblob.Refcount.Log.Follows.{Follows, one_more}

-- What the code does to the table after it is opened.
pub data Event : Type 0 where
  up : HashId → ℕ → Event
  down : HashId → ℕ → Event

abbrev pub IsEvent : Event → Type 0
IsEvent (up id n) = (length id ≡ 32) × (n < 2 ^ 64)
IsEvent (down id n) = (length id ≡ 32) × (n < 2 ^ 64)

-- One call, and what it leaves, an error or not.
unfoldable pub run_event : Table × LogFile → Event → Table × LogFile
run_event (t, f) (up id n) = let (_, t', f') = add log_journal t f id n in (t', f')
run_event (t, f) (down id n) = let (_, t', f') = sub log_journal t f id n in (t', f')

unfoldable pub run_events : Table × LogFile → List Event → Table × LogFile
run_events s [] = s
run_events s (e ∷ es) = run_events (run_event s e) es

-- The tables that `Add` and `Sub` leave when the journal accepts.
abbrev pub raised : Table → HashId → ℕ → Table
raised t id n = record {
  counts = Dict.insert id ((get t id + n) % 2 ^ 64) t.counts;
  dirty = t.dirty + 1;
}

abbrev lowered : Table → HashId → ℕ → Table
lowered t id n = record {
  counts =
      if get t id - n == 0 then Dict.erase id t.counts else Dict.insert id (get t id - n) t.counts;
  dirty = t.dirty + 1;
}

pub add_accepted :
    (t : Table) (f : LogFile) (id : HashId) (n : ℕ)
    → 0 < n
    → (append f inc id n).0 ≡ ok tt
    → add log_journal t f id n ≡ (ok tt, raised t id n, (append f inc id n).1)
unfolding add
add_accepted t f id n pos h = ground (arith, h)

sub_accepted :
    (t : Table) (f : LogFile) (id : HashId) (n : ℕ)
    → 0 < n
    → n ≤ get t id
    → (append f dec id n).0 ≡ ok tt
    → sub log_journal t f id n ≡ (ok tt, lowered t id n, (append f dec id n).1)
unfolding sub get
sub_accepted t f id n pos enough h = elim (Option-cases (Dict.lookup id t.counts)) [
  | inl missing ↦ ground (arith, missing)
  | inr (c, stored) ↦ ground (arith, stored, h)
]

get-raised :
    (x t : Table) (id : HashId) (n : ℕ) (j : HashId)
    → get x id ≡ get t id
    → get x j ≡ get t j
    → get (apply_rec x (record { code = 1; id = id; n = n })).1 j ≡ get (raised t id n) j
unfolding apply_rec
get-raised x t id n j hid hj =
    get-set x id j ((get x id + n) % 2 ^ 64)
    ∙ (unfold get in ground (arith, lookup-insert id j ((get t id + n) % 2 ^ 64) t.counts))

dec_fits :
    (x : Table) (id : HashId) (n : ℕ)
    → n ≤ get x id
    → apply_rec x (record { code = 2; id = id; n = n }) ≡ (ok tt, set x id (get x id - n))
unfolding apply_rec
dec_fits x id n h = ground arith

get-lowered :
    (x t : Table) (id : HashId) (n : ℕ) (j : HashId)
    → get x id ≡ get t id
    → get x j ≡ get t j
    → get (set x id (get x id - n)) j ≡ get (lowered t id n) j
get-lowered x t id n j hid hj =
    get-set x id j (get x id - n)
    ∙ (unfold get in
        ground (arith, lookup-insert id j (get t id - n) t.counts, lookup-erase id j t.counts))

up-Follows :
    (t0 t : Table) (f : LogFile) (id : HashId) (n : ℕ)
    → Follows t0 t f
    → (length id ≡ 32) × (n < 2 ^ 64)
    → Follows t0 (add log_journal t f id n).1 (add log_journal t f id n).2
up-Follows t0 t f id zero v h = unfold add in v
up-Follows t0 t f id (suc n) v h =
    let c : Change = record { op = inc; id = id; n = suc n } in
    let (fine, next) =
      one_more t0 t (raised t id (suc n)) f c v h (unfold apply_rec in refl)
        (λ j. get-raised (apply_all t0 v.changes).1 t id (suc n) j (v.same id) (v.same j)) in
    subst (λ o. Follows t0 o.1 o.2) (sym (add_accepted t f id (suc n) (omega arith) fine)) next

down-Follows :
    (t0 t : Table) (f : LogFile) (id : HashId) (n : ℕ)
    → Follows t0 t f
    → (length id ≡ 32) × (n < 2 ^ 64)
    → Follows t0 (sub log_journal t f id n).1 (sub log_journal t f id n).2
down-Follows t0 t f id zero v h = unfold sub in v
down-Follows t0 t f id (suc n) v h = elim (dec_lt (get t id) (suc n)) [
  | yes less ↦
      subst (λ o. Follows t0 o.1 o.2) (sym (sub_underflow log_journal t f id (suc n) less)) v
  | no enough ↦
      let c : Change = record { op = dec; id = id; n = suc n } in
      let x = (apply_all t0 v.changes).1 in
      let fits = dec_fits x id (suc n) (omega (arith, v.same id)) in
      let (fine, next) =
        one_more t0 t (lowered t id (suc n)) f c v h (ap (λ o. o.0) fits)
          (λ j. ap (λ o. get o.1 j) fits ∙ get-lowered x t id (suc n) j (v.same id) (v.same j)) in
      subst (λ o. Follows t0 o.1 o.2)
        (sym (sub_accepted t f id (suc n) (omega arith) (omega arith) fine)) next
]

run_event-Follows :
    (t0 t : Table) (f : LogFile) (e : Event)
    → Follows t0 t f
    → IsEvent e
    → let (t', f') = run_event (t, f) e in Follows t0 t' f'
unfolding run_event
run_event-Follows t0 t f (up id n) v h = up-Follows t0 t f id n v h
run_event-Follows t0 t f (down id n) v h = down-Follows t0 t f id n v h

run_events-Follows :
    (t0 t : Table) (f : LogFile) (es : List Event)
    → Follows t0 t f
    → All IsEvent es
    → let (t', f') = run_events (t, f) es in Follows t0 t' f'
unfolding run_events
run_events-Follows t0 t f [] v h = v
run_events-Follows t0 t f (e ∷ es) v (h, hs) =
    let (t', f') = run_event (t, f) e in
    run_events-Follows t0 t' f' es (run_event-Follows t0 t f e v h) hs

-- From a snapshot and an empty journal, let any sequence of `Add` and `Sub` run, some of which may
-- fail by underflow, while no write to the journal fails. Then a replay of the journal over the
-- snapshot ends without an error, also when a front of a record stands after the journal's bytes,
-- and its counts are those of the live table.
pub replay_recovers :
    (t0 : Table) (es : List Event) (r : Reader) (torn : Bytes)
    → All IsEvent es
    → length torn < 52
    → r.ending ≡ none
    → content r ≡ (run_events (t0, open_log []) es).1.bytes ++ torn
    → (t' : Table) × (replay r t0 ≡ some (ok tt, t'))
      × ((j : HashId) → get t' j ≡ get (run_events (t0, open_log []) es).0 j)
replay_recovers t0 es r torn h few e shape =
    let start : Follows t0 t0 (open_log []) =
      (unfold open_log apply_all encode_all in
        record {
          changes = [];
          well_formed = tt;
          logged = refl;
          at_end = refl;
          reliable = refl;
          fine = refl;
          same = λ j. refl;
        }) in
    let v = run_events-Follows t0 t0 (open_log []) es start h in
    let all =
      replay-encode_all r t0 v.changes torn e (shape ∙ ap (λ b. b ++ torn) v.logged) v.well_formed
        few in
    (
      (apply_all t0 v.changes).1,
      all ∙ ap (λ a. some (a, (apply_all t0 v.changes).1)) v.fine,
      v.same,
    )
