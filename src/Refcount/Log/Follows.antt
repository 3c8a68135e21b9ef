-- ===== src/Refcount/Log/Follows.antt =====
-- A journal that follows the live table, and one record more (journal.go).
use go_shardblob.Base.{
  Bytes, ℕ, ◌+◌, ◌-◌, ◌≡◌, refl, sym, ap, ◌∙◌, arith, List, [], ◌∷◌, ◌++◌, append_assoc, append-nil,
  length, length-append, take, drop, take-length_append, drop_all, All, All-append,
}
use mathlib.Core.Path.{subst}
use go_shardblob.Base.Result.{Result, ok, err}
use go_shardblob.Hashx.{HashId}
use go_shardblob.Refcount.{Op, Table, get}
use go_shardblob.Refcount.Log.{encode_rec, apply_rec, LogFile, write_at, append}
use go_shardblob.Refcount.Log.Replay.{Change, IsChange, as_rec, encode_all, apply_all, stop_on}

apply_all-append :
    (t : Table) (cs ds : List Change)
    → apply_all t (cs ++ ds) ≡ stop_on (apply_all t cs) (λ t'. apply_all t' ds)
unfolding apply_all
apply_all-append t [] ds = refl
apply_all-append t (c ∷ cs) ds = by_first (apply_rec t (as_rec c)) (λ t'. apply_all-append t' cs ds)
  where
    by_first :
        (o : Result (Unit {0}) × Table)
        → ((t' : Table)
            → apply_all t' (cs ++ ds) ≡ stop_on (apply_all t' cs) (λ t''. apply_all t'' ds))
        → stop_on o (λ t'. apply_all t' (cs ++ ds))
          ≡ stop_on (stop_on o (λ t'. apply_all t' cs)) (λ t'. apply_all t' ds)
    by_first (err e, t') ih = refl
    by_first (ok _, t') ih = ih t'

encode_all-append : (cs ds : List Change) → encode_all (cs ++ ds) ≡ encode_all cs ++ encode_all ds
unfolding encode_all
encode_all-append [] ds = refl
encode_all-append (c ∷ cs) ds =
    ap (λ b. encode_rec c.op c.id c.n ++ b) (encode_all-append cs ds)
    ∙ sym (append_assoc (encode_rec c.op c.id c.n) (encode_all cs) (encode_all ds))

-- The journal has the changes that lead from the snapshot `t0` to the live table, and no call of it
-- fails.
pub record Follows (t0 t : Table) (f : LogFile) : Type 0 where
  pub changes : List Change
  pub well_formed : All IsChange changes
  pub logged : f.bytes ≡ encode_all changes
  pub at_end : f.pos ≡ length f.bytes
  pub reliable : f.plan ≡ []
  pub fine : (apply_all t0 changes).0 ≡ ok tt
  pub same : (j : HashId) → get (apply_all t0 changes).1 j ≡ get t j

-- A write at the end appends.
write_at_end :
    (f : LogFile) (p : Bytes) → f.pos ≡ length f.bytes → (write_at f p).bytes ≡ f.bytes ++ p
unfolding write_at
write_at_end f p e =
    let gap : f.pos - length f.bytes ≡ 0 = omega (arith, e) in
    let front : take f.pos (f.bytes ++ []) ≡ f.bytes = rw e (take-length_append f.bytes []) in
    let back : drop (f.pos + length p) f.bytes ≡ [] =
      drop_all (f.pos + length p) f.bytes (omega (arith, e)) in
    rw (gap, front, back, append-nil) refl

stop_on_ok :
    (o : Result (Unit {0}) × Table) (next : Table → Result (Unit {0}) × Table)
    → o.0 ≡ ok tt
    → stop_on o next ≡ next o.1
stop_on_ok (err e, t) next h = cc
stop_on_ok (ok _, t) next h = refl

-- One change more.
apply_all_last :
    (t : Table) (cs : List Change) (c : Change)
    → (apply_all t cs).0 ≡ ok tt
    → (apply_rec (apply_all t cs).1 (as_rec c)).0 ≡ ok tt
    → apply_all t (cs ++ (c ∷ [])) ≡ (ok tt, (apply_rec (apply_all t cs).1 (as_rec c)).1)
apply_all_last t cs c h k =
    apply_all-append t cs (c ∷ [])
    ∙ stop_on_ok (apply_all t cs) (λ t'. apply_all t' (c ∷ [])) h
    ∙ (unfold apply_all in
        stop_on_ok (apply_rec (apply_all t cs).1 (as_rec c)) (λ t'. (ok tt, t')) k)

pub append_fine :
    (f : LogFile) (op : Op) (id : HashId) (n : ℕ)
    → f.plan ≡ []
    → f.pos ≡ length f.bytes
    → append f op id n ≡ (
      ok tt,
      record {
        bytes = f.bytes ++ encode_rec op id n;
        pos = f.pos + length (encode_rec op id n);
        plan = [];
      },
    )
unfolding append
append_fine f op id n h e =
    let wrote = write_at_end (record f { plan = [] }) (encode_rec op id n) e in
    rw h (
      ap (λ b. (ok tt, record { bytes = b; pos = f.pos + length (encode_rec op id n); plan = [] }))
        (unfold write_at in wrote))

pub one_more :
    (t0 t t' : Table) (f : LogFile) (c : Change) (v : Follows t0 t f)
    → IsChange c
    → (apply_rec (apply_all t0 v.changes).1 (as_rec c)).0 ≡ ok tt
    → ((j : HashId) → get (apply_rec (apply_all t0 v.changes).1 (as_rec c)).1 j ≡ get t' j)
    → ((append f c.op c.id c.n).0 ≡ ok tt) × Follows t0 t' (append f c.op c.id c.n).1
one_more t0 t t' f c v h fine same =
    let after = append_fine f c.op c.id c.n v.reliable v.at_end in
    let all = apply_all_last t0 v.changes c v.fine fine in
    let last : encode_rec c.op c.id c.n ≡ encode_all (c ∷ []) =
      (unfold encode_all in sym (append-nil (encode_rec c.op c.id c.n))) in
    let rec = encode_rec c.op c.id c.n in
    let f' : LogFile = record { bytes = f.bytes ++ rec; pos = f.pos + length rec; plan = [] } in
    let follows : Follows t0 t' f' = record {
      changes = v.changes ++ (c ∷ []);
      well_formed = All-append IsChange v.changes (c ∷ []) v.well_formed (h, tt);
      logged =
          ap (λ b. b ++ rec) v.logged
          ∙ ap (λ r. encode_all v.changes ++ r) last
          ∙ sym (encode_all-append v.changes (c ∷ []));
      at_end = omega (arith, v.at_end, length-append {0} f.bytes rec);
      reliable = refl;
      fine = ap (λ o. o.0) all;
      same = λ j. ap (λ o. get o.1 j) all ∙ same j;
    } in
    (ap (λ o. o.0) after, subst (λ o. Follows t0 t' o.1) (sym after) follows)
