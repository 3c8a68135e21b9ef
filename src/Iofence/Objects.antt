-- ===== src/Iofence/Objects.antt =====
-- The invariant of the locks of the objects (object.go), and that every step keeps it.
use go_shardblob.Base.{
  ℕ, ◌+◌, ◌-◌, ◌≤◌, ◌<◌, ◌≡◌, inl, inr, refl, sym, ap, ◌∙◌, arith, false, Option, none, some, List,
  [], ◌∷◌, All, ◌==◌, Bool-cases,
}
use go_shardblob.Base.Dict
use go_shardblob.Base.Dict.{Dict, lookup-insert, lookup-erase, lookup-nil}
use go_shardblob.Hashx.{HashId}
use go_shardblob.Iofence.{
  Moves, Locks, set_lock, lock_for, add_waiter, enter, take_lock, drop_lock, leave, Phase, idle,
  waiting, holding, released, Step, enters, takes, drops, leaves, AllIdle, Reachable, fresh_start,
  then_step,
}
use go_shardblob.Iofence.Moving.{sum_of, sum_of-Moves, sum_of-le, All-Moves, All-moved, All-map}
use go_shardblob.Iofence.Exclusion.{one_if}

-- Whether a goroutine uses the lock at an address, and whether it holds it.
abbrev pub uses : ℕ → Phase → ℕ
uses a idle = 0
uses a (waiting id b) = one_if (a == b)
uses a (holding id b) = one_if (a == b)
uses a (released id b) = one_if (a == b)

abbrev pub holds : ℕ → Phase → ℕ
holds a idle = 0
holds a (waiting id b) = 0
holds a (holding id b) = one_if (a == b)
holds a (released id b) = 0

-- A goroutine in `LockObject` uses the lock that the map has.
abbrev pub Mapped : Dict ℕ → Phase → Type 0
Mapped d idle = Unit
Mapped d (waiting id a) = Dict.lookup id d ≡ some a
Mapped d (holding id a) = Dict.lookup id d ≡ some a
Mapped d (released id a) = Dict.lookup id d ≡ some a

pub record IsLocked (l : Locks) (ps : List Phase) : Type 0 where
  pub mapped : All (Mapped l.objs) ps
  pub waiters : (a : ℕ) → (l.heap a).waiters ≡ sum_of (uses a) ps
  pub held : (a : ℕ) → one_if (l.heap a).held ≡ sum_of (holds a) ps
  pub used : (id : HashId) (a : ℕ) → Dict.lookup id l.objs ≡ some a → 1 ≤ (l.heap a).waiters
  pub known : (id : HashId) (a : ℕ) → Dict.lookup id l.objs ≡ some a → a < l.fresh
  pub apart :
      (i j : HashId) (a : ℕ) → Dict.lookup i l.objs ≡ some a → Dict.lookup j l.objs ≡ some a → i ≡ j
  pub unused : (a : ℕ) → l.fresh ≤ a → (l.heap a).waiters ≡ 0

-- A lock that the map has stays in it when another is added.
Mapped-insert :
    (d : Dict ℕ) (id : HashId) (a : ℕ)
    → Dict.lookup id d ≡ none
    → (p : Phase) → Mapped d p
    → Mapped (Dict.insert id a d) p
Mapped-insert d id a new idle h = tt
Mapped-insert d id a new (waiting j b) h = ground (arith, lookup-insert id j a d)
Mapped-insert d id a new (holding j b) h = ground (arith, lookup-insert id j a d)
Mapped-insert d id a new (released j b) h = ground (arith, lookup-insert id j a d)

-- A lock that nobody uses can go.
Mapped-erase :
    (d : Dict ℕ) (id : HashId) (a : ℕ)
    → Dict.lookup id d ≡ some a
    → (ps : List Phase) → sum_of (uses a) ps ≡ 0
    → All (Mapped d) ps
    → All (Mapped (Dict.erase id d)) ps
unfolding sum_of
Mapped-erase d id a there_is [] none_use h = tt
Mapped-erase d id a there_is (p ∷ ps) none_use (h, hs) =
    (one p (omega arith) h, Mapped-erase d id a there_is ps (omega arith) hs)
  where
    one : (p : Phase) → uses a p ≡ 0 → Mapped d p → Mapped (Dict.erase id d) p
    one idle z m = tt
    one (waiting j b) z m = ground (arith, lookup-erase id j d)
    one (holding j b) z m = ground (arith, lookup-erase id j d)
    one (released j b) z m = ground (arith, lookup-erase id j d)

holds-le-uses : (a : ℕ) (p : Phase) → holds a p ≤ uses a p
holds-le-uses a idle = omega arith
holds-le-uses a (waiting id b) = ground arith
holds-le-uses a (holding id b) = omega arith
holds-le-uses a (released id b) = ground arith

-- One goroutine more for the lock that an identifier has.
joined-IsLocked :
    (l : Locks) (ps qs : List Phase) (id : HashId) (a : ℕ)
    → IsLocked l ps
    → Dict.lookup id l.objs ≡ some a
    → Moves idle (waiting id a) ps qs
    → IsLocked
        (set_lock l a (record { held = (l.heap a).held; waiters = (l.heap a).waiters + 1 }))
        qs
joined-IsLocked l ps qs id a v there_is m = record {
  mapped = All-Moves (Mapped l.objs) idle (waiting id a) ps qs m v.mapped there_is;
  waiters = λ b. ground (arith, v.waiters b, sum_of-Moves (uses b) idle (waiting id a) ps qs m);
  held = λ b. ground (arith, v.held b, sum_of-Moves (holds b) idle (waiting id a) ps qs m);
  used = λ j b e. ground (arith, v.used j b e);
  known = v.known;
  apart = v.apart;
  unused = λ b e. ground (arith, v.unused b e, v.known id a there_is);
}

-- A lock is made for the first goroutine.
made-IsLocked :
    (l : Locks) (ps qs : List Phase) (id : HashId)
    → IsLocked l ps
    → Dict.lookup id l.objs ≡ none
    → Moves idle (waiting id l.fresh) ps qs
    → IsLocked (add_waiter (lock_for l id none)).1 qs
made-IsLocked l ps qs id v missing m =
    let a = l.fresh in
    let new = λ (j : HashId). lookup-insert id j a l.objs in
    let none_wait = v.unused a (omega arith) in
    let none_hold = sum_of-le (holds a) (uses a) ps (holds-le-uses a) in
    record {
      mapped =
          All-Moves (Mapped (Dict.insert id a l.objs)) idle (waiting id a) ps qs m
            (All-map (Mapped l.objs) (Mapped (Dict.insert id a l.objs)) ps
              (Mapped-insert l.objs id a missing) v.mapped)
            (ground (arith, new id));
      waiters = λ b.
          ground (arith, v.waiters b, none_wait, sum_of-Moves (uses b) idle (waiting id a) ps qs m);
      held = λ b. ground (
        arith,
        v.held b,
        v.waiters b,
        none_wait,
        none_hold,
        sum_of-Moves (holds b) idle (waiting id a) ps qs m,
      );
      used = λ j b e. ground (arith, new j, v.used j b);
      known = λ j b e. ground (arith, new j, v.known j b);
      apart = λ i j b e f. ground (arith, new i, new j, v.known i b, v.known j b, v.apart i j b);
      unused = λ b e. ground (arith, v.unused b);
    }

enters-IsLocked :
    (l : Locks) (ps qs : List Phase) (id : HashId)
    → IsLocked l ps
    → Moves idle (waiting id (enter l id).0) ps qs
    → IsLocked (enter l id).1 qs
unfolding enter
enters-IsLocked l ps qs id v m = by_lookup (Dict.lookup id l.objs) refl m
  where
    by_lookup :
        (found : Option ℕ)
        → Dict.lookup id l.objs ≡ found
        → Moves idle (waiting id (add_waiter (lock_for l id found)).0) ps qs
        → IsLocked (add_waiter (lock_for l id found)).1 qs
    by_lookup none missing n = made-IsLocked l ps qs id v missing n
    by_lookup (some a) there_is n = joined-IsLocked l ps qs id a v there_is n

takes-IsLocked :
    (l : Locks) (ps qs : List Phase) (id : HashId) (a : ℕ)
    → IsLocked l ps
    → (l.heap a).held ≡ false
    → Moves (waiting id a) (holding id a) ps qs
    → IsLocked (take_lock l a) qs
unfolding take_lock
takes-IsLocked l ps qs id a v free m = record {
  mapped =
      All-Moves (Mapped l.objs) _ _ ps qs m v.mapped
        (All-moved (Mapped l.objs) (waiting id a) (holding id a) ps qs m v.mapped);
  waiters = λ b. ground (arith, v.waiters b, sum_of-Moves (uses b) _ _ ps qs m);
  held = λ b. ground (arith, v.held b, sum_of-Moves (holds b) _ _ ps qs m);
  used = λ j b e. ground (arith, v.used j b e);
  known = v.known;
  apart = v.apart;
  unused = λ b e. ground (arith, v.unused b e);
}

drops-IsLocked :
    (l : Locks) (ps qs : List Phase) (id : HashId) (a : ℕ)
    → IsLocked l ps
    → Moves (holding id a) (released id a) ps qs
    → IsLocked (drop_lock l a) qs
unfolding drop_lock
drops-IsLocked l ps qs id a v m = record {
  mapped =
      All-Moves (Mapped l.objs) _ _ ps qs m v.mapped
        (All-moved (Mapped l.objs) (holding id a) (released id a) ps qs m v.mapped);
  waiters = λ b. ground (arith, v.waiters b, sum_of-Moves (uses b) _ _ ps qs m);
  held = λ b. ground (arith, v.held b, sum_of-Moves (holds b) _ _ ps qs m);
  used = λ j b e. ground (arith, v.used j b e);
  known = v.known;
  apart = v.apart;
  unused = λ b e. ground (arith, v.unused b e);
}

-- The last goroutine takes the lock out of the map.
leaves-IsLocked :
    (l : Locks) (ps qs : List Phase) (id : HashId) (a : ℕ)
    → IsLocked l ps
    → Moves (released id a) idle ps qs
    → IsLocked (leave l id a) qs
unfolding leave
leaves-IsLocked l ps qs id a v m =
    let there_is = All-moved (Mapped l.objs) (released id a) idle ps qs m v.mapped in
    let left = All-Moves (Mapped l.objs) (released id a) idle ps qs m v.mapped tt in
    let fewer = λ (b : ℕ). sum_of-Moves (uses b) (released id a) idle ps qs m in
    let holders = λ (b : ℕ). sum_of-Moves (holds b) (released id a) idle ps qs m in
    let apart_from : (j : HashId) (b : ℕ) → Dict.lookup j l.objs ≡ some b → (a ≡ b) → id ≡ j =
      λ j b e same. v.apart id j a there_is (e ∙ ap some (sym same)) in
    let gone = λ (j : HashId). lookup-erase id j l.objs in
    elim (Bool-cases ((l.heap a).waiters - 1 == 0)) [
      | inl last ↦ rw last (record {
        mapped = Mapped-erase l.objs id a there_is qs (ground (arith, fewer a, v.waiters a)) left;
        waiters = λ b. ground (arith, v.waiters b, fewer b);
        held = λ b. ground (arith, v.held b, holders b);
        used = λ j b e. ground (arith, gone j, v.used j b, apart_from j b);
        known = λ j b e. ground (arith, gone j, v.known j b);
        apart = λ i j b e f. ground (arith, gone i, gone j, v.apart i j b);
        unused = λ b e. ground (arith, v.unused b e);
      })
      | inr others ↦ rw others (record {
        mapped = left;
        waiters = λ b. ground (arith, v.waiters b, fewer b);
        held = λ b. ground (arith, v.held b, holders b);
        used = λ j b e. ground (arith, v.used j b e);
        known = v.known;
        apart = v.apart;
        unused = λ b e. ground (arith, v.unused b e);
      })
    ]

Step-IsLocked : (s t : Locks × List Phase) → Step s t → IsLocked s.0 s.1 → IsLocked t.0 t.1
Step-IsLocked (l, ps) (k, qs) (enters id m) v = enters-IsLocked l ps qs id v m
Step-IsLocked (l, ps) (k, qs) (takes id a free m) v = takes-IsLocked l ps qs id a v free m
Step-IsLocked (l, ps) (k, qs) (drops id a m) v = drops-IsLocked l ps qs id a v m
Step-IsLocked (l, ps) (k, qs) (leaves id a m) v = leaves-IsLocked l ps qs id a v m

pub none_idle : (ps : List Phase) → AllIdle ps → (w : Phase → ℕ) → w idle ≡ 0 → sum_of w ps ≡ 0
unfolding sum_of
none_idle [] h w z = refl
none_idle (p ∷ ps) (o, h) w z = rw o (omega (arith, none_idle ps h w z))

idle-Mapped : (ps : List Phase) → AllIdle ps → All (Mapped []) ps
idle-Mapped [] h = tt
idle-Mapped (p ∷ ps) (o, h) = (rw o tt, idle-Mapped ps h)

pub Reachable-IsLocked : (s : Locks × List Phase) → Reachable s → IsLocked s.0 s.1
unfolding Dict.lookup
Reachable-IsLocked (l, ps) (fresh_start ps' h) = record {
  mapped = idle-Mapped ps h;
  waiters = λ a. sym (none_idle ps h (uses a) refl);
  held = λ a. sym (none_idle ps h (holds a) refl);
  used = λ j a e. cc;
  known = λ j a e. cc;
  apart = λ i j a e f. cc;
  unused = λ a e. refl;
}
Reachable-IsLocked t (then_step {s} r e) = Step-IsLocked s t e (Reachable-IsLocked s r)
