-- ===== src/Iofence/Drain.antt =====
-- The locks of the objects never block for good, and leave nothing behind.
use go_shardblob.Base.{
  ℕ, zero, suc, ◌≤◌, ◌<◌, ◌≡◌, ◌⊎◌, inl, inr, refl, sym, arith, some, List, [], ◌∷◌, length, ◌==◌,
  ==_iff, Bool-cases,
}
use mathlib.Core.Path.{subst}
use go_shardblob.Base.Dict
use go_shardblob.Base.Dict.{Dict}
use go_shardblob.Hashx.{HashId}
use go_shardblob.Iofence.{
  Moves, here, there, Locks, take_lock, drop_lock, leave, Phase, idle, waiting, holding, released,
  Step, takes, drops, leaves, AllIdle, Reachable, then_step, locked_count,
}
use go_shardblob.Iofence.Moving.{sum_of, sum_of-Moves}
use go_shardblob.Iofence.Objects.{uses, holds, IsLocked, Reachable-IsLocked, none_idle}

-- Steps one after the other.
pub data Steps : Locks × List Phase → Locks × List Phase → Type 0 where
  done : {s : Locks × List Phase} → Steps s s
  more : {s t u : Locks × List Phase} → Step s t → Steps t u → Steps s u

-- The steps that a goroutine still has to make.
abbrev left : Phase → ℕ
left idle = 0
left (waiting id a) = 3
left (holding id a) = 2
left (released id a) = 1

-- A goroutine in the phase `p` can go on to any other.
abbrev CanMove : Phase → List Phase → Type 0
CanMove p ps = (q : Phase) → (qs : List Phase) × Moves p q ps qs

CanMove-there : (p x : Phase) (ps : List Phase) → CanMove p ps → CanMove p (x ∷ ps)
CanMove-there p x ps m q = let (qs, n) = m q in (x ∷ qs, there n)

abbrev Busy : Phase → Type 0
Busy idle = ⊥
Busy (waiting id a) = Unit
Busy (holding id a) = Unit
Busy (released id a) = Unit

first-Busy : (ps : List Phase) → AllIdle ps ⊎ ((p : Phase) × Busy p × CanMove p ps)
first-Busy [] = inl tt
first-Busy (waiting id a ∷ ps) = inr (waiting id a, tt, λ q. (q ∷ ps, here))
first-Busy (holding id a ∷ ps) = inr (holding id a, tt, λ q. (q ∷ ps, here))
first-Busy (released id a ∷ ps) = inr (released id a, tt, λ q. (q ∷ ps, here))
first-Busy (idle ∷ ps) = elim (first-Busy ps) [
  | inl all_idle ↦ inl (refl, all_idle)
  | inr (p, busy, m) ↦ inr (p, busy, CanMove-there p idle ps m)
]

-- A lock that is held has a holder.
holder_of :
    (a : ℕ) (ps : List Phase) → 1 ≤ sum_of (holds a) ps → (id : HashId) × CanMove (holding id a) ps
unfolding sum_of
holder_of a [] h = absurd (omega arith)
holder_of a (idle ∷ ps) h =
    let (id, m) = holder_of a ps (omega arith) in (id, CanMove-there _ _ ps m)
holder_of a (waiting j b ∷ ps) h =
    let (id, m) = holder_of a ps (omega arith) in (id, CanMove-there _ _ ps m)
holder_of a (released j b ∷ ps) h =
    let (id, m) = holder_of a ps (omega arith) in (id, CanMove-there _ _ ps m)
holder_of a (holding j b ∷ ps) h = elim (Bool-cases (a == b)) [
  | inl same ↦ (
    j,
    λ q. (
      q ∷ ps,
      subst (λ c. Moves (holding j c) q (holding j b ∷ ps) (q ∷ ps)) (sym ((==_iff a b).0 same))
          here,
    ),
  )
  | inr other ↦
      let (id, m) = holder_of a ps (omega (arith, rw other at h)) in (id, CanMove-there _ _ ps m)
]

-- There is a step that leaves fewer to make.
abbrev Progress : Locks → List Phase → Type 0
Progress l ps = (t : Locks × List Phase) × Step (l, ps) t × (sum_of left t.1 < sum_of left ps)

drop-Progress :
    (l : Locks) (ps : List Phase) (id : HashId) (a : ℕ) → CanMove (holding id a) ps → Progress l ps
drop-Progress l ps id a m =
    let (qs, n) = m (released id a) in
    ((drop_lock l a, qs), drops id a n, omega (arith, sum_of-Moves left _ _ ps qs n))

Busy-Progress :
    (l : Locks) (ps : List Phase) (p : Phase)
    → IsLocked l ps
    → Busy p
    → CanMove p ps
    → Progress l ps
Busy-Progress l ps idle v b m = absurd b
Busy-Progress l ps (holding id a) v b m = drop-Progress l ps id a m
Busy-Progress l ps (released id a) v b m =
    let (qs, n) = m idle in
    ((leave l id a, qs), leaves id a n, omega (arith, sum_of-Moves left _ _ ps qs n))
Busy-Progress l ps (waiting id a) v b m = elim (Bool-cases (l.heap a).held) [
  | inl held ↦
      let (j, n) = holder_of a ps (omega (arith, rw held at (v.held a))) in drop-Progress l ps j a n
  | inr free ↦
      let (qs, n) = m (holding id a) in
      ((take_lock l a, qs), takes id a free n, omega (arith, sum_of-Moves left _ _ ps qs n))
]

-- With nobody left, no lock is in the map.
empty_map : (l : Locks) (ps : List Phase) → IsLocked l ps → AllIdle ps → locked_count l ≡ 0
unfolding Dict.lookup
empty_map l ps v h = at l.objs refl
  where
    at : (d : Dict ℕ) → l.objs ≡ d → length d ≡ 0
    at [] e = refl
    at ((j, a) ∷ d) e =
        let there_is : Dict.lookup j l.objs ≡ some a = rw e (ground arith) in
        absurd (omega (arith, v.used j a there_is, v.waiters a, none_idle ps h (uses a) refl))

drain :
    (fuel : ℕ) (l : Locks) (ps : List Phase)
    → Reachable (l, ps)
    → sum_of left ps < fuel
    → (k : Locks) × (qs : List Phase) × Steps (l, ps) (k, qs) × AllIdle qs × (locked_count k ≡ 0)
drain zero l ps r h = absurd (omega arith)
drain (suc fuel) l ps r h =
    let v = Reachable-IsLocked (l, ps) r in
    elim (first-Busy ps) [
      | inl all_idle ↦ (l, ps, done, all_idle, empty_map l ps v all_idle)
      | inr (p, busy, m) ↦
          let (t, e, fewer) = Busy-Progress l ps p v busy m in
          let (k, qs, rest, all_idle, empty) =
            drain fuel t.0 t.1 (then_step r e) (omega (arith, fewer)) in
          (k, qs, more e rest, all_idle, empty)
    ]

-- No deadlock, and nothing left behind: from every state that goroutines can reach, those in
-- `LockObject` or holding a lock can run to their ends, after which the map has no lock.
pub locks_drain :
    (l : Locks) (ps : List Phase)
    → Reachable (l, ps)
    → (k : Locks) × (qs : List Phase) × Steps (l, ps) (k, qs) × AllIdle qs × (locked_count k ≡ 0)
locks_drain l ps r = drain (suc (sum_of left ps)) l ps r (omega arith)
