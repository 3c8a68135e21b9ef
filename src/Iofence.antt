-- ===== src/Iofence.antt =====
-- internal/iofence: the fence between the store's operations and the collector (fence.go), and the
-- locks of the objects (object.go). Goroutines are a list of phases; a step moves one of them.
-- `sync.RWMutex` and `sync.Mutex` are what their documentation says: a lock is taken only when it is
-- free, and what a mutex guards is one step.
pub mod Moving
pub mod Exclusion
pub mod Objects
pub mod OneHolder
pub mod Drain
use go_shardblob.Base.{
  ℕ, ◌+◌, ◌≡◌, All, ◌-◌, Bool, true, false, Option, none, some, List, [], ◌∷◌, length, ◌==◌,
  if◌then◌else◌,
}
use go_shardblob.Base.Dict
use go_shardblob.Base.Dict.{Dict}
use go_shardblob.Hashx.{HashId}

-- One goroutine of a list goes from `p` to `q`.
pub data Moves {ℓ} {P : Type ℓ} (p q : P) : List P → List P → Type ℓ where
  here : {ps : List P} → Moves p q (p ∷ ps) (q ∷ ps)
  there : {x : P} {ps qs : List P} → Moves p q ps qs → Moves p q (x ∷ ps) (x ∷ qs)

-- Where a goroutine is with respect to the fence: outside; in `BeginShared` with the read lock and
-- not counted yet; in a shared operation; on its way out with the read lock, counted no more; in
-- `TryExclusive` after it has seen no operation in flight; or in an exclusive operation.
pub data IoPhase : Type 0 where
  outside entering shared leaving trying exclusive : IoPhase

-- `Fence` without its objects: the holders of the read lock and of the write lock, and `active`.
pub record Io : Type 0 where
  pub readers : ℕ
  pub writer : Bool
  pub active : ℕ

-- `InFlight`
abbrev pub in_flight : Io → ℕ
in_flight f = f.active

abbrev pub r_lock : Io → Io
r_lock f = record f { readers = f.readers + 1 }

abbrev pub r_unlock : Io → Io
r_unlock f = record f { readers = f.readers - 1 }

abbrev pub add_active : Io → Io
add_active f = record f { active = f.active + 1 }

abbrev pub drop_active : Io → Io
drop_active f = record f { active = f.active - 1 }

abbrev pub lock : Io → Io
lock f = record f { writer = true }

abbrev pub unlock : Io → Io
unlock f = record f { writer = false }

-- The steps of `BeginShared`, `BeginExclusive`, `TryExclusive` and the functions they return.
pub data IoStep : Io × List IoPhase → Io × List IoPhase → Type 0 where
  begin_shared :
      {f : Io} {ps qs : List IoPhase}
      → f.writer ≡ false
      → Moves outside entering ps qs
      → IoStep (f, ps) (r_lock f, qs)
  counted :
      {f : Io} {ps qs : List IoPhase}
      → Moves entering shared ps qs
      → IoStep (f, ps) (add_active f, qs)
  uncounted :
      {f : Io} {ps qs : List IoPhase}
      → Moves shared leaving ps qs
      → IoStep (f, ps) (drop_active f, qs)
  end_shared :
      {f : Io} {ps qs : List IoPhase}
      → Moves leaving outside ps qs
      → IoStep (f, ps) (r_unlock f, qs)
  begin_exclusive :
      {f : Io} {ps qs : List IoPhase}
      → f.writer ≡ false
      → f.readers ≡ 0
      → Moves outside exclusive ps qs
      → IoStep (f, ps) (lock f, qs)
  end_exclusive :
      {f : Io} {ps qs : List IoPhase}
      → Moves exclusive outside ps qs
      → IoStep (f, ps) (unlock f, qs)
  try_sees_none :
      {f : Io} {ps qs : List IoPhase}
      → in_flight f ≡ 0
      → Moves outside trying ps qs
      → IoStep (f, ps) (f, qs)
  try_locks :
      {f : Io} {ps qs : List IoPhase}
      → f.writer ≡ false
      → f.readers ≡ 0
      → Moves trying exclusive ps qs
      → IoStep (f, ps) (lock f, qs)

abbrev pub AllOutside : List IoPhase → Type 0
AllOutside = All (λ p. p ≡ outside)

-- `New`, with any number of goroutines outside.
pub data IoReachable : Io × List IoPhase → Type 0 where
  started :
      (ps : List IoPhase)
      → AllOutside ps
      → IoReachable (record { readers = 0; writer = false; active = 0 }, ps)
  step : {s t : Io × List IoPhase} → IoReachable s → IoStep s t → IoReachable t

-- `objLock`: its mutex, and the goroutines that hold it or wait for it.
pub record ObjLock : Type 0 where
  pub held : Bool
  pub waiters : ℕ

-- The locks of the objects: `objs` has the address of the lock of an identifier, `heap` the lock at
-- an address, and `fresh` is the next address that was never used.
pub record Locks : Type 0 where
  pub objs : Dict ℕ
  pub heap : ℕ → ObjLock
  pub fresh : ℕ

-- `New`
abbrev pub new_locks : Locks
new_locks = record { objs = []; heap = λ a. record { held = false; waiters = 0 }; fresh = 0 }

abbrev pub set_lock : Locks → ℕ → ObjLock → Locks
set_lock l a o = record l { heap = λ b. if a == b then o else l.heap b }

-- The lock that the map has, or one that is made.
abbrev pub lock_for : Locks → HashId → Option ℕ → ℕ × Locks
lock_for l id (some a) = (a, l)
lock_for l id none =
    let l' : Locks = record l { objs = Dict.insert id l.fresh l.objs; fresh = l.fresh + 1 } in
    (l.fresh, set_lock l' l.fresh (record { held = false; waiters = 0 }))

-- `ol.waiters++`
abbrev pub add_waiter : ℕ × Locks → ℕ × Locks
add_waiter (a, l) =
    (a, set_lock l a (record { held = (l.heap a).held; waiters = (l.heap a).waiters + 1 }))

-- `LockObject` under the mutex of the map: one more waits for the lock.
unfoldable pub enter : Locks → HashId → ℕ × Locks
enter l id = add_waiter (lock_for l id (Dict.lookup id l.objs))

-- `ol.mu.Lock()` and `ol.mu.Unlock()`
unfoldable pub take_lock : Locks → ℕ → Locks
take_lock l a = set_lock l a (record { held = true; waiters = (l.heap a).waiters })

unfoldable pub drop_lock : Locks → ℕ → Locks
drop_lock l a = set_lock l a (record { held = false; waiters = (l.heap a).waiters })

-- The end of the function that `LockObject` returns, under the mutex of the map.
unfoldable pub leave : Locks → HashId → ℕ → Locks
leave l id a =
    let o = l.heap a in
    let l' = set_lock l a (record o { waiters = o.waiters - 1 }) in
    if o.waiters - 1 == 0 then record l' { objs = Dict.erase id l.objs } else l'

-- `LockedCount`
abbrev pub locked_count : Locks → ℕ
locked_count l = length l.objs

-- Where a goroutine is in `LockObject` and the function it returns, with the address of its lock.
pub data Phase : Type 0 where
  idle : Phase
  waiting : HashId → ℕ → Phase
  holding : HashId → ℕ → Phase
  released : HashId → ℕ → Phase

pub data Step : Locks × List Phase → Locks × List Phase → Type 0 where
  enters :
      {l : Locks} {ps qs : List Phase} (id : HashId)
      → Moves idle (waiting id (enter l id).0) ps qs
      → Step (l, ps) ((enter l id).1, qs)
  takes :
      {l : Locks} {ps qs : List Phase} (id : HashId) (a : ℕ)
      → (l.heap a).held ≡ false
      → Moves (waiting id a) (holding id a) ps qs
      → Step (l, ps) (take_lock l a, qs)
  drops :
      {l : Locks} {ps qs : List Phase} (id : HashId) (a : ℕ)
      → Moves (holding id a) (released id a) ps qs
      → Step (l, ps) (drop_lock l a, qs)
  leaves :
      {l : Locks} {ps qs : List Phase} (id : HashId) (a : ℕ)
      → Moves (released id a) idle ps qs
      → Step (l, ps) (leave l id a, qs)

abbrev pub AllIdle : List Phase → Type 0
AllIdle = All (λ p. p ≡ idle)

pub data Reachable : Locks × List Phase → Type 0 where
  fresh_start : (ps : List Phase) → AllIdle ps → Reachable (new_locks, ps)
  then_step : {s t : Locks × List Phase} → Reachable s → Step s t → Reachable t
