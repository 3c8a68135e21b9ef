-- ===== src/Iofence/Exclusion.antt =====
-- What the read and write locks of the fence guarantee, whatever the interleaving.
use go_shardblob.Base.{ℕ, ◌+◌, ◌≤◌, ◌≡◌, refl, sym, arith, Bool, true, false, List, [], ◌∷◌}
use go_shardblob.Iofence.Moving.{sum_of, sum_of-Moves}
use go_shardblob.Iofence.{
  Moves, Io, IoPhase, outside, entering, shared, leaving, trying, exclusive, IoStep, begin_shared,
  counted, uncounted, end_shared, begin_exclusive, end_exclusive, try_sees_none, try_locks,
  IoReachable, started, step, AllOutside, in_flight,
}

abbrev pub is_reading : IoPhase → ℕ
is_reading entering = 1
is_reading shared = 1
is_reading leaving = 1
is_reading outside = 0
is_reading trying = 0
is_reading exclusive = 0

abbrev pub is_shared : IoPhase → ℕ
is_shared shared = 1
is_shared entering = 0
is_shared leaving = 0
is_shared outside = 0
is_shared trying = 0
is_shared exclusive = 0

abbrev pub is_exclusive : IoPhase → ℕ
is_exclusive exclusive = 1
is_exclusive entering = 0
is_exclusive leaving = 0
is_exclusive outside = 0
is_exclusive trying = 0
is_exclusive shared = 0

abbrev pub one_if : Bool → ℕ
one_if true = 1
one_if false = 0

-- The locks count the goroutines in their phases, and no reader is beside a writer.
pub record IsFenced (f : Io) (ps : List IoPhase) : Type 0 where
  pub readers : f.readers ≡ sum_of is_reading ps
  pub writer : one_if f.writer ≡ sum_of is_exclusive ps
  pub active : f.active ≡ sum_of is_shared ps
  pub apart : f.writer ≡ true → f.readers ≡ 0

started-IsFenced :
    (ps : List IoPhase)
    → AllOutside ps
    → (sum_of is_reading ps ≡ 0) × (sum_of is_exclusive ps ≡ 0) × (sum_of is_shared ps ≡ 0)
unfolding sum_of
started-IsFenced [] h = (refl, refl, refl)
started-IsFenced (p ∷ ps) (o, h) =
    let (a, b, c) = started-IsFenced ps h in
    rw o (omega (arith, a), omega (arith, b), omega (arith, c))

module _ (p q : IoPhase) (f : Io) (ps qs : List IoPhase) (m : Moves p q ps qs)
    (v : IsFenced f ps) where
  moved :
      (sum_of is_reading qs + is_reading p ≡ f.readers + is_reading q)
      × (sum_of is_exclusive qs + is_exclusive p ≡ one_if f.writer + is_exclusive q)
      × (sum_of is_shared qs + is_shared p ≡ f.active + is_shared q)
  moved = (
    rw v.readers (sum_of-Moves is_reading p q ps qs m),
    rw v.writer (sum_of-Moves is_exclusive p q ps qs m),
    rw v.active (sum_of-Moves is_shared p q ps qs m),
  )

  fenced :
      (g : Io)
      → ((sum_of is_reading qs + is_reading p ≡ f.readers + is_reading q)
          → (sum_of is_exclusive qs + is_exclusive p ≡ one_if f.writer + is_exclusive q)
          → (sum_of is_shared qs + is_shared p ≡ f.active + is_shared q)
          → (g.readers ≡ sum_of is_reading qs)
            × (one_if g.writer ≡ sum_of is_exclusive qs)
            × (g.active ≡ sum_of is_shared qs)
            × (g.writer ≡ true → g.readers ≡ 0))
      → IsFenced g qs
  fenced g h =
      let (r, w, a) = moved in
      let (r', w', a', apart) = h r w a in
      record { readers = r'; writer = w'; active = a'; apart = apart }

IoStep-IsFenced : (s t : Io × List IoPhase) → IoStep s t → IsFenced s.0 s.1 → IsFenced t.0 t.1
IoStep-IsFenced (f, ps) (g, qs) (begin_shared free m) v =
    fenced outside entering f ps qs m v _
      (λ r w a. (ground (arith, r), ground (arith, w), ground (arith, a), ground (arith, v.apart)))
IoStep-IsFenced (f, ps) (g, qs) (counted m) v =
    fenced entering shared f ps qs m v _
      (λ r w a. (ground (arith, r), ground (arith, w), ground (arith, a), ground (arith, v.apart)))
IoStep-IsFenced (f, ps) (g, qs) (uncounted m) v =
    fenced shared leaving f ps qs m v _
      (λ r w a. (ground (arith, r), ground (arith, w), ground (arith, a), ground (arith, v.apart)))
IoStep-IsFenced (f, ps) (g, qs) (end_shared m) v =
    fenced leaving outside f ps qs m v _
      (λ r w a. (ground (arith, r), ground (arith, w), ground (arith, a), ground (arith, v.apart)))
IoStep-IsFenced (f, ps) (g, qs) (begin_exclusive free none_in m) v =
    fenced outside exclusive f ps qs m v _
      (λ r w a. (ground (arith, r), ground (arith, w), ground (arith, a), ground (arith, v.apart)))
IoStep-IsFenced (f, ps) (g, qs) (end_exclusive m) v =
    fenced exclusive outside f ps qs m v _
      (λ r w a. (ground (arith, r), ground (arith, w), ground (arith, a), ground (arith, v.apart)))
IoStep-IsFenced (f, ps) (g, qs) (try_sees_none seen m) v =
    fenced outside trying f ps qs m v _
      (λ r w a. (ground (arith, r), ground (arith, w), ground (arith, a), ground (arith, v.apart)))
IoStep-IsFenced (f, ps) (g, qs) (try_locks free none_in m) v =
    fenced trying exclusive f ps qs m v _
      (λ r w a. (ground (arith, r), ground (arith, w), ground (arith, a), ground (arith, v.apart)))

reachable-IsFenced : (s : Io × List IoPhase) → IoReachable s → IsFenced s.0 s.1
reachable-IsFenced (f, ps) (started ps' h) =
    let (a, b, c) = started-IsFenced ps h in
    record { readers = sym a; writer = sym b; active = sym c; apart = λ e. refl }
reachable-IsFenced t (step {s} r e) = IoStep-IsFenced s t e (reachable-IsFenced s r)

shared_le : (ps : List IoPhase) → sum_of is_shared ps ≤ sum_of is_reading ps
unfolding sum_of
shared_le [] = omega arith
shared_le (outside ∷ ps) = omega (arith, shared_le ps)
shared_le (entering ∷ ps) = omega (arith, shared_le ps)
shared_le (shared ∷ ps) = omega (arith, shared_le ps)
shared_le (leaving ∷ ps) = omega (arith, shared_le ps)
shared_le (trying ∷ ps) = omega (arith, shared_le ps)
shared_le (exclusive ∷ ps) = omega (arith, shared_le ps)

-- In every state that the goroutines can reach, at most one is in an exclusive operation, and while
-- one is, none has the read lock and `InFlight` is 0; the number in flight never exceeds the number
-- of holders of the read lock.
pub reachable_exclusion :
    (f : Io) (ps : List IoPhase)
    → IoReachable (f, ps)
    → (sum_of is_exclusive ps ≤ 1)
      × (sum_of is_exclusive ps ≡ 1 → (sum_of is_reading ps ≡ 0) × (in_flight f ≡ 0))
      × (in_flight f ≤ sum_of is_reading ps)
reachable_exclusion f ps r =
    let v = reachable-IsFenced (f, ps) r in
    let fewer = shared_le ps in
    (
      ground (arith, v.writer),
      λ e. ground (arith, v.writer, v.apart, v.readers, v.active, fewer, e),
      omega (arith, v.active, fewer),
    )
