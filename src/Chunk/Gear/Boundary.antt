-- ===== src/Chunk/Gear/Boundary.antt =====
-- Where the boundaries of content-defined pieces lie.
use go_shardblob.Base.{
  Bytes, ℕ, suc, ◌+◌, ◌≤◌, ◌<◌, ◌≡◌, refl, arith, true, false, Option, none, some, [], ◌∷◌, ◌++◌,
  length, Bool-cases, inl, inr,
}
use mathlib.Core.Option
use go_shardblob.Chunk.Gear.{Gear, push, scan}

abbrev pub shift_cut : ℕ → Option ℕ → Option ℕ
shift_cut n none = none
shift_cut n (some c) = some (n + c)

-- A scan of two parts is a scan of the first, and of the second only if the first has no cut.
pub scan-append :
    (g : Gear) (p q : Bytes)
    → scan g (p ++ q) ≡ elim (scan g p).0 [
      | some c ↦ (some c, (scan g p).1)
      | none ↦ (shift_cut (length p) (scan (scan g p).1 q).0, (scan (scan g p).1 q).1)
    ]
unfolding scan
scan-append g [] q = ground arith
scan-append g (b ∷ bs) q = ground (arith, scan-append (push g b).1 bs q)

pub push_frame :
    (g : Gear) (b : ℕ)
    → ((push g b).1.n ≡ g.n + 1) × ((push g b).1.min ≡ g.min) × ((push g b).1.max ≡ g.max)
unfolding push
push_frame g b = (refl, refl, refl)

push_cuts : (g : Gear) (b : ℕ) → (push g b).0 ≡ true → g.min ≤ g.n + 1
unfolding push
push_cuts g b h = ground arith

push_goes_on : (g : Gear) (b : ℕ) → g.min ≤ g.max → (push g b).0 ≡ false → g.n + 1 < g.max
unfolding push
push_goes_on g b h e = ground arith

-- A cut comes at `min` bytes at the earliest and at `max` at the latest; without one there are
-- fewer than `max` bytes.
abbrev pub CutFits : Gear → ℕ → Option ℕ → Type 0
CutFits g len (some c) = (1 ≤ c) × (c ≤ len) × (g.min ≤ g.n + c) × (g.n + c ≤ g.max)
CutFits g len none = g.n + len < g.max

pub scan-CutFits :
    (g : Gear) (p : Bytes) → g.min ≤ g.max → g.n < g.max → CutFits g (length p) (scan g p).0
unfolding scan
scan-CutFits g [] order room = omega arith
scan-CutFits g (b ∷ bs) order room = elim (Bool-cases (push g b).0) [
  | inl cut ↦ rw cut (omega (arith, push_cuts g b cut))
  | inr more ↦
      rw (more, scan)
        (later (scan (push g b).1 bs).0 (
          scan-CutFits (push g b).1 bs (omega (arith, push_frame g b))
            (omega (arith, push_frame g b, push_goes_on g b order more))))
]
  where
    later :
        (o : Option ℕ)
        → CutFits (push g b).1 (length bs) o
        → CutFits g (suc (length bs)) (Option.map (λ (c : ℕ). suc c) o)
    later none h = omega (arith, push_frame g b)
    later (some c) h = omega (arith, push_frame g b)
