-- ===== src/Chunk/Splitter/Reference.antt =====
-- Where the pieces of a content end, said without a reader; and what it means for `Next` to agree.
use go_shardblob.Base.{
  Bytes, ℕ, ◌+◌, ◌%◌, ◌^◌, ◌≤◌, ◌≡◌, refl, sym, ap, arith, true, Option, none, some, [], ◌∷◌, ◌++◌,
  length, length-append, take, drop, take-length_append, drop-length_append, min,
}
use go_shardblob.Chunk.Policy.{Policy, Mode, fixed, cdc}
use go_shardblob.Chunk.Policy.Bounds.{IsNormal, size-bounds, normalize-fixes}
use go_shardblob.Chunk.Gear.{new_gear, reset, scan, find_boundary}
use go_shardblob.Chunk.Gear.Boundary.{CutFits, scan-CutFits}
use go_shardblob.Chunk.Reader.{content}
use go_shardblob.Chunk.Splitter.{Next, piece, finished, Splitter, emit}

unfoldable pub cut_by : Mode → Policy → Bytes → ℕ
cut_by fixed pol c = min pol.avg (length c)
cut_by cdc pol c = (find_boundary c pol).0

-- The length of the next piece of a content: the average, or up to the boundary.
unfoldable pub next_cut : Policy → Bytes → ℕ
unfolding cut_by
next_cut pol c = cut_by pol.mode pol c

-- What a splitter has not handed out yet.
abbrev pub remaining : Splitter → Bytes
remaining s = s.carry ++ content s.r

-- A splitter over a reader that will end in EOF, between two calls of `Next`.
pub record IsGoing (s : Splitter) : Type 0 where
  pub normal : IsNormal s.pol
  pub gear_new : reset s.gear ≡ new_gear s.pol
  pub ends_well : s.r.ending ≡ none
  pub not_stopped : s.stopped ≡ none
  pub nothing_left : s.is_eof ≡ true → remaining s ≡ []
  pub no_carry : s.pol.mode ≡ fixed → s.carry ≡ []

-- `Next` agrees with the reference: EOF when nothing is left, and otherwise the front of what is
-- left, up to the next cut, and a splitter that has the rest to hand out.
abbrev pub NextFits : Splitter → Bytes → Next × Splitter → Type 0
NextFits s [] (n, s') = n ≡ finished
NextFits s (b ∷ bs) (n, s') =
    let c = next_cut s.pol (b ∷ bs) in
    (n ≡ piece (record { index = s.index; offset = s.offset; bytes = take c (b ∷ bs) }))
    × (remaining s' ≡ drop c (b ∷ bs))
    × IsGoing s'
    × (s'.pol ≡ s.pol)
    × (s'.index ≡ s.index + 1)
    × (s'.offset ≡ (s.offset + c) % 2 ^ 64)

-- The gear of a normalised policy has the policy's bounds.
gear_bounds :
    (pol : Policy)
    → IsNormal pol
    → ((new_gear pol).n ≡ 0) × ((new_gear pol).min ≡ pol.min) × ((new_gear pol).max ≡ pol.max)
unfolding new_gear
gear_bounds pol n = rw (normalize-fixes pol n) (refl, refl, refl)

abbrev boundary : Bytes → Option ℕ → ℕ
boundary c none = length c
boundary c (some k) = k

pub find_boundary-cut :
    (c : Bytes) (pol : Policy) → (find_boundary c pol).0 ≡ boundary c (scan (new_gear pol) c).0
unfolding find_boundary
find_boundary-cut c pol = ground arith

boundary-bounds :
    (pol : Policy) (c : Bytes)
    → IsNormal pol
    → 1 ≤ length c
    → (o : Option ℕ) → CutFits (new_gear pol) (length c) o
    → (1 ≤ boundary c o) × (boundary c o ≤ length c) × (boundary c o ≤ pol.max)
boundary-bounds pol c n h none f = omega (arith, gear_bounds pol n)
boundary-bounds pol c n h (some k) f = omega (arith, gear_bounds pol n)

-- A normalised policy cuts off a byte at least, and no more than there is, and than `max`.
pub next_cut-bounds :
    (pol : Policy) (c : Bytes)
    → IsNormal pol
    → 1 ≤ length c
    → (1 ≤ next_cut pol c) × (next_cut pol c ≤ length c) × (next_cut pol c ≤ pol.max)
unfolding next_cut
next_cut-bounds pol c n h = by_mode pol.mode
  where
    positive : 1 ≤ pol.avg
    positive = (size-bounds pol.avg n.avg_size).0

    fits : CutFits (new_gear pol) (length c) (scan (new_gear pol) c).0
    fits =
        scan-CutFits (new_gear pol) c (omega (arith, gear_bounds pol n, n.min-le-avg, n.avg-le-max))
          (omega (arith, gear_bounds pol n, positive, n.avg-le-max))

    by_mode :
        (m : Mode) → (1 ≤ cut_by m pol c) × (cut_by m pol c ≤ length c) × (cut_by m pol c ≤ pol.max)
    by_mode fixed = unfold cut_by in omega (arith, positive, n.avg-le-max)
    by_mode cdc =
        unfold cut_by in
        rw find_boundary-cut (boundary-bounds pol c n h (scan (new_gear pol) c).0 fits)

-- A piece that is cut off the front of what is left, as long as the next cut says.
pub emit-NextFits :
    (s s' : Splitter) (c p : Bytes)
    → IsGoing s'
    → s'.pol ≡ s.pol
    → s'.index ≡ s.index
    → s'.offset ≡ s.offset
    → p ++ remaining s' ≡ c
    → length p ≡ next_cut s.pol c
    → 1 ≤ length p
    → NextFits s c (emit s' p)
unfolding emit
emit-NextFits s s' [] p g e1 e2 e3 joined long pos =
    absurd (omega (arith, length-append {0} p (remaining s'), ap length joined))
emit-NextFits s s' (b ∷ bs) p g e1 e2 e3 joined long pos =
    let front : take (next_cut s.pol (b ∷ bs)) (b ∷ bs) ≡ p =
      rw (← long, ← joined) (take-length_append p (remaining s')) in
    let back : drop (next_cut s.pol (b ∷ bs)) (b ∷ bs) ≡ remaining s' =
      rw (← long, ← joined) (drop-length_append p (remaining s')) in
    (
      cc (front),
      sym back,
      record {
        normal = g.normal;
        gear_new = g.gear_new;
        ends_well = g.ends_well;
        not_stopped = g.not_stopped;
        nothing_left = g.nothing_left;
        no_carry = g.no_carry;
      },
      e1,
      ap (λ (n : ℕ). n + 1) e2,
      cc (long),
    )
