-- ===== src/Chunk/Gear.antt =====
-- internal/chunk/cdc.go: the rolling hash that finds the boundaries of content-defined pieces.
pub mod Boundary
use go_shardblob.Base.{
  Bytes, ℕ, zero, suc, ◌+◌, ◌-◌, ◌*◌, ◌/◌, ◌%◌, ◌^◌, bit_and, bit_xor, Bool, true, false, Option,
  none, some, List, [], ◌∷◌, length, ltb, leb, ◌==◌, if◌then◌else◌,
}
use mathlib.Core.Option
use go_shardblob.Chunk.Policy.{Policy, normalize, mask}

-- One round of splitmix64 on the state `x`, with the wrap-around of uint64.
unfoldable pub mix : ℕ → ℕ
mix x =
    let z1 = bit_xor x (x / 2 ^ 30) * 0xBF58476D1CE4E5B9 % 2 ^ 64 in
    let z2 = bit_xor z1 (z1 / 2 ^ 27) * 0x94D049BB133111EB % 2 ^ 64 in bit_xor z2 (z2 / 2 ^ 31)

-- The loop of `init`, over the rounds left.
unfoldable pub fill_table : ℕ → ℕ → List ℕ
unfolding mix
fill_table zero x = []
fill_table (suc rounds) x =
    let x' = (x + 0x9E3779B97F4A7C15) % 2 ^ 64 in mix x' ∷ fill_table rounds x'

unfoldable pub gear_table : List ℕ
unfolding fill_table
gear_table = fill_table 256 0xA5A5A5A5C001D00D

entry : List ℕ → ℕ → ℕ
entry [] i = 0
entry (x ∷ xs) zero = x
entry (x ∷ xs) (suc i) = entry xs i

-- `gearTable[b]`
unfoldable pub gear_value : ℕ → ℕ
unfolding gear_table entry
gear_value b = entry gear_table b

-- `Gear`
pub record Gear : Type 0 where
  pub hash : ℕ
  pub n : ℕ
  pub min : ℕ
  pub max : ℕ
  pub mask : ℕ

-- `NewGear`
unfoldable pub new_gear : Policy → Gear
new_gear p =
    let q = normalize p in record { hash = 0; n = 0; min = q.min; max = q.max; mask = mask q }

-- `Reset`
unfoldable pub reset : Gear → Gear
reset g = record g { hash = 0; n = 0 }

-- `Push`: whether to cut after the byte.
unfoldable pub push : Gear → ℕ → Bool × Gear
push g b =
    let g' : Gear = record g {
      hash = (g.hash * 2 % 2 ^ 64 + gear_value b) % 2 ^ 64;
      n = g.n + 1;
    } in
    (
      if ltb g'.n g'.min
          then false
          else if leb g'.max g'.n
          then true
          else bit_and g'.hash g'.mask == 0,
      g',
    )

-- The loop that pushes bytes until a cut: how many bytes up to and with the cut, and the state.
unfoldable pub scan : Gear → Bytes → Option ℕ × Gear
scan g [] = (none, g)
scan g (b ∷ bs) =
    let (cut, g') = push g b in
    let (rest, g'') = scan g' bs in
    if cut then (some 1, g') else (Option.map (λ (c : ℕ). suc c) rest, g'')

-- `FindBoundary`
unfoldable pub find_boundary : Bytes → Policy → ℕ × Bool
find_boundary p pol = elim (scan (new_gear pol) p).0 [
  | none ↦ (length p, false)
  | some cut ↦ (cut, true)
]
