-- ===== src/Chunk/Policy.antt =====
-- internal/chunk/policy.go. Sizes are Go ints: a negative one meets `<= 0` in its first test, as 0
-- does, so it is modelled as 0.
pub mod Bounds
use go_shardblob.Base.{
  ℕ, zero, suc, ◌+◌, ◌-◌, ◌*◌, ◌/◌, ◌%◌, ◌^◌, bit_and, Bool, ◌&&◌, ◌||◌, ltb, leb, ◌==◌,
  if◌then◌else◌,
}
use go_shardblob.Base.Result.{Result, ok, err, bad_policy}

abbrev pub min_avg_size : ℕ
min_avg_size = 1

abbrev pub max_avg_size : ℕ
max_avg_size = 4 * 2 ^ 20

abbrev pub default_avg_size : ℕ
default_avg_size = 64 * 2 ^ 10

-- `Mode`
pub data Mode : Type 0 where
  fixed cdc : Mode

-- `Policy`
pub record Policy : Type 0 where
  pub mode : Mode
  pub avg : ℕ
  pub min : ℕ
  pub max : ℕ

-- `bits.Len`, over at most `width` bits
unfoldable pub bit_len : ℕ → ℕ → ℕ
bit_len zero n = 0
bit_len (suc width) n = let rest = bit_len width (n / 2) in if n == 0 then 0 else suc rest

-- `bits.TrailingZeros`, over at most `width` bits
unfoldable pub trailing_zeros : ℕ → ℕ → ℕ
trailing_zeros zero n = 0
trailing_zeros (suc width) n =
    let rest = trailing_zeros width (n / 2) in if n % 2 == 0 then suc rest else 0

-- The two clamps of `avg`.
unfoldable pub clamp_avg : ℕ → ℕ
clamp_avg avg =
    let low = if ltb avg min_avg_size then min_avg_size else avg in
    if ltb max_avg_size low then max_avg_size else low

-- The nearer of the two powers of two around `avg`; the lower one on a tie.
unfoldable pub nearest_power : ℕ → ℕ
unfolding bit_len clamp_avg
nearest_power avg =
    if bit_and avg (avg - 1) == 0
    then avg
    else let hi = 2 ^ bit_len 64 avg in
      let lo = hi / 2 in clamp_avg (if leb (avg - lo) (hi - avg) then lo else hi)

unfoldable pub normal_avg : ℕ → ℕ
normal_avg avg = nearest_power (clamp_avg (if avg == 0 then default_avg_size else avg))

unfoldable pub normal_min : ℕ → ℕ → ℕ
normal_min avg min =
    let given = if min == 0 then avg / 4 else min in
    let low = if ltb given 1 then 1 else given in if ltb avg low then avg else low

unfoldable pub normal_max : ℕ → ℕ → ℕ
normal_max avg max =
    let given = if max == 0 then avg * 4 else max in
    let high = if ltb given avg then avg else given in
    if ltb (max_avg_size * 4) high then max_avg_size * 4 else high

-- `Normalize`
unfoldable pub normalize : Policy → Policy
normalize p =
    let avg = normal_avg p.avg in
    record { mode = p.mode; avg = avg; min = normal_min avg p.min; max = normal_max avg p.max }

-- `DefaultPolicy`
unfoldable pub default_policy : Policy
default_policy = normalize (record { mode = fixed; avg = default_avg_size; min = 0; max = 0 })

-- `CDCPolicy`
unfoldable pub cdc_policy : ℕ → Policy
cdc_policy avg = normalize (record { mode = cdc; avg = avg; min = 0; max = 0 })

-- `Valid`
unfoldable pub valid : Policy → Result (Unit {0})
valid p =
    let n = normalize p in
    if ltb n.avg min_avg_size || ltb max_avg_size n.avg
    then err bad_policy
    else if ltb n.min 1 || ltb n.max n.min
    then err bad_policy
    else ok tt

-- `Mask`, a uint64
unfoldable pub mask : Policy → ℕ
mask p =
    let zeros = trailing_zeros 64 (normalize p).avg in
    let width = if zeros == 0 then 16 else zeros in 2 ^ width - 1
