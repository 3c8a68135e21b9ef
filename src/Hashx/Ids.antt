-- ===== src/Hashx/Ids.antt =====
-- internal/hashx/id.go: identifiers as text, their order and their comparison; and `EqualID`, the
-- comparison without branches (digest.go).
use go_shardblob.Base.{
  Bytes, ℕ, ◌+◌, ◌-◌, ◌*◌, ◌/◌, ◌%◌, ◌<◌, ◌≡◌, ◌↔◌, refl, arith, bit_or, bit_xor, Bool, true, false,
  ◌&&◌, Option, none, some, [], ◌∷◌, length, take, All, ltb, leb, ◌==◌, ==_iff, if◌then◌else◌,
}
use mathlib.Core.Path.{ap₂}
use go_shardblob.Base.BitZero.{bit_xor_zero, bit_or_zero}
use go_shardblob.Base.Result.{Result, ok, err, bad_hex}
use go_shardblob.Hashx.{HashId, id_size, copy_id}
use go_shardblob.Hashx.Tags.{copy_id_of_wide}

-- `encoding/hex`: a digit as lowercase text, and back from either case.
abbrev pub hex_digit : ℕ → ℕ
hex_digit n = if ltb n 10 then 48 + n else 87 + n

unfoldable pub of_digit : ℕ → Option ℕ
of_digit c =
    if leb 48 c && leb c 57
    then some (c - 48)
    else if leb 97 c && leb c 102
    then some (c - 87)
    else if leb 65 c && leb c 70
    then some (c - 55)
    else none

unfoldable pub hex_encode : Bytes → Bytes
hex_encode [] = []
hex_encode (b ∷ bs) = hex_digit (b / 16) ∷ hex_digit (b % 16) ∷ hex_encode bs

join_digits : Option ℕ → Option ℕ → Option Bytes → Option Bytes
join_digits (some hi) (some lo) (some bs) = some ((hi * 16 + lo) ∷ bs)
join_digits (some hi) (some lo) none = none
join_digits (some hi) none bs = none
join_digits none lo bs = none

unfoldable pub hex_decode : Bytes → Option Bytes
unfolding of_digit join_digits
hex_decode [] = some []
hex_decode (c ∷ []) = none
hex_decode (c ∷ d ∷ cs) = join_digits (of_digit c) (of_digit d) (hex_decode cs)

-- `Hex` and `String`
unfoldable pub hex : HashId → Bytes
unfolding hex_encode
hex id = hex_encode id

parsed : Option Bytes → Result HashId
parsed none = err bad_hex
parsed (some raw) = ok (copy_id raw)

-- `ParseHex`
unfoldable pub parse_hex : Bytes → Result HashId
unfolding hex_decode parsed
parse_hex s = if length s == 64 then parsed (hex_decode s) else err bad_hex

-- `Prefix`; a negative number of bytes reads as 0.
unfoldable pub prefix : HashId → ℕ → Bytes
prefix id n = take (if ltb id_size n then id_size else n) id

pub data Ordering : Type 0 where
  before equal after : Ordering

-- `Compare`: the first byte that differs decides.
unfoldable pub compare : HashId → HashId → Ordering
compare [] b = equal
compare (x ∷ a) [] = equal
compare (x ∷ a) (y ∷ b) =
    let rest = compare a b in if ltb x y then before else if ltb y x then after else rest

-- `Less`
unfoldable pub is_less : HashId → HashId → Bool
unfolding compare
is_less a b = elim (compare a b) [ before ↦ true | _ ↦ false ]

-- The loop of `EqualID`, which looks at every byte.
unfoldable pub differences : ℕ → HashId → HashId → ℕ
differences v [] b = v
differences v (x ∷ a) [] = v
differences v (x ∷ a) (y ∷ b) = differences (bit_or v (bit_xor x y)) a b

-- `EqualID`
unfoldable pub equal_id : HashId → HashId → Bool
unfolding differences
equal_id a b = differences 0 a b == 0

of_digit-hex_digit : (n : ℕ) → n < 16 → of_digit (hex_digit n) ≡ some n
unfolding of_digit
of_digit-hex_digit n h = ground arith

abbrev pub IsBytes : Bytes → Type 0
IsBytes = All (λ b. b < 256)

hex_decode-hex_encode : (b : Bytes) → IsBytes b → hex_decode (hex_encode b) ≡ some b
unfolding hex_decode hex_encode
hex_decode-hex_encode [] h = refl
hex_decode-hex_encode (x ∷ b) (small, h) =
    let whole : x / 16 * 16 + x % 16 ≡ x = omega arith in
    rw (
      of_digit-hex_digit (x / 16) (omega arith),
      of_digit-hex_digit (x % 16) (omega arith),
      hex_decode-hex_encode b h,
      whole,
    )

pub length-hex_encode : (b : Bytes) → length (hex_encode b) ≡ 2 * length b
unfolding hex_encode
length-hex_encode [] = refl
length-hex_encode (x ∷ b) = omega (arith, length-hex_encode b)

-- An identifier of 32 bytes is read back from its hexadecimal text, which has 64 digits.
pub parse_hex-hex :
    (id : HashId)
    → length id ≡ 32
    → IsBytes id
    → (length (hex id) ≡ 64) × (parse_hex (hex id) ≡ ok id)
unfolding parse_hex hex
parse_hex-hex id wide bytes =
    let long : length (hex_encode id) ≡ 64 = omega (arith, length-hex_encode id) in
    (long, rw (long, hex_decode-hex_encode id bytes, copy_id_of_wide id wide) refl)

differences_zero :
    (v : ℕ) (a b : HashId) → length a ≡ length b → (differences v a b ≡ 0) ↔ ((v ≡ 0) × (a ≡ b))
unfolding differences
differences_zero v [] [] e = (λ h. (h, refl), λ (h, _). h)
differences_zero v [] (y ∷ b) e = absurd (omega arith)
differences_zero v (x ∷ a) [] e = absurd (omega arith)
differences_zero v (x ∷ a) (y ∷ b) e =
    let (to, from) = differences_zero (bit_or v (bit_xor x y)) a b (omega arith) in
    (
      λ h.
          let (z, rest) = to h in
          let (v0, x0) = (bit_or_zero v (bit_xor x y)).0 z in
          (v0, ap₂ ◌∷◌ ((bit_xor_zero x y).0 x0) rest),
      λ (v0, e'). from ((bit_or_zero v (bit_xor x y)).1 (v0, (bit_xor_zero x y).1 (cc)), cc),
    )

-- `EqualID`, which combines the differences of all bytes, says that two identifiers of one length
-- are equal exactly when they are.
pub equal_id_iff : (a b : HashId) → length a ≡ length b → (equal_id a b ≡ true) ↔ (a ≡ b)
unfolding equal_id
equal_id_iff a b e =
    let (to, from) = differences_zero 0 a b e in
    let (zero_by, by_zero) = ==_iff (differences 0 a b) 0 in
    (λ h. (to (zero_by h)).1, λ h. by_zero (from (refl, h)))

compare-equal : (a b : HashId) → length a ≡ length b → (compare a b ≡ equal) ↔ (a ≡ b)
unfolding compare
compare-equal [] [] e = (λ h. refl, λ h. refl)
compare-equal [] (y ∷ b) e = absurd (omega arith)
compare-equal (x ∷ a) [] e = absurd (omega arith)
compare-equal (x ∷ a) (y ∷ b) e =
    let (to, from) = compare-equal a b (omega arith) in
    (λ h. ground (arith, to), λ h. ground (arith, from, h))

is_less-opposite :
    (a b : HashId) → length a ≡ length b → (is_less a b ≡ true) ↔ (compare b a ≡ after)
unfolding compare is_less
is_less-opposite [] [] e = (λ h. cc, λ h. cc)
is_less-opposite [] (y ∷ b) e = absurd (omega arith)
is_less-opposite (x ∷ a) [] e = absurd (omega arith)
is_less-opposite (x ∷ a) (y ∷ b) e =
    let (to, from) = is_less-opposite a b (omega arith) in
    (λ h. ground (arith, to), λ h. ground (arith, from))

is_less_trans :
    (a b c : HashId)
    → length a ≡ length b
    → length b ≡ length c
    → is_less a b ≡ true
    → is_less b c ≡ true
    → is_less a c ≡ true
unfolding compare is_less
is_less_trans [] b c e f h k = cc
is_less_trans (x ∷ a) [] c e f h k = cc
is_less_trans (x ∷ a) (y ∷ b) [] e f h k = cc
is_less_trans (x ∷ a) (y ∷ b) (z ∷ c) e f h k =
    ground (arith, is_less_trans a b c (omega arith) (omega arith))

-- On identifiers of one length, `Compare` answers 0 exactly for equal ones, it answers 1 exactly
-- when `Less` holds the other way round, and `Less` is transitive.
pub compare_order :
    (a b : HashId)
    → length a ≡ length b
    → ((compare a b ≡ equal) ↔ (a ≡ b))
      × ((is_less a b ≡ true) ↔ (compare b a ≡ after))
      × ((c : HashId)
          → length b ≡ length c
          → is_less a b ≡ true
          → is_less b c ≡ true
          → is_less a c ≡ true)
compare_order a b e =
    (compare-equal a b e, is_less-opposite a b e, λ c f h k. is_less_trans a b c e f h k)
