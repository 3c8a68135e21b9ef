-- ===== src/Chunk/Splitter/Split.antt =====
-- Splitting a whole stream: the pieces are a function of the content and the policy alone.
use go_shardblob.Base.{
  Bytes, ℕ, zero, suc, ◌+◌, ◌%◌, ◌^◌, ◌≤◌, ◌<◌, ◌≡◌, ◌≢◌, refl, sym, ap, ◌∙◌, arith, false, none,
  some, List, [], ◌∷◌, ◌++◌, append-nil, append_assoc, length, length-drop, drop_all, take, drop,
  take-append-drop, length-take, min, if◌then◌else◌, inl, inr, Bool-cases, dec_lt,
}
use mathlib.Core.Path.{subst}
use go_shardblob.Chunk.Policy.{Policy, Mode, cdc, fixed, normalize}
use go_shardblob.Chunk.Policy.Bounds.{IsNormal, normalize-IsNormal}
use go_shardblob.Chunk.Gear.{new_gear, reset}
use go_shardblob.Chunk.Reader.{Reader, content}
use go_shardblob.Chunk.Splitter.{
  Piece, piece, finished, Splitter, new_splitter, next, next_from, next_by, stop, split_loop,
  split_all,
}
use go_shardblob.Chunk.Splitter.Reference.{
  cut_by, next_cut, remaining, IsGoing, NextFits, next_cut-bounds,
}
use go_shardblob.Chunk.Splitter.Fixed.{next_fixed-fits}
use go_shardblob.Chunk.Splitter.Cdc.{next_cdc-fits}

-- The pieces of a content, numbered from `i` and with offsets from `o`.
unfoldable pub pieces_from : ℕ → Policy → ℕ → ℕ → Bytes → List Piece
pieces_from zero pol i o c = []
pieces_from (suc fuel) pol i o [] = []
pieces_from (suc fuel) pol i o (b ∷ bs) =
    let k = next_cut pol (b ∷ bs) in
    let first : Piece = record { index = i; offset = o; bytes = take k (b ∷ bs) } in
    first ∷ pieces_from fuel pol (i + 1) ((o + k) % 2 ^ 64) (drop k (b ∷ bs))

unfoldable pub pieces_of : Policy → Bytes → List Piece
unfolding pieces_from
pieces_of pol c = pieces_from (suc (length c)) (normalize pol) 0 0 c

next_by-fits :
    (s : Splitter)
    → IsGoing s
    → s.is_eof ≡ false
    → (m : Mode) → s.pol.mode ≡ m
    → NextFits s (remaining s) (next_by m s)
next_by-fits s g going cdc e = next_cdc-fits s g going e
next_by-fits s g going fixed e = next_fixed-fits s g going e

-- `Next` agrees with the reference, in both modes and whatever the reader's bursts.
pub next-NextFits : (s : Splitter) → IsGoing s → NextFits s (remaining s) (next s)
unfolding next
next-NextFits s g =
    subst (λ o. NextFits s (remaining s) (next_from o s)) (sym g.not_stopped)
      (elim (Bool-cases s.is_eof) [
        | inl done ↦
            subst
              (λ b. NextFits s (remaining s) (if b then stop s finished else next_by s.pol.mode s))
              (sym done)
              (subst (λ c. NextFits s c (stop s finished)) (sym (g.nothing_left done)) refl)
        | inr going ↦
            subst
              (λ b. NextFits s (remaining s) (if b then stop s finished else next_by s.pol.mode s))
              (sym going) (next_by-fits s g going s.pol.mode refl)
      ])

new_splitter-IsGoing : (r : Reader) (pol : Policy) → r.ending ≡ none → IsGoing (new_splitter r pol)
unfolding new_splitter
new_splitter-IsGoing r pol e = record {
  normal = normalize-IsNormal pol;
  gear_new = unfold reset new_gear in refl;
  ends_well = e;
  not_stopped = refl;
  nothing_left = λ h. cc;
  no_carry = λ h. refl;
}

split_loop-finished :
    (fuel : ℕ) (s : Splitter) (out : List Piece)
    → (next s).0 ≡ finished
    → split_loop (suc fuel) s out ≡ some (out, none)
unfolding split_loop
split_loop-finished fuel s out e = rw (e, split_loop)

split_loop-piece :
    (fuel : ℕ) (s : Splitter) (out : List Piece) (p : Piece)
    → (next s).0 ≡ piece p
    → split_loop (suc fuel) s out ≡ split_loop fuel (next s).1 (out ++ (p ∷ []))
unfolding split_loop
split_loop-piece fuel s out p e = rw (e, split_loop)

split_loop_rest :
    (fuel : ℕ) (s : Splitter) (out : List Piece) (c : Bytes)
    → IsGoing s
    → NextFits s c (next s)
    → length c < fuel
    → split_loop fuel s out ≡ some (out ++ pieces_from fuel s.pol s.index s.offset c, none)
split_loop_rest zero s out c g f enough = absurd (omega arith)
split_loop_rest (suc fuel) s out [] g f enough =
    unfold pieces_from in rw append-nil (split_loop-finished fuel s out f)
split_loop_rest (suc fuel) s out (b ∷ bs) g (is_piece, rest, g', e1, e2, e3) enough =
    let k = next_cut s.pol (b ∷ bs) in
    let p : Piece = record { index = s.index; offset = s.offset; bytes = take k (b ∷ bs) } in
    let s' = (next s).1 in
    let less = next_cut-bounds s.pol (b ∷ bs) g.normal (omega arith) in
    let ih =
      split_loop_rest fuel s' (out ++ (p ∷ [])) (remaining s') g' (next-NextFits s' g')
        (omega (arith, ap length rest, length-drop {0} k (b ∷ bs), less)) in
    split_loop-piece fuel s out p is_piece
    ∙ ih
    ∙ ap (λ x. some (x, none)) (append_assoc out (p ∷ []) _)
    ∙ (unfold pieces_from in cc (rest, e1, e2, e3))

-- Over every reader that ends in EOF, and in both modes, splitting ends, without an error, with the
-- pieces that the content alone determines.
pub split_all-pieces :
    (r : Reader) (pol : Policy)
    → r.ending ≡ none
    → split_all r pol ≡ some (pieces_of pol (content r), none)
unfolding split_all pieces_of new_splitter
split_all-pieces r pol e =
    let s = new_splitter r pol in
    let g = new_splitter-IsGoing r pol e in
    split_loop_rest (suc (length (content r))) s [] (content r) g (next-NextFits s g) (omega arith)

-- The bytes of the pieces, one after the other.
abbrev pub joined : List Piece → Bytes
joined [] = []
joined (p ∷ ps) = p.bytes ++ joined ps

pieces_from-joined :
    (fuel : ℕ) (pol : Policy) (i o : ℕ) (c : Bytes)
    → IsNormal pol
    → length c < fuel
    → joined (pieces_from fuel pol i o c) ≡ c
unfolding pieces_from
pieces_from-joined zero pol i o c n enough = absurd (omega arith)
pieces_from-joined (suc fuel) pol i o [] n enough = refl
pieces_from-joined (suc fuel) pol i o (b ∷ bs) n enough =
    let k = next_cut pol (b ∷ bs) in
    let fits = next_cut-bounds pol (b ∷ bs) n (omega arith) in
    ap (λ x. take k (b ∷ bs) ++ x)
      (pieces_from-joined fuel pol (i + 1) ((o + k) % 2 ^ 64) (drop k (b ∷ bs)) n
        (omega (arith, length-drop {0} k (b ∷ bs), fits)))
    ∙ take-append-drop k (b ∷ bs)

-- Nothing is lost, repeated or reordered: the pieces make up the content.
pub pieces_of-joined : (pol : Policy) (c : Bytes) → joined (pieces_of pol c) ≡ c
unfolding pieces_of
pieces_of-joined pol c =
    pieces_from-joined (suc (length c)) (normalize pol) 0 0 c (normalize-IsNormal pol) (omega arith)

-- Consecutive indices from `i`, consecutive offsets from `o`, and sizes from 1 to `max`.
abbrev pub IsRun : ℕ → ℕ → ℕ → List Piece → Type 0
IsRun max i o [] = Unit
IsRun max i o (p ∷ ps) =
    (p.index ≡ i)
    × (p.offset ≡ o)
    × (1 ≤ length p.bytes)
    × (length p.bytes ≤ max)
    × IsRun max (i + 1) (o + length p.bytes) ps

pieces_from-IsRun :
    (fuel : ℕ) (pol : Policy) (i o : ℕ) (c : Bytes)
    → IsNormal pol
    → length c < fuel
    → o + length c < 2 ^ 64
    → IsRun pol.max i o (pieces_from fuel pol i o c)
unfolding pieces_from
pieces_from-IsRun zero pol i o c n enough room = absurd (omega arith)
pieces_from-IsRun (suc fuel) pol i o [] n enough room = tt
pieces_from-IsRun (suc fuel) pol i o (b ∷ bs) n enough room =
    let k = next_cut pol (b ∷ bs) in
    let fits = next_cut-bounds pol (b ∷ bs) n (omega arith) in
    let size = length-take {0} k (b ∷ bs) in
    let same : (o + k) % 2 ^ 64 ≡ o + length (take k (b ∷ bs)) = omega (arith, size, fits, room) in
    (
      refl,
      refl,
      omega (arith, size, fits),
      omega (arith, size, fits),
      rw same (
          pieces_from-IsRun fuel pol (i + 1) (o + length (take k (b ∷ bs))) (drop k (b ∷ bs)) n
            (omega (arith, length-drop {0} k (b ∷ bs), fits))
            (omega (arith, length-drop {0} k (b ∷ bs), size, fits))),
    )

-- Below 2 ^ 64 bytes the pieces are numbered from 0, each starts where the one before ends, and
-- none is empty or longer than the policy's `max`.
pub pieces_of-IsRun :
    (pol : Policy) (c : Bytes) → length c < 2 ^ 64 → IsRun (normalize pol).max 0 0 (pieces_of pol c)
unfolding pieces_of
pieces_of-IsRun pol c room =
    pieces_from-IsRun (suc (length c)) (normalize pol) 0 0 c (normalize-IsNormal pol) (omega arith)
      (omega arith)

-- All but the last have the size, and the last has no more.
abbrev pub IsEven : ℕ → List Piece → Type 0
IsEven size [] = Unit
IsEven size (p ∷ []) = length p.bytes ≤ size
IsEven size (p ∷ q ∷ ps) = (length p.bytes ≡ size) × IsEven size (q ∷ ps)

IsEven-cons :
    (size : ℕ) (p : Piece) (ps : List Piece)
    → length p.bytes ≤ size
    → (ps ≢ [] → length p.bytes ≡ size)
    → IsEven size ps
    → IsEven size (p ∷ ps)
IsEven-cons size p [] small full h = small
IsEven-cons size p (q ∷ ps) small full h = (full (λ e. cc), h)

pieces_from-IsEven :
    (fuel : ℕ) (pol : Policy) (i o : ℕ) (c : Bytes)
    → pol.mode ≡ fixed
    → IsEven pol.avg (pieces_from fuel pol i o c)
unfolding pieces_from next_cut cut_by
pieces_from-IsEven zero pol i o c m = tt
pieces_from-IsEven (suc fuel) pol i o [] m = tt
pieces_from-IsEven (suc fuel) pol i o (b ∷ bs) m =
    let k = next_cut pol (b ∷ bs) in
    let cut : k ≡ min pol.avg (suc (length bs)) = ap (λ x. cut_by x pol (b ∷ bs)) m in
    let size = length-take {0} k (b ∷ bs) in
    let p : Piece = record { index = i; offset = o; bytes = take k (b ∷ bs) } in
    IsEven-cons pol.avg p (pieces_from fuel pol (i + 1) ((o + k) % 2 ^ 64) (drop k (b ∷ bs)))
      (omega (arith, size, cut))
      (λ some_left. whole k cut size (λ e. some_left (rw e (unfold pieces_from in nothing fuel))))
      (pieces_from-IsEven fuel pol (i + 1) ((o + k) % 2 ^ 64) (drop k (b ∷ bs)) m)
  where
    nothing :
        (fuel : ℕ) → pieces_from fuel pol (i + 1) ((o + next_cut pol (b ∷ bs)) % 2 ^ 64) [] ≡ []
    nothing zero = refl
    nothing (suc fuel) = refl

    whole :
        (k : ℕ)
        → k ≡ min pol.avg (suc (length bs))
        → length (take k (b ∷ bs)) ≡ min k (suc (length bs))
        → drop k (b ∷ bs) ≢ []
        → length (take k (b ∷ bs)) ≡ pol.avg
    whole k cut size more_left = elim (dec_lt pol.avg (suc (length bs))) [
      | yes short ↦ omega (arith)
      | no long ↦ absurd (more_left (drop_all k (b ∷ bs) (omega arith)))
    ]

-- In fixed mode all pieces but the last have the size of the policy, and the last is no longer.
pub pieces_of-IsEven :
    (pol : Policy) (c : Bytes) → pol.mode ≡ fixed → IsEven (normalize pol).avg (pieces_of pol c)
unfolding pieces_of normalize
pieces_of-IsEven pol c m = pieces_from-IsEven (suc (length c)) (normalize pol) 0 0 c m

-- Splitting a stream that ends in EOF succeeds and loses nothing: the pieces make up the content.
pub split_all_lossless :
    (r : Reader) (pol : Policy)
    → r.ending ≡ none
    → (ps : List Piece) × (split_all r pol ≡ some (ps, none)) × (joined ps ≡ content r)
split_all_lossless r pol e =
    (pieces_of pol (content r), split_all-pieces r pol e, pieces_of-joined pol (content r))

-- Splitting a stream of less than 2 ^ 64 bytes that ends in EOF succeeds with pieces that are
-- numbered from 0, of which each starts where the one before ends, and which have 1 to `max` bytes.
pub split_all_numbered :
    (r : Reader) (pol : Policy)
    → r.ending ≡ none
    → length (content r) < 2 ^ 64
    → (ps : List Piece) × (split_all r pol ≡ some (ps, none)) × IsRun (normalize pol).max 0 0 ps
split_all_numbered r pol e room =
    (pieces_of pol (content r), split_all-pieces r pol e, pieces_of-IsRun pol (content r) room)

-- Splitting a stream that ends in EOF in fixed mode succeeds with pieces of the policy's size, but
-- for the last, which is no longer.
pub split_all-IsEven :
    (r : Reader) (pol : Policy)
    → r.ending ≡ none
    → pol.mode ≡ fixed
    → (ps : List Piece) × (split_all r pol ≡ some (ps, none)) × IsEven (normalize pol).avg ps
split_all-IsEven r pol e m =
    (pieces_of pol (content r), split_all-pieces r pol e, pieces_of-IsEven pol (content r) m)
