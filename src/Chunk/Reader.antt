-- ===== src/Chunk/Reader.antt =====
-- `io.Reader` as the library documents it, and `io.ReadFull`. A reader hands out its bytes in
-- bursts of any size, empty ones too, and ends in EOF or in an error, which may come together
-- with the last bytes or after them.
pub mod Full
use go_shardblob.Base.{
  Bytes, ℕ, zero, suc, ◌+◌, ◌-◌, Bool, true, false, Option, none, some, List, [], ◌∷◌, ◌++◌, length,
  take, drop, ltb, leb, ◌==◌, if◌then◌else◌,
}
use go_shardblob.Base.Result.{Error}

-- What a call returns beside its bytes.
pub data Status : Type 0 where
  more : Status
  eof : Status
  unexpected_eof : Status
  failed : Error → Status

-- The bursts, the error at the end, and whether it comes with the last byte; `none` is EOF, plain or
-- wrapped.
pub record Reader : Type 0 where
  pub bursts : List Bytes
  pub ending : Option Error
  pub together : Bool

abbrev pub content_of : List Bytes → Bytes
content_of [] = []
content_of (b ∷ bs) = b ++ content_of bs

abbrev pub content : Reader → Bytes
content r = content_of r.bursts

abbrev pub end_status : Option Error → Status
end_status none = eof
end_status (some e) = failed e

-- The status beside the last byte of a burst, when `rest` is still to come.
abbrev pub after_burst : Reader → List Bytes → Status
after_burst r [] = if r.together then end_status r.ending else more
after_burst r (b ∷ bs) = more

read_burst : Reader → ℕ → List Bytes → Bytes × Status × Reader
read_burst r k [] = ([], end_status r.ending, r)
read_burst r k (b ∷ bs) =
    if leb (length b) k
    then (b, after_burst r bs, record r { bursts = bs })
    else (take k b, more, record r { bursts = drop k b ∷ bs })

-- `Read` into a buffer of `k` bytes.
unfoldable pub read : Reader → ℕ → Bytes × Status × Reader
unfolding read_burst
read r k = read_burst r k r.bursts

-- The status of `io.ReadFull` when its loop has ended with `got` bytes of `k`.
abbrev pub full_status : ℕ → ℕ → Status → Status
full_status got k st =
    if leb k got
    then more
    else elim st [ eof ↦ if got == 0 then eof else unexpected_eof | other ↦ other ]

-- The end of a round: on with `next`, if there was no error and bytes are wanting.
abbrev pub loop_end :
    ℕ → Bytes → Status → Reader → Bytes × Status × Reader → Bytes × Status × Reader
loop_end k got more r next = if leb k (length got) then (got, more, r) else next
loop_end k got st r next = (got, full_status (length got) k st, r)

-- The loop of `io.ReadFull`; each round but the last takes a burst, so one round more than there
-- are bursts is enough.
unfoldable pub read_loop : ℕ → Reader → ℕ → Bytes → Bytes × Status × Reader
read_loop zero r k got = (got, full_status (length got) k more, r)
read_loop (suc fuel) r k got =
    let (p, st, r') = read r (k - length got) in
    let got' = got ++ p in
    let next = read_loop fuel r' k got' in
    if leb k (length got) then (got, more, r) else loop_end k got' st r' next

unfoldable pub read_full : Reader → ℕ → Bytes × Status × Reader
unfolding read_loop
read_full r k = read_loop (suc (length r.bursts)) r k []
