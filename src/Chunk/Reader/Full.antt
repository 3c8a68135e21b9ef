-- ===== src/Chunk/Reader/Full.antt =====
-- What `Read` and `io.ReadFull` return, for every way in which the bytes arrive.
use go_shardblob.Base.{
  Bytes, ℕ, zero, suc, ◌+◌, ◌-◌, ◌≤◌, ◌<◌, ◌≡◌, ◌≢◌, ◌⊎◌, refl, sym, ap, ◌∙◌, arith, none, some,
  List, [], ◌∷◌, ◌++◌, append_assoc, length, length-append, length-take, take-append-drop, take,
  drop, leb, inl, inr, Bool-cases,
}
use go_shardblob.Chunk.Reader.{
  Reader, Status, more, eof, unexpected_eof, failed, content, content_of, end_status, after_burst,
  read_burst, read, full_status, read_loop, read_full, loop_end,
}

-- What a status says of the reader that is left.
abbrev pub StatusFits : Status → Reader → Type 0
StatusFits more r = Unit
StatusFits eof r = (r.bursts ≡ []) × (r.ending ≡ none)
StatusFits unexpected_eof r = ⊥
StatusFits (failed e) r = (r.bursts ≡ []) × (r.ending ≡ some e)

-- A read of at most `k` bytes takes a front of the content, and either a whole burst or `k` bytes.
pub record ReadFits (r : Reader) (k : ℕ) (p : Bytes) (st : Status) (r' : Reader) : Type 0 where
  pub front : p ++ content r' ≡ content r
  pub fits : length p ≤ k
  pub same_ending : r'.ending ≡ r.ending
  pub status : StatusFits st r'
  pub progress : st ≡ more → (length r'.bursts < length r.bursts) ⊎ (length p ≡ k)
  pub no_growth : length r'.bursts ≤ length r.bursts

end-StatusFits : (r : Reader) → r.bursts ≡ [] → StatusFits (end_status r.ending) r
end-StatusFits r h = ground arith

after-StatusFits :
    (r r' : Reader) (bs : List Bytes)
    → r'.bursts ≡ bs
    → r'.ending ≡ r.ending
    → StatusFits (after_burst r bs) r'
after-StatusFits r r' [] h e = ground arith
after-StatusFits r r' (b ∷ bs) h e = tt

read_burst-ReadFits :
    (r : Reader) (k : ℕ) (bs : List Bytes)
    → r.bursts ≡ bs
    → let (p, st, r') = read_burst r k bs in ReadFits r k p st r'
unfolding read_burst
read_burst-ReadFits r k [] h = record {
  front = refl;
  fits = omega arith;
  same_ending = refl;
  status = end-StatusFits r h;
  progress = λ e. ground arith;
  no_growth = omega arith;
}
read_burst-ReadFits r k (b ∷ bs) h = elim (Bool-cases (leb (length b) k)) [
  | inl whole ↦ rw whole (record {
    front = rw h;
    fits = ground arith;
    same_ending = refl;
    status = after-StatusFits r (record r { bursts = bs }) bs refl refl;
    progress = λ e. rw h (inl (omega arith));
    no_growth = rw h (omega arith);
  })
  | inr part ↦ rw part (record {
    front = rw h (
        sym (append_assoc (take k b) (drop k b) (content_of bs))
        ∙ ap (λ x. x ++ content_of bs) (take-append-drop k b));
    fits = omega (arith, length-take {0} k b);
    same_ending = refl;
    status = tt;
    progress = λ e. inr (ground (arith, length-take {0} k b));
    no_growth = rw h (omega arith);
  })
]

pub read-ReadFits : (r : Reader) (k : ℕ) → let (p, st, r') = read r k in ReadFits r k p st r'
unfolding read
read-ReadFits r k = read_burst-ReadFits r k r.bursts refl

-- What `io.ReadFull` answers: `k` bytes, or all that was left and why there was no more.
abbrev pub FullFits : ℕ → Bytes → Status → Reader → Type 0
FullFits k p more r = length p ≡ k
FullFits k p eof r = (p ≡ []) × (r.bursts ≡ []) × (r.ending ≡ none)
FullFits k p unexpected_eof r =
    (1 ≤ length p) × (length p < k) × (r.bursts ≡ []) × (r.ending ≡ none)
FullFits k p (failed e) r = (length p < k) × (r.bursts ≡ []) × (r.ending ≡ some e)

full_status-FullFits :
    (k : ℕ) (p : Bytes) (st : Status) (r : Reader)
    → StatusFits st r
    → st ≢ more
    → length p ≤ k
    → FullFits k p (full_status (length p) k st) r
full_status-FullFits k p more r h other room = absurd (other refl)
full_status-FullFits k [] eof r h other room = ground arith
full_status-FullFits k (x ∷ xs) eof r h other room = ground arith
full_status-FullFits k p unexpected_eof r h other room = absurd h
full_status-FullFits k p (failed e) r h other room = ground arith

-- A result of `io.ReadFull` that started with `got` in the buffer.
abbrev pub LoopFits : ℕ → Bytes → Reader → Bytes × Status × Reader → Type 0
LoopFits k got r (p, st, r') =
    (p ++ content r' ≡ got ++ content r) × FullFits k p st r' × (r'.ending ≡ r.ending)

loop_end-fits :
    (r : Reader) (k : ℕ) (got p : Bytes) (st : Status) (r' : Reader)
    (next : Bytes × Status × Reader)
    → ReadFits r (k - length got) p st r'
    → length got ≤ k
    → (st ≡ more → length got + length p < k → LoopFits k (got ++ p) r' next)
    → LoopFits k got r (loop_end k (got ++ p) st r' next)
loop_end-fits r k got p more r' next f room ih = elim (Bool-cases (leb k (length (got ++ p)))) [
  | inl full ↦ rw full (
    append_assoc got p (content r') ∙ ap (λ x. got ++ x) f.front,
    ground (arith, length-append {0} got p, f.fits),
    f.same_ending,
  )
  | inr short ↦
      let (joined, fits, ends) = ih refl (ground (arith, length-append {0} got p)) in
      rw short (
        joined ∙ append_assoc got p (content r') ∙ ap (λ x. got ++ x) f.front,
        fits,
        ends ∙ f.same_ending,
      )
]
loop_end-fits r k got p eof r' next f room ih = (
  append_assoc got p (content r') ∙ ap (λ x. got ++ x) f.front,
  full_status-FullFits k (got ++ p) eof r' f.status (λ e. cc)
      (omega (arith, length-append {0} got p, f.fits)),
  f.same_ending,
)
loop_end-fits r k got p unexpected_eof r' next f room ih = absurd f.status
loop_end-fits r k got p (failed e) r' next f room ih = (
  append_assoc got p (content r') ∙ ap (λ x. got ++ x) f.front,
  full_status-FullFits k (got ++ p) (failed e) r' f.status (λ e. cc)
      (omega (arith, length-append {0} got p, f.fits)),
  f.same_ending,
)

read_loop-fits :
    (fuel : ℕ) (r : Reader) (k : ℕ) (got : Bytes)
    → length r.bursts < fuel
    → length got ≤ k
    → LoopFits k got r (read_loop fuel r k got)
unfolding read_loop
read_loop-fits zero r k got enough room = absurd (omega arith)
read_loop-fits (suc fuel) r k got enough room = elim (Bool-cases (leb k (length got))) [
  | inl full ↦ rw full (refl, ground arith, refl)
  | inr short ↦
      let (p, st, r') = read r (k - length got) in
      let f = read-ReadFits r (k - length got) in
      rw (short, read_loop)
        (loop_end-fits r k got p st r' (read_loop fuel r' k (got ++ p)) f room λ going less.
          read_loop-fits fuel r' k (got ++ p) (fewer p st r' f going less)
            (omega (arith, length-append {0} got p)))
]
  where
    fewer :
        (p : Bytes) (st : Status) (r' : Reader)
        → ReadFits r (k - length got) p st r'
        → st ≡ more
        → length got + length p < k
        → length r'.bursts < fuel
    fewer p st r' f going less = elim (f.progress going) [
      | inl down ↦ omega arith
      | inr all ↦ absurd (omega arith)
    ]

-- `io.ReadFull` ends on every reader, and returns `k` bytes of its content, or all that is left
-- with the reason why there are no more.
pub read_full-fits : (r : Reader) (k : ℕ) → LoopFits k [] r (read_full r k)
unfolding read_full
read_full-fits r k = read_loop-fits (suc (length r.bursts)) r k [] (omega arith) (omega arith)
