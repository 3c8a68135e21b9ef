-- ===== src/Chunk/Splitter/Fixed.antt =====
-- `nextFixed` agrees with the reference: pieces of the average size, and a shorter last one.
use go_shardblob.Base.{
  Bytes, ◌≤◌, ◌≡◌, refl, sym, ap, ◌∙◌, arith, false, none, [], ◌++◌, append-nil, length,
  length-append, min, ltb, ◌==◌,
}
use mathlib.Core.Path.{subst}
use go_shardblob.Chunk.Policy.{fixed}
use go_shardblob.Chunk.Policy.Bounds.{size-bounds}
use go_shardblob.Chunk.Reader.{
  Reader, Status, more, eof, unexpected_eof, failed, content, content_of, read_full,
}
use go_shardblob.Chunk.Reader.Full.{FullFits, read_full-fits}
use go_shardblob.Chunk.Splitter.{Splitter, fixed_end, at_eof, next_fixed}
use go_shardblob.Chunk.Splitter.Reference.{next_cut, remaining, IsGoing, NextFits, emit-NextFits}

module _ (s : Splitter) (g : IsGoing s) (going : s.is_eof ≡ false) (m : s.pol.mode ≡ fixed) where
  positive : 1 ≤ s.pol.avg
  positive = (size-bounds s.pol.avg (IsGoing.normal g).avg_size).0

  cut-min : (c : Bytes) → next_cut s.pol c ≡ min s.pol.avg (length c)
  unfolding next_cut
  cut-min c = rw m

  -- The splitter over the reader that is left, and at the end.
  on-IsGoing : (r' : Reader) → r'.ending ≡ none → IsGoing (record s { r = r' })
  on-IsGoing r' e = record {
    normal = g.normal;
    gear_new = g.gear_new;
    ends_well = e;
    not_stopped = g.not_stopped;
    nothing_left = λ h. cc;
    no_carry = g.no_carry;
  }

  end-IsGoing :
      (r' : Reader) → r'.ending ≡ none → r'.bursts ≡ [] → IsGoing (at_eof (record s { r = r' }))
  end-IsGoing r' e empty = record {
    normal = g.normal;
    gear_new = g.gear_new;
    ends_well = e;
    not_stopped = g.not_stopped;
    nothing_left = λ h. rw (g.no_carry m, empty);
    no_carry = g.no_carry;
  }

  fixed_end-fits :
      (c p : Bytes) (st : Status) (r' : Reader)
      → p ++ content r' ≡ c
      → FullFits s.pol.avg p st r'
      → r'.ending ≡ none
      → NextFits s c (fixed_end (record s { r = r' }) p st)
  fixed_end-fits c p more r' joined full e =
      let whole : ltb (length p) s.pol.avg ≡ false = ground arith in
      let long : length p ≡ next_cut s.pol c =
        omega (arith, cut-min c, full, length-append {0} p (content r'), ap length joined) in
      let front : p ++ remaining (record s { r = r' }) ≡ c = rw (g.no_carry m) joined in
      rw whole (
        emit-NextFits s (record s { r = r' }) c p (on-IsGoing r' e) refl refl refl front long
          (omega (arith, positive, full)))
  fixed_end-fits c p eof r' joined (none_read, empty, ends) e =
      let nothing : c ≡ [] =
        cc (sym joined, ap (λ x. x ++ content r') none_read, ap content_of empty) in
      subst (λ x. NextFits s x (fixed_end (record s { r = r' }) p eof)) (sym nothing) (rw none_read)
  fixed_end-fits c p unexpected_eof r' joined (some_read, short, empty, ends) e =
      let nonempty : (length p == 0) ≡ false = ground arith in
      let all : p ≡ c = sym (append-nil p) ∙ (rw empty at joined) in
      let long : length p ≡ next_cut s.pol c = omega (arith, cut-min c, ap length all) in
      let front : p ++ remaining (at_eof (record s { r = r' })) ≡ c = rw (g.no_carry m) joined in
      rw nonempty (
        emit-NextFits s (at_eof (record s { r = r' })) c p (end-IsGoing r' e empty) refl refl refl
          front long some_read)
  fixed_end-fits c p (failed x) r' joined (short, empty, ends) e = cc

  pub next_fixed-fits : NextFits s (remaining s) (next_fixed s)
  unfolding next_fixed
  next_fixed-fits =
      let (p, st, r') = read_full s.r s.pol.avg in
      let (joined, full, ends) = read_full-fits s.r s.pol.avg in
      let whole : remaining s ≡ content s.r = ap (λ x. x ++ content s.r) (g.no_carry m) in
      fixed_end-fits (remaining s) p st r' (joined ∙ sym whole) full (ends ∙ g.ends_well)
