-- ===== src/Chunk/Splitter/Cdc.antt =====
-- `nextCDC` agrees with `FindBoundary` on what is left, in whatever bursts the bytes arrive.
use go_shardblob.Base.{
  Bytes, ℕ, zero, suc, ◌+◌, ◌≤◌, ◌<◌, ◌≡◌, refl, sym, ap, ◌∙◌, arith, Bool, true, false, Option,
  none, some, [], ◌∷◌, ◌++◌, append-nil, append_assoc, length, length-append, length-take, take,
  drop, take-append-drop, ◌==◌, if◌then◌else◌, inl, inr, Bool-cases, Option-cases, ==_iff,
}
use mathlib.Core.Path.{subst}
use go_shardblob.Chunk.Policy.{Policy, cdc}
use go_shardblob.Chunk.Policy.Bounds.{IsNormal}
use go_shardblob.Chunk.Gear.{Gear, new_gear, reset, push, scan, find_boundary}
use go_shardblob.Chunk.Gear.Boundary.{scan-append, shift_cut}
use go_shardblob.Chunk.Reader.{
  Reader, Status, more, eof, unexpected_eof, failed, content, content_of, read,
}
use go_shardblob.Chunk.Reader.Full.{ReadFits, StatusFits, read-ReadFits}
use go_shardblob.Chunk.Splitter.{
  Splitter, Next, emit, at_eof, after_cut, last_piece, cdc_cut, cdc_loop, cdc_carried, next_cdc,
  buf_size,
}
use go_shardblob.Chunk.Splitter.Reference.{
  cut_by, next_cut, remaining, IsGoing, NextFits, emit-NextFits, find_boundary-cut,
}

-- The same bounds and mask, whatever was pushed.
reset-push : (g : Gear) (b : ℕ) → reset (push g b).1 ≡ reset g
unfolding push reset
reset-push g b = refl

scan_frame : (g : Gear) (p : Bytes) → reset (scan g p).1 ≡ reset g
unfolding scan
scan_frame g [] = refl
scan_frame g (b ∷ bs) = ground (arith, scan_frame (push g b).1 bs, reset-push g b)

-- While `nextCDC` runs: `s0` is the splitter that it started from, and `c` what that had left.
-- What is in the buffer has no cut, and the gear has read all of it.
record IsScanning (s0 s : Splitter) (c buf : Bytes) : Type 0 where
  mode_cdc : s.pol.mode ≡ cdc
  normal : IsNormal s.pol
  same_pol : s.pol ≡ s0.pol
  same_index : s.index ≡ s0.index
  same_offset : s.offset ≡ s0.offset
  ends_well : s.r.ending ≡ none
  not_stopped : s.stopped ≡ none
  going : s.is_eof ≡ false
  carry_used : s.carry ≡ []
  joined : buf ++ content s.r ≡ c
  scanned : scan (new_gear s.pol) buf ≡ (none, s.gear)
  gear_new : reset s.gear ≡ new_gear s.pol

cdc_cut_is : (pol : Policy) (c : Bytes) → pol.mode ≡ cdc → next_cut pol c ≡ (find_boundary c pol).0
unfolding next_cut cut_by
cdc_cut_is pol c m = rw m

scan_cut-le : (g : Gear) (p : Bytes) (k : ℕ) → (scan g p).0 ≡ some k → (1 ≤ k) × (k ≤ length p)
unfolding scan
scan_cut-le g [] k e = cc
scan_cut-le g (b ∷ bs) k e = elim (Bool-cases (push g b).0) [
  | inl cut ↦ ground arith
  | inr goes ↦ elim (Option-cases (scan (push g b).1 bs).0) [
    | inl no_cut ↦ cc (e, goes, no_cut)
    | inr (j, found) ↦ ground (arith, found, scan_cut-le (push g b).1 bs j found)
  ]
]

drop-all : (p : Bytes) → drop (length p) p ≡ []
drop-all [] = refl
drop-all (x ∷ xs) = drop-all xs

-- Bytes behind a cut do not move it.
scan_cut-append :
    (g : Gear) (p q : Bytes) (k : ℕ) → (scan g p).0 ≡ some k → (scan g (p ++ q)).0 ≡ some k
scan_cut-append g p q k e = rw (scan-append g p q, e)

-- A scan with no cut is continued by the scan of what follows.
scan_two :
    (g : Gear) (p q : Bytes) {g1 g2 : Gear} {cut : Option ℕ}
    → scan g p ≡ (none, g1)
    → scan g1 q ≡ (cut, g2)
    → scan g (p ++ q) ≡ (shift_cut (length p) cut, g2)
scan_two g p q h1 h2 = ground (arith, h1, h2, scan-append g p q)

module _ (s0 s : Splitter) (c buf : Bytes) (i : IsScanning s0 s c buf) where
  open i use {
    mode_cdc, normal, same_pol, same_index, same_offset, ends_well, not_stopped, going, carry_used,
    joined, scanned, gear_new,
  }

  module _ (tmp : Bytes) (st : Status) (r' : Reader) (f : ReadFits s.r buf_size tmp st r')
      (cut : Option ℕ) (g' : Gear) (here : scan s.gear tmp ≡ (cut, g')) where
    -- The content is what was in the buffer, what was read, and what is left in the reader.
    all : (buf ++ tmp) ++ content r' ≡ c
    all = append_assoc buf tmp (content r') ∙ ap (λ x. buf ++ x) f.front ∙ joined

    both : scan (new_gear s.pol) (buf ++ tmp) ≡ (shift_cut (length buf) cut, g')
    both = scan_two (new_gear s.pol) buf tmp scanned here

    frame : reset g' ≡ new_gear s.pol
    frame = ap (λ x. reset x.1) (sym here) ∙ scan_frame s.gear tmp ∙ gear_new

    -- The splitter with what was read.
    abbrev fed : Splitter
    fed = record s { r = r'; gear = g' }

    ends : r'.ending ≡ none
    ends = f.same_ending ∙ ends_well

    next-IsScanning : cut ≡ none → IsScanning s0 fed c (buf ++ tmp)
    next-IsScanning no_cut = record {
      mode_cdc = mode_cdc;
      normal = normal;
      same_pol = same_pol;
      same_index = same_index;
      same_offset = same_offset;
      ends_well = ends;
      not_stopped = not_stopped;
      going = going;
      carry_used = carry_used;
      joined = all;
      scanned = rw no_cut at both;
      gear_new = frame;
    }

    -- A cut in what was read: the piece goes up to it, and the rest is carried over.
    cut_fits :
        (k : ℕ) → cut ≡ some k → NextFits s0 c (emit (after_cut fed tmp k st) (buf ++ take k tmp))
    cut_fits k at_k = by_status st refl
      where
        found : (scan s.gear tmp).0 ≡ some k
        found = ap (λ x. x.0) here ∙ at_k

        inside : (1 ≤ k) × (k ≤ length tmp)
        inside = scan_cut-le s.gear tmp k found

        at_boundary : (scan (new_gear s.pol) c).0 ≡ some (length buf + k)
        at_boundary =
            subst (λ x. (scan (new_gear s.pol) x).0 ≡ some (length buf + k)) all
              (scan_cut-append (new_gear s.pol) (buf ++ tmp) (content r') (length buf + k)
                (ap (λ x. x.0) both ∙ ap (shift_cut (length buf)) at_k))

        long : length (buf ++ take k tmp) ≡ next_cut s0.pol c
        long =
            subst (λ x. length (buf ++ take k tmp) ≡ next_cut x c) same_pol
              (rw (cdc_cut_is s.pol c mode_cdc, find_boundary-cut, at_boundary)
                (omega (arith, length-append {0} buf (take k tmp), length-take {0} k tmp, inside)))

        front : (buf ++ take k tmp) ++ (drop k tmp ++ content r') ≡ c
        front =
            append_assoc buf (take k tmp) (drop k tmp ++ content r')
            ∙ ap (λ x. buf ++ x) (sym (append_assoc (take k tmp) (drop k tmp) (content r')))
            ∙ ap (λ x. buf ++ (x ++ content r')) (take-append-drop k tmp)
            ∙ sym (append_assoc buf tmp (content r'))
            ∙ all

        with_eof :
            (e : Bool)
            → (e ≡ true → drop k tmp ++ content r' ≡ [])
            → NextFits s0 c
                (emit (record fed { carry = drop k tmp; is_eof = e }) (buf ++ take k tmp))
        with_eof e none_left =
            emit-NextFits s0 (record fed { carry = drop k tmp; is_eof = e }) c (buf ++ take k tmp)
              (record {
                normal = normal;
                gear_new = frame;
                ends_well = ends;
                not_stopped = not_stopped;
                nothing_left = none_left;
                no_carry = λ h. cc;
              })
              same_pol same_index same_offset front long
              (omega (arith, length-append {0} buf (take k tmp), length-take {0} k tmp, inside))

        used_up : (k == length tmp) ≡ true → drop k tmp ≡ []
        used_up h = rw ((==_iff _ _).0 h) (drop-all tmp)

        by_status :
            (st' : Status)
            → st ≡ st'
            → NextFits s0 c (emit (after_cut fed tmp k st') (buf ++ take k tmp))
        by_status eof q = with_eof (if k == length tmp then true else s.is_eof) λ h.
            elim (Bool-cases (k == length tmp)) [
              | inl whole ↦
                  let (empty, why) = subst (λ x. StatusFits x r') q f.status in
                  rw (used_up whole, empty)
              | inr part ↦ cc (h, part)
            ]
        by_status more q = with_eof s.is_eof (λ h. cc)
        by_status unexpected_eof q = with_eof s.is_eof (λ h. cc)
        by_status (failed x) q = with_eof s.is_eof (λ h. cc)

    end_fits : cut ≡ none → st ≡ eof → NextFits s0 c (last_piece (at_eof fed) (buf ++ tmp))
    end_fits no_cut ended = by_rest (buf ++ tmp) refl
      where
        over : (r'.bursts ≡ []) × (r'.ending ≡ none)
        over = subst (λ x. StatusFits x r') ended f.status

        whole : buf ++ tmp ≡ c
        whole =
            sym (append-nil (buf ++ tmp))
            ∙ (subst (λ x. (buf ++ tmp) ++ content_of x ≡ c) over.0 all)

        no_boundary : (scan (new_gear s.pol) c).0 ≡ none
        no_boundary =
            subst (λ x. (scan (new_gear s.pol) x).0 ≡ none) whole
              (ap (λ x. x.0) both ∙ ap (shift_cut (length buf)) no_cut)

        long : length c ≡ next_cut s0.pol c
        long =
            subst (λ x. length c ≡ next_cut x c) same_pol
              (rw (cdc_cut_is s.pol c mode_cdc, find_boundary-cut, no_boundary))

        none_left : remaining (at_eof fed) ≡ []
        none_left = ap (λ x. x ++ content r') carry_used ∙ ap content_of over.0

        by_rest : (p : Bytes) → buf ++ tmp ≡ p → NextFits s0 c (last_piece (at_eof fed) p)
        by_rest [] e = subst (λ x. NextFits s0 x (last_piece (at_eof fed) [])) (sym e ∙ whole) refl
        by_rest (b ∷ bs) e =
            emit-NextFits s0 (at_eof fed) c (b ∷ bs)
              (record {
                normal = normal;
                gear_new = frame;
                ends_well = ends;
                not_stopped = not_stopped;
                nothing_left = λ h. none_left;
                no_carry = λ h. carry_used;
              })
              same_pol same_index same_offset
              (ap (λ x. (b ∷ bs) ++ x) none_left ∙ append-nil (b ∷ bs) ∙ sym e ∙ whole)
              (ap length (sym e ∙ whole) ∙ long) (omega arith)

    cdc_cut-fits :
        (next : Next × Splitter)
        → (st ≡ more → cut ≡ none → NextFits s0 c next)
        → NextFits s0 c (cdc_cut fed buf tmp st cut next)
    cdc_cut-fits next ih = by_status cut refl st refl
      where
        by_status :
            (cut' : Option ℕ)
            → cut ≡ cut'
            → (st' : Status) → st ≡ st'
            → NextFits s0 c (cdc_cut fed buf tmp st' cut' next)
        by_status (some k) e st' q =
            subst (λ x. NextFits s0 c (emit (after_cut fed tmp k x) (buf ++ take k tmp))) q
              (cut_fits k e)
        by_status none e more q = ih q e
        by_status none e eof q = end_fits e q
        by_status none e unexpected_eof q = absurd (subst (λ x. StatusFits x r') q f.status)
        by_status none e (failed x) q =
            let (empty, why) = subst (λ x. StatusFits x r') q f.status in cc (why, ends)

-- What is still to come, in bytes and bursts: every round of the loop takes some of it.
abbrev to_come : Reader → ℕ
to_come r = length r.bursts + length (content r)

shrinks : (r r' : Reader) (tmp : Bytes) → ReadFits r buf_size tmp more r' → to_come r' < to_come r
shrinks r r' tmp f = elim (f.progress refl) [
  | inl fewer ↦ omega (arith, ap length f.front, length-append {0} tmp (content r'))
  | inr full ↦ omega (arith, f.no_growth, ap length f.front, length-append {0} tmp (content r'))
]

cdc_loop-fits :
    (fuel : ℕ) (s0 s : Splitter) (c buf : Bytes)
    → IsScanning s0 s c buf
    → to_come s.r < fuel
    → NextFits s0 c (cdc_loop fuel s buf)
unfolding cdc_loop
cdc_loop-fits zero s0 s c buf i enough = absurd (omega arith)
cdc_loop-fits (suc fuel) s0 s c buf i enough =
    let (tmp, st, r') = read s.r buf_size in
    let f = read-ReadFits s.r buf_size in
    let (cut, g') = scan s.gear tmp in
    let s' : Splitter = record s { r = r'; gear = g' } in
    let next = cdc_loop fuel s' (buf ++ tmp) in
    subst (λ b. NextFits s0 c (if b then last_piece s buf else cdc_cut s' buf tmp st cut next))
      (sym (i.going))
      (cdc_cut-fits s0 s c buf i tmp st r' f cut g' refl next λ going no_cut.
        cdc_loop-fits fuel s0 s' c (buf ++ tmp)
          (next-IsScanning s0 s c buf i tmp st r' f cut g' refl no_cut)
          (omega (arith, shrinks s.r r' tmp (subst (λ x. ReadFits s.r buf_size tmp x r') going f))))

reset-reset : (g : Gear) → reset (reset g) ≡ reset g
unfolding reset
reset-reset g = refl

module _ (s : Splitter) (g : IsGoing s) (going : s.is_eof ≡ false) (m : s.pol.mode ≡ cdc) where
  frame_of :
      (cut : Option ℕ) (g' : Gear)
      → scan (reset s.gear) s.carry ≡ (cut, g')
      → reset g' ≡ new_gear s.pol
  frame_of cut g' here =
      ap (λ x. reset x.1) (sym here)
      ∙ scan_frame (reset s.gear) s.carry
      ∙ reset-reset s.gear
      ∙ g.gear_new

  from_start :
      (cut : Option ℕ) (g' : Gear)
      → scan (reset s.gear) s.carry ≡ (cut, g')
      → scan (new_gear s.pol) s.carry ≡ (cut, g')
  from_start cut g' here = rw g.gear_new at here

  -- A cut in what was carried over: nothing is read.
  carried_cut :
      (k : ℕ) (g' : Gear)
      → scan (reset s.gear) s.carry ≡ (some k, g')
      → NextFits s
          (remaining s)
          (emit (record s { gear = g'; carry = drop k s.carry }) (take k s.carry))
  carried_cut k g' here =
      let inside = scan_cut-le (reset s.gear) s.carry k (ap (λ x. x.0) here) in
      let at_boundary =
        scan_cut-append (new_gear s.pol) s.carry (content s.r) k
          (ap (λ x. x.0) (from_start (some k) g' here)) in
      let long : length (take k s.carry) ≡ next_cut s.pol (remaining s) =
        rw (cdc_cut_is s.pol (remaining s) m, find_boundary-cut, at_boundary)
          (omega (arith, length-take {0} k s.carry, inside)) in
      let front : take k s.carry ++ (drop k s.carry ++ content s.r) ≡ remaining s =
        sym (append_assoc (take k s.carry) (drop k s.carry) (content s.r))
        ∙ ap (λ x. x ++ content s.r) (take-append-drop k s.carry) in
      emit-NextFits s (record s { gear = g'; carry = drop k s.carry }) (remaining s)
        (take k s.carry)
        (record {
          normal = g.normal;
          gear_new = frame_of (some k) g' here;
          ends_well = g.ends_well;
          not_stopped = g.not_stopped;
          nothing_left = λ h. cc;
          no_carry = λ h. cc;
        })
        refl refl refl front long (omega (arith, length-take {0} k s.carry, inside))

  start-IsScanning :
      (g' : Gear)
      → scan (reset s.gear) s.carry ≡ (none, g')
      → IsScanning s (record s { gear = g'; carry = [] }) (remaining s) s.carry
  start-IsScanning g' here = record {
    mode_cdc = m;
    normal = g.normal;
    same_pol = refl;
    same_index = refl;
    same_offset = refl;
    ends_well = g.ends_well;
    not_stopped = g.not_stopped;
    going = going;
    carry_used = refl;
    joined = refl;
    scanned = from_start none g' here;
    gear_new = frame_of none g' here;
  }

  carried-fits :
      (cut : Option ℕ) (g' : Gear)
      → scan (reset s.gear) s.carry ≡ (cut, g')
      → NextFits s (remaining s) (cdc_carried (suc (to_come s.r)) s s.carry (cut, g'))
  carried-fits (some k) g' here = carried_cut k g' here
  carried-fits none g' here =
      cdc_loop-fits (suc (to_come s.r)) s (record s { gear = g'; carry = [] }) (remaining s) s.carry
        (start-IsScanning g' here) (omega arith)

  pub next_cdc-fits : NextFits s (remaining s) (next_cdc s)
  unfolding next_cdc
  next_cdc-fits = let (cut, g') = scan (reset s.gear) s.carry in carried-fits cut g' refl
