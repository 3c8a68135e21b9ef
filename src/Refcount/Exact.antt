-- ===== src/Refcount/Exact.antt =====
-- Counting is exact: what `Add`, `Sub`, `AddMany` and `SubMany` do to every count, errors included.
use go_shardblob.Base.{
  ℕ, ◌+◌, ◌-◌, ◌%◌, ◌^◌, ◌≤◌, ◌<◌, ◌≡◌, refl, arith, List, [], ◌∷◌, ◌=?◌, inl, inr, Option-cases,
  if◌then◌else◌,
}
use go_shardblob.Base.Dict
use go_shardblob.Base.Dict.{Dict, lookup-insert, lookup-erase}
use go_shardblob.Base.Result.{ok, err, Error, underflow}
use go_shardblob.Hashx.{HashId}
use go_shardblob.Refcount.{
  Journal, IsReliable, Table, get, set, add, sub, add_many, sub_many, inc, dec,
}

-- How often an identifier stands in a list.
unfoldable pub occurs : HashId → List HashId → ℕ
occurs id [] = 0
occurs id (x ∷ xs) = let rest = occurs id xs in if x =? id then 1 + rest else rest

pub get-set :
    (t : Table) (id j : HashId) (n : ℕ) → get (set t id n) j ≡ (if id =? j then n else get t j)
unfolding get set
get-set t id j n = ground (arith, lookup-insert id j n t.counts, lookup-erase id j t.counts)

take_back : (c n : ℕ) → c < 2 ^ 64 → n < 2 ^ 64 → ((c + n) % 2 ^ 64 + 2 ^ 64 - n) % 2 ^ 64 ≡ c
take_back c n hc hn = omega arith

module _ (J : Journal) where
  -- An `Add` whose journal record is refused leaves every count and the change counter as they were,
  -- where the count and what is added are machine words.
  pub add_rolls_back :
      (t : Table) (w : J.World) (id j : HashId) (n : ℕ) (e : Error)
      → get t id < 2 ^ 64
      → n < 2 ^ 64
      → (add J t w id n).0 ≡ err e
      → (get (add J t w id n).1 j ≡ get t j) × ((add J t w id n).1.dirty ≡ t.dirty)
  unfolding get add
  add_rolls_back t w id j n e small fits h =
      let up = (get t id + n) % 2 ^ 64 in
      let grown = Dict.insert id up t.counts in
      ground (
        arith,
        take_back (get t id) n small fits,
        lookup-insert id id up t.counts,
        lookup-insert id j up t.counts,
        lookup-erase id j grown,
        lookup-insert id j ((up + 2 ^ 64 - n) % 2 ^ 64) grown,
      )

  -- A `Sub` that fails, by underflow or because the journal refuses the record, leaves every count
  -- and the change counter as they were.
  pub sub_rolls_back :
      (t : Table) (w : J.World) (id j : HashId) (n : ℕ) (e : Error)
      → (sub J t w id n).0 ≡ err e
      → (get (sub J t w id n).1 j ≡ get t j) × ((sub J t w id n).1.dirty ≡ t.dirty)
  unfolding get sub
  sub_rolls_back t w id j n e h = elim (Option-cases (Dict.lookup id t.counts)) [
    | inl missing ↦ ground arith
    | inr (c, stored) ↦
        let fewer = Dict.insert id (c - n) t.counts in
        let gone = Dict.erase id t.counts in
        ground (
          arith,
          stored,
          lookup-insert id j (c - n) t.counts,
          lookup-erase id j t.counts,
          lookup-insert id j (c - n + n) fewer,
          lookup-insert id j (c - n + n) gone,
        )
  ]

  -- Exactly when the count is too small, and the journal is not asked, `Sub` is an underflow.
  pub sub_underflow :
      (t : Table) (w : J.World) (id : HashId) (n : ℕ)
      → get t id < n
      → sub J t w id n ≡ (err underflow, t, w)
  unfolding get sub
  sub_underflow t w id n h = ground arith

module _ {J : Journal} (JR : IsReliable J) where
  open JR use {Ready, append_ok, append-Ready}

  pub add_ok :
      (t : Table) (w : J.World) (id : HashId) (n : ℕ)
      → Ready w
      → ((add J t w id n).0 ≡ ok tt) × Ready (add J t w id n).2
  unfolding get add
  add_ok t w id n r = ground (arith, append_ok w inc id n r, append-Ready w inc id n r)

  pub get-add :
      (t : Table) (w : J.World) (id j : HashId) (n : ℕ)
      → Ready w
      → n < 2 ^ 64
      → get t j < 2 ^ 64
      → get (add J t w id n).1 j ≡ (if id =? j then (get t j + n) % 2 ^ 64 else get t j)
  unfolding get add
  get-add t w id j n r fits small =
      ground (arith, append_ok w inc id n r, lookup-insert id j ((get t id + n) % 2 ^ 64) t.counts)

  pub sub_ok :
      (t : Table) (w : J.World) (id : HashId) (n : ℕ)
      → Ready w
      → n ≤ get t id
      → ((sub J t w id n).0 ≡ ok tt) × Ready (sub J t w id n).2
  unfolding get sub
  sub_ok t w id n r h = ground (arith, append_ok w dec id n r, append-Ready w dec id n r)

  pub get-sub :
      (t : Table) (w : J.World) (id j : HashId) (n : ℕ)
      → Ready w
      → n ≤ get t id
      → get (sub J t w id n).1 j ≡ (if id =? j then get t j - n else get t j)
  unfolding get sub
  get-sub t w id j n r h = elim (Option-cases (Dict.lookup id t.counts)) [
    | inl missing ↦ ground arith
    | inr (c, stored) ↦ ground (
      arith,
      stored,
      append_ok w dec id n r,
      lookup-insert id j (c - n) t.counts,
      lookup-erase id j t.counts,
    )
  ]

  -- `AddMany` never fails over a reliable journal, and raises each count by the number of times
  -- that the identifier is listed.
  pub add_many_ok :
      (t : Table) (w : J.World) (ids : List HashId)
      → Ready w
      → ((add_many J t w ids).0 ≡ ok tt) × Ready (add_many J t w ids).2
  unfolding add_many
  add_many_ok t w [] r = (refl, r)
  add_many_ok t w (id ∷ ids) r =
      let (done, r') = add_ok t w id 1 r in
      rw (done, add_many) (add_many_ok (add J t w id 1).1 (add J t w id 1).2 ids r')

  pub get-add_many :
      (t : Table) (w : J.World) (ids : List HashId) (j : HashId)
      → Ready w
      → get t j + occurs j ids < 2 ^ 64
      → get (add_many J t w ids).1 j ≡ get t j + occurs j ids
  unfolding add_many occurs
  get-add_many t w [] j r h = omega arith
  get-add_many t w (id ∷ ids) j r h =
      let (done, r') = add_ok t w id 1 r in
      rw (done, add_many)
        (ground (
          arith,
          get-add t w id j 1 r,
          get-add_many (add J t w id 1).1 (add J t w id 1).2 ids j r',
        ))

  -- `SubMany` succeeds when every count covers the list, and lowers each by its occurrences.
  pub sub_many_ok :
      (t : Table) (w : J.World) (ids : List HashId)
      → Ready w
      → ((j : HashId) → occurs j ids ≤ get t j)
      → ((sub_many J t w ids).0 ≡ ok tt) × Ready (sub_many J t w ids).2
  unfolding sub_many occurs
  sub_many_ok t w [] r covered = (refl, r)
  sub_many_ok t w (id ∷ ids) r covered =
      let one : 1 ≤ get t id = ground (arith, covered id) in
      let (done, r') = sub_ok t w id 1 r one in
      rw (done, sub_many)
        (sub_many_ok (sub J t w id 1).1 (sub J t w id 1).2 ids r'
          (λ j. ground (arith, covered j, get-sub t w id j 1 r one)))

  pub get-sub_many :
      (t : Table) (w : J.World) (ids : List HashId) (j : HashId)
      → Ready w
      → ((j : HashId) → occurs j ids ≤ get t j)
      → get (sub_many J t w ids).1 j + occurs j ids ≡ get t j
  unfolding sub_many occurs
  get-sub_many t w [] j r covered = omega arith
  get-sub_many t w (id ∷ ids) j r covered =
      let one : 1 ≤ get t id = ground (arith, covered id) in
      let (done, r') = sub_ok t w id 1 r one in
      rw (done, sub_many)
        (ground (
          arith,
          covered j,
          get-sub t w id j 1 r one,
          get-sub_many (sub J t w id 1).1 (sub J t w id 1).2 ids j r'
              (λ i. ground (arith, covered i, get-sub t w id i 1 r one)),
        ))

  -- `AddMany` on a journal that accepts every record succeeds, and raises the count of every
  -- identifier by the number of times it stands in the list, while that stays below 2^64.
  pub add_many_exact :
      (t : Table) (w : J.World) (ids : List HashId)
      → Ready w
      → ((add_many J t w ids).0 ≡ ok tt)
        × ((j : HashId)
            → get t j + occurs j ids < 2 ^ 64
            → get (add_many J t w ids).1 j ≡ get t j + occurs j ids)
  add_many_exact t w ids r = ((add_many_ok t w ids r).0, λ j fits. get-add_many t w ids j r fits)

  -- `SubMany` on a journal that accepts every record, when every count covers the number of times
  -- the identifier stands in the list, succeeds and lowers each count by that number.
  pub sub_many_exact :
      (t : Table) (w : J.World) (ids : List HashId)
      → Ready w
      → ((j : HashId) → occurs j ids ≤ get t j)
      → ((sub_many J t w ids).0 ≡ ok tt)
        × ((j : HashId) → get (sub_many J t w ids).1 j + occurs j ids ≡ get t j)
  sub_many_exact t w ids r covered =
      ((sub_many_ok t w ids r covered).0, λ j. get-sub_many t w ids j r covered)
