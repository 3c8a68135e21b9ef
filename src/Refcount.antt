-- ===== src/Refcount.antt =====
-- internal/refcount/table.go: the reference counts of the chunks, with a journal behind them.
pub mod Exact
pub mod Log
pub mod Snapshot
use go_shardblob.Base.{
  ℕ, zero, ◌+◌, ◌-◌, ◌%◌, ◌^◌, ◌≡◌, Bool, true, false, Option, none, some, List, [], ◌∷◌, length,
  ltb, ◌==◌, if◌then◌else◌,
}
use go_shardblob.Base.Dict
use go_shardblob.Base.Dict.{Dict}
use go_shardblob.Base.Result.{Result, ok, err, underflow}
use go_shardblob.Hashx.{HashId}

-- `Op`
pub data Op : Type 0 where
  inc dec checkpoint : Op

-- `Journal.Append` as `Table` calls it; a nil journal accepts every record.
pub record Journal : Type 1 where
  pub World : Type 0
  pub append : World → Op → HashId → ℕ → Result (Unit {0}) × World

-- What the table relies on: in a `Ready` state a record is always accepted.
pub record IsReliable (J : Journal) : Type 1 where
  pub Ready : J.World → Type 0
  pub append_ok :
      (w : J.World) (op : Op) (id : HashId) (n : ℕ) → Ready w → (J.append w op id n).0 ≡ ok tt
  pub append-Ready :
      (w : J.World) (op : Op) (id : HashId) (n : ℕ) → Ready w → Ready (J.append w op id n).1

-- `Table`. A count is a uint64; `dirty` counts the changes since the last snapshot.
pub record Table : Type 0 where
  pub counts : Dict ℕ
  pub dirty : ℕ

abbrev pub new_table : Table
new_table = record { counts = []; dirty = 0 }

abbrev pub or_zero : Option ℕ → ℕ
or_zero none = 0
or_zero (some n) = n

-- `Get`: a missing key reads as 0.
unfoldable pub get : Table → HashId → ℕ
get t id = or_zero (Dict.lookup id t.counts)

-- `Set`
unfoldable pub set : Table → HashId → ℕ → Table
set t id n = record {
  counts = if n == 0 then Dict.erase id t.counts else Dict.insert id n t.counts;
  dirty = t.dirty + 1;
}

-- `ZeroOrMissing`
unfoldable pub zero_or_missing : Table → HashId → Bool
unfolding get
zero_or_missing t id = get t id == 0

live_of : Dict ℕ → List HashId
live_of [] = []
live_of ((id, n) ∷ d) = let rest = live_of d in if ltb 0 n then id ∷ rest else rest

-- `Live`, in the order of iteration.
unfoldable pub live : (List HashId → List HashId) → Table → List HashId
unfolding live_of
live order t = order (live_of t.counts)

-- `Snapshot`
unfoldable pub snapshot : Table → Dict ℕ
snapshot t = t.counts

positive : Dict ℕ → Dict ℕ
positive [] = []
positive ((id, n) ∷ d) = let rest = positive d in if ltb 0 n then Dict.insert id n rest else rest

-- `LoadMap`
unfoldable pub load_map : Dict ℕ → Table
unfolding positive
load_map d = record { counts = positive d; dirty = 0 }

unfoldable pub mark_clean : Table → Table
mark_clean t = record t { dirty = 0 }

unfoldable pub size : Table → ℕ
size t = length t.counts

module _ (J : Journal) where
  -- The part of `Add` after the journal has answered: an error takes the change back.
  unfoldable pub add_end : Table → HashId → ℕ → Result (Unit {0}) → Result (Unit {0}) × Table
  unfolding get
  add_end t id n (ok _) = (ok tt, t)
  add_end t id n (err e) =
      let back = (get t id + 2 ^ 64 - n) % 2 ^ 64 in
      (
        err e,
        record {
          counts = if back == 0 then Dict.erase id t.counts else Dict.insert id back t.counts;
          dirty = t.dirty - 1;
        },
      )

  -- `Add`
  unfoldable pub add : Table → J.World → HashId → ℕ → Result (Unit {0}) × Table × J.World
  unfolding add_end get
  add t w id n =
      if n == 0
      then (ok tt, t, w)
      else let t' : Table = record {
        counts = Dict.insert id ((get t id + n) % 2 ^ 64) t.counts;
        dirty = t.dirty + 1;
      } in
        let (a, w') = J.append w inc id n in let (r, t'') = add_end t' id n a in (r, t'', w')

  -- The part of `Sub` after the journal has answered: an error puts the old count back.
  unfoldable pub sub_end : Table → HashId → ℕ → Result (Unit {0}) → Result (Unit {0}) × Table
  sub_end t id old (ok _) = (ok tt, t)
  sub_end t id old (err e) =
      (err e, record { counts = Dict.insert id old t.counts; dirty = t.dirty - 1 })

  sub_found : Table → J.World → HashId → ℕ → ℕ → Result (Unit {0}) × Table × J.World
  unfolding sub_end
  sub_found t w id n cur =
      if ltb cur n
      then (err underflow, t, w)
      else let left = cur - n in
        let t' : Table = record {
          counts = if left == 0 then Dict.erase id t.counts else Dict.insert id left t.counts;
          dirty = t.dirty + 1;
        } in
        let (a, w') = J.append w dec id n in
        let (r, t'') = sub_end t' id (left + n) a in (r, t'', w')

  sub_at : Table → J.World → HashId → ℕ → Option ℕ → Result (Unit {0}) × Table × J.World
  unfolding sub_found
  sub_at t w id n none = (err underflow, t, w)
  sub_at t w id n (some cur) = sub_found t w id n cur

  -- `Sub`
  unfoldable pub sub : Table → J.World → HashId → ℕ → Result (Unit {0}) × Table × J.World
  unfolding sub_at
  sub t w id n = if n == 0 then (ok tt, t, w) else sub_at t w id n (Dict.lookup id t.counts)

  -- `AddMany`: stops at the first error; what was counted before it stays counted.
  unfoldable pub add_many : Table → J.World → List HashId → Result (Unit {0}) × Table × J.World
  add_many t w [] = (ok tt, t, w)
  add_many t w (id ∷ ids) =
      let (r, t', w') = add t w id 1 in
      elim r [ err e ↦ (err e, t', w') | ok _ ↦ add_many t' w' ids ]

  -- `SubMany`
  unfoldable pub sub_many : Table → J.World → List HashId → Result (Unit {0}) × Table × J.World
  sub_many t w [] = (ok tt, t, w)
  sub_many t w (id ∷ ids) =
      let (r, t', w') = sub t w id 1 in
      elim r [ err e ↦ (err e, t', w') | ok _ ↦ sub_many t' w' ids ]
