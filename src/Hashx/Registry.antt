-- ===== src/Hashx/Registry.antt =====
-- internal/hashx/algo.go: the registry of digest algorithms. `fold` stands for
-- `strings.ToLower(strings.TrimSpace(name))`.
use go_shardblob.Base.{Bytes, ◌≡◌, arith, Option, none, some, List, [], ◌=?◌, if◌then◌else◌}
use go_shardblob.Base.Dict
use go_shardblob.Base.Dict.{Dict, lookup-insert}
use go_shardblob.Base.Result.{Result, ok, err, unknown_algo, bad_register}
use go_shardblob.Hashx.{Algo}

abbrev pub Registry : Type 0
Registry = Dict Algo

algo_found : Option Algo → Result Algo
algo_found none = err unknown_algo
algo_found (some a) = ok a

module _ (fold : Bytes → Bytes) where
  -- `Lookup`
  unfoldable pub find : Registry → Bytes → Result Algo
  unfolding algo_found
  find reg name = algo_found (Dict.lookup (fold name) reg)

  add_new : Registry → Bytes → Algo → Option Algo → Result (Unit {0}) × Registry
  add_new reg key a none = (ok tt, Dict.insert key a reg)
  add_new reg key a (some old) = (err bad_register, reg)

  -- `Register`; `none` is a nil algorithm.
  unfoldable pub register : Registry → Bytes → Option Algo → Result (Unit {0}) × Registry
  unfolding add_new
  register reg name none = (err bad_register, reg)
  register reg name (some a) =
      let key = fold name in
      if key =? [] then (err bad_register, reg) else add_new reg key a (Dict.lookup key reg)

-- `Names`, in the order of iteration.
abbrev pub names : (List Bytes → List Bytes) → Registry → List Bytes
names order reg = order (Dict.keys reg)

-- `Register` succeeds exactly for a name that folds to one that is neither empty nor taken; `Lookup`
-- then finds the algorithm under every spelling of the name, and every other name as before. A
-- refused one changes nothing.
pub find-register :
    (fold : Bytes → Bytes) (reg : Registry) (name : Bytes) (a : Algo) (other : Bytes)
    → find fold (register fold reg name (some a)).1 other ≡ (
        if fold name =? []
        then find fold reg other
        else if Dict.present (Dict.lookup (fold name) reg)
        then find fold reg other
        else if fold name =? fold other
        then ok a
        else find fold reg other)
unfolding find register
find-register fold reg name a other = ground (arith, lookup-insert (fold name) (fold other) a reg)
