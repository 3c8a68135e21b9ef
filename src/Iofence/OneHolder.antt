-- ===== src/Iofence/OneHolder.antt =====
-- The locks of the objects exclude one another by identifier, although a lock is dropped from the map
-- when nobody waits for it, and made anew later (object.go).
use go_shardblob.Base.{
  ℕ, ◌≤◌, ◌≡◌, inl, inr, refl, arith, none, some, List, [], ◌∷◌, All, ◌=?◌, Option-cases,
}
use go_shardblob.Base.Dict
use go_shardblob.Base.Dict.{Dict, lookup-insert, lookup-erase, lookup-nil}
use go_shardblob.Hashx.{HashId}
use go_shardblob.Iofence.{Locks, Phase, idle, waiting, holding, released, Reachable}
use go_shardblob.Iofence.Moving.{sum_of}
use go_shardblob.Iofence.Exclusion.{one_if}
use go_shardblob.Iofence.Objects.{holds, Mapped, Reachable-IsLocked}

-- Whether a goroutine holds the lock of an identifier.
abbrev pub holds_object : HashId → Phase → ℕ
holds_object j idle = 0
holds_object j (waiting id b) = 0
holds_object j (holding id b) = one_if (id =? j)
holds_object j (released id b) = 0

-- Goroutines that hold the lock of an identifier hold the lock that the map has for it.
holds_object-le :
    (d : Dict ℕ) (id : HashId) (a : ℕ) (ps : List Phase)
    → Dict.lookup id d ≡ some a
    → All (Mapped d) ps
    → sum_of (holds_object id) ps ≤ sum_of (holds a) ps
unfolding sum_of
holds_object-le d id a [] there_is h = omega arith
holds_object-le d id a (idle ∷ ps) there_is (h, hs) =
    omega (arith, holds_object-le d id a ps there_is hs)
holds_object-le d id a (waiting j b ∷ ps) there_is (h, hs) =
    omega (arith, holds_object-le d id a ps there_is hs)
holds_object-le d id a (holding j b ∷ ps) there_is (h, hs) =
    ground (arith, holds_object-le d id a ps there_is hs)
holds_object-le d id a (released j b ∷ ps) there_is (h, hs) =
    omega (arith, holds_object-le d id a ps there_is hs)

none_holds :
    (d : Dict ℕ) (id : HashId) (ps : List Phase)
    → Dict.lookup id d ≡ none
    → All (Mapped d) ps
    → sum_of (holds_object id) ps ≡ 0
unfolding sum_of
none_holds d id [] missing h = refl
none_holds d id (idle ∷ ps) missing (h, hs) = omega (arith, none_holds d id ps missing hs)
none_holds d id (waiting j b ∷ ps) missing (h, hs) = omega (arith, none_holds d id ps missing hs)
none_holds d id (holding j b ∷ ps) missing (h, hs) = ground (arith, none_holds d id ps missing hs)
none_holds d id (released j b ∷ ps) missing (h, hs) = omega (arith, none_holds d id ps missing hs)

-- In every state that goroutines can reach by calling `LockObject` and the functions it returns, in
-- any interleaving, at most one of them holds the lock of an identifier.
pub one_holder :
    (l : Locks) (ps : List Phase) (id : HashId)
    → Reachable (l, ps)
    → sum_of (holds_object id) ps ≤ 1
one_holder l ps id r =
    let v = Reachable-IsLocked (l, ps) r in
    elim (Option-cases (Dict.lookup id l.objs)) [
      | inl missing ↦ omega (arith, none_holds l.objs id ps missing v.mapped)
      | inr (a, there_is) ↦
          ground (arith, holds_object-le l.objs id a ps there_is v.mapped, v.held a)
    ]
