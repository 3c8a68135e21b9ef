-- ===== src/Blobstore/Disk/Refines.antt =====
-- The backend on disk does what the backend in memory does, while no call of the operating system
-- fails (disk.go, memory.go).
use go_shardblob.Base.{
  Bytes, ℕ, ◌+◌, ◌-◌, ◌≡◌, refl, sym, ap, ◌∙◌, Bool, true, false, none, List, [], ◌∷◌, length, All,
  Option-cases, inl, inr,
}
use mathlib.Core.Path.{ap₂}
use go_shardblob.Base.Dict
use go_shardblob.Base.Dict.{
  Dict, NodupKeys, total, lookup-insert, lookup-erase, lookup-nil, present,
}
use go_shardblob.Base.Result.{Result}
use go_shardblob.Hashx.{HashId}
use go_shardblob.Layout.{Beside, exists, chunk_path}
use go_shardblob.Blobstore.Memory
use go_shardblob.Blobstore.Memory.{Memory, new_memory}
use go_shardblob.Blobstore.Disk.{Disk, put, get, has, delete, bytes, count, close}
use go_shardblob.Blobstore.Disk.Calls.{
  beside_write, beside_erase, disk_of, memory_of, IsMirror, Mirrors, put_new, put_old, delete_new,
  delete_old, IsMirror-insert, IsMirror-erase,
}

-- What both are asked.
pub data Call : Type 0 where
  put_call : HashId → Bytes → Call
  get_call : HashId → Call
  has_call : HashId → Call
  delete_call : HashId → Call
  close_call : Call

pub data Answer : Type 0 where
  done : Result (Unit {0}) → Answer
  content : Result Bytes → Answer
  stored : Result Bool → Answer

abbrev pub IsCall : Call → Type 0
IsCall (put_call id p) = length id ≡ 32
IsCall (get_call id) = length id ≡ 32
IsCall (has_call id) = length id ≡ 32
IsCall (delete_call id) = length id ≡ 32
IsCall close_call = Unit

unfoldable pub ask_disk : Bytes → Disk → Call → Answer × Disk
ask_disk root d (put_call id p) = let (r, d') = put root d id p in (done r, d')
ask_disk root d (get_call id) = let (r, d') = get root d id in (content r, d')
ask_disk root d (has_call id) = let (r, d') = has root d id in (stored r, d')
ask_disk root d (delete_call id) = let (r, d') = delete root d id in (done r, d')
ask_disk root d close_call = let (r, d') = close d in (done r, d')

unfoldable pub ask_memory : Memory → Call → Answer × Memory
ask_memory m (put_call id p) = let (r, m') = Memory.put m id p in (done r, m')
ask_memory m (get_call id) = (content (Memory.get m id), m)
ask_memory m (has_call id) = (stored (Memory.has m id), m)
ask_memory m (delete_call id) = let (r, m') = Memory.delete m id in (done r, m')
ask_memory m close_call = let (r, m') = Memory.close m in (done r, m')

-- The answers to some calls, each with the bytes and the number of chunks after it.
unfoldable pub trace_disk : Bytes → Disk → List Call → List (Answer × ℕ × ℕ)
trace_disk root d [] = []
trace_disk root d (c ∷ cs) =
    let (a, d') = ask_disk root d c in (a, bytes d', count d') ∷ trace_disk root d' cs

unfoldable pub trace_memory : Memory → List Call → List (Answer × ℕ × ℕ)
trace_memory m [] = []
trace_memory m (c ∷ cs) =
    let (a, m') = ask_memory m c in (a, Memory.bytes m', Memory.count m') ∷ trace_memory m' cs

mirrored :
    (root : Bytes) (files blobs : Dict Bytes) (t : Beside) (nb nf : ℕ) (closed : Bool)
    → IsMirror root files nf blobs
    → Mirrors root (disk_of files t nb nf closed) (memory_of blobs nb closed)
mirrored root files blobs t nb nf closed v = record {
  files = files;
  beside = t;
  nfile = nf;
  shape = refl;
  mirror = v;
}

-- One call gets the same answer from both, and keeps the mirror.
module _ (root : Bytes) (files blobs : Dict Bytes) (t : Beside) (nb nf : ℕ)
    (v : IsMirror root files nf blobs) where
  AskedAlike : Bool → Call → Type 0
  AskedAlike closed c =
      let (a, d) = ask_disk root (disk_of files t nb nf closed) c in
      let (a', m) = ask_memory (memory_of blobs nb closed) c in (a ≡ a') × Mirrors root d m

  ask_open-AskedAlike : (c : Call) → IsCall c → AskedAlike false c
  unfolding AskedAlike ask_disk ask_memory Memory.put Memory.get Memory.has Memory.delete get has
      exists close Memory.close
  ask_open-AskedAlike (put_call id p) wide = elim (Option-cases (Dict.lookup id blobs)) [
    | inl missing ↦
        rw (missing, put_new root files t nb nf id p (v.same id wide ∙ missing))
          (
            refl,
            mirrored root _ _ (beside_write (chunk_path root id) p t) (nb + length p) (nf + 1) false
                (IsMirror-insert root files nf blobs v id wide p missing),
          )
    | inr (old, there_is) ↦
        rw (there_is, put_old root files t nb nf id p old (v.same id wide ∙ there_is))
          (refl, mirrored root files blobs t nb nf false v)
  ]
  ask_open-AskedAlike (get_call id) wide = elim (Option-cases (Dict.lookup id blobs)) [
    | inl missing ↦
        rw (missing, v.same id wide ∙ missing) (refl, mirrored root files blobs t nb nf false v)
    | inr (old, there_is) ↦
        rw (there_is, v.same id wide ∙ there_is) (refl, mirrored root files blobs t nb nf false v)
  ]
  ask_open-AskedAlike (has_call id) wide = elim (Option-cases (Dict.lookup id blobs)) [
    | inl missing ↦
        rw (missing, v.same id wide ∙ missing) (refl, mirrored root files blobs t nb nf false v)
    | inr (old, there_is) ↦
        rw (there_is, v.same id wide ∙ there_is) (refl, mirrored root files blobs t nb nf false v)
  ]
  ask_open-AskedAlike (delete_call id) wide = elim (Option-cases (Dict.lookup id blobs)) [
    | inl missing ↦
        rw (missing, delete_new root files t nb nf id (v.same id wide ∙ missing))
          (refl, mirrored root files blobs t nb nf false v)
    | inr (old, there_is) ↦
        rw (there_is, delete_old root files t nb nf id old (v.same id wide ∙ there_is))
          (
            refl,
            mirrored root _ _ (beside_erase (chunk_path root id) t) (nb - length old) (nf - 1) false
                (IsMirror-erase root files nf blobs v id wide old there_is),
          )
  ]
  ask_open-AskedAlike close_call wide = (refl, mirrored root files blobs t nb nf true v)

  ask_closed-AskedAlike : (c : Call) → AskedAlike true c
  unfolding AskedAlike ask_disk ask_memory put delete Memory.put Memory.get Memory.has Memory.delete
      get has close Memory.close
  ask_closed-AskedAlike (put_call id p) = (refl, mirrored root files blobs t nb nf true v)
  ask_closed-AskedAlike (get_call id) = (refl, mirrored root files blobs t nb nf true v)
  ask_closed-AskedAlike (has_call id) = (refl, mirrored root files blobs t nb nf true v)
  ask_closed-AskedAlike (delete_call id) = (refl, mirrored root files blobs t nb nf true v)
  ask_closed-AskedAlike close_call = (refl, mirrored root files blobs t nb nf true v)

ask-AskedAlike :
    (root : Bytes) (files blobs : Dict Bytes) (t : Beside) (nb nf : ℕ) (closed : Bool) (c : Call)
    → IsMirror root files nf blobs
    → IsCall c
    → let (a, d) = ask_disk root (disk_of files t nb nf closed) c in
      let (a', m) = ask_memory (memory_of blobs nb closed) c in (a ≡ a') × Mirrors root d m
unfolding AskedAlike
ask-AskedAlike root files blobs t nb nf true c v h =
    ask_closed-AskedAlike root files blobs t nb nf v c
ask-AskedAlike root files blobs t nb nf false c v h =
    ask_open-AskedAlike root files blobs t nb nf v c h

counts_alike :
    (root : Bytes) (d : Disk) (m : Memory)
    → Mirrors root d m
    → (bytes d ≡ Memory.bytes m) × (count d ≡ Memory.count m)
unfolding bytes count Memory.bytes Memory.count
counts_alike root d m v =
    (ap (λ (x : Disk). x.nbytes) v.shape, ap (λ (x : Disk). x.nfile) v.shape ∙ v.mirror.counted)

trace-Mirrors :
    (root : Bytes) (cs : List Call) (d : Disk) (m : Memory)
    → Mirrors root d m
    → All IsCall cs
    → trace_disk root d cs ≡ trace_memory m cs
unfolding trace_disk trace_memory
trace-Mirrors root [] d m v h = refl
trace-Mirrors root (c ∷ cs) d m v (h, hs) =
    let start = disk_of v.files v.beside m.nbytes v.nfile m.is_closed in
    let (same_answer, v') =
      ask-AskedAlike root v.files m.blobs v.beside m.nbytes v.nfile m.is_closed c v.mirror h in
    let d' = (ask_disk root start c).1 in
    let m' = (ask_memory m c).1 in
    let (b, n) = counts_alike root d' m' v' in
    ap (λ x. trace_disk root x (c ∷ cs)) v.shape
    ∙ ap₂ (λ (o : Answer × ℕ × ℕ) (os : List (Answer × ℕ × ℕ)). o ∷ os) (cc (same_answer, b, n))
        (trace-Mirrors root cs d' m' v' hs)

-- From a directory without chunks, and while no call of the operating system fails, the backend on
-- disk answers every sequence of `Put`, `Get`, `Has`, `Delete` and `Close`, on identifiers of 32
-- bytes, as an empty backend in memory does, with the same `Bytes` and `Count` after each call.
pub disk_refines_memory :
    (root : Bytes) (files : Dict Bytes) (beside : Beside) (cs : List Call)
    → ((id : HashId) → length id ≡ 32 → Dict.lookup (chunk_path root id) files ≡ none)
    → All IsCall cs
    → trace_disk root (disk_of files beside 0 0 false) cs ≡ trace_memory new_memory cs
disk_refines_memory root files beside cs empty h =
    trace-Mirrors root cs (disk_of files beside 0 0 false) new_memory
      (mirrored root files [] beside 0 0 false
        (record { same = λ id w. empty id w ∙ sym (lookup-nil id); counted = refl; nodup = tt }))
      h
