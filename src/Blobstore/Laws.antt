-- ===== src/Blobstore/Laws.antt =====
-- The backend in memory is lawful, and its counters are exact.
use go_shardblob.Base.{
  Bytes, ◌≡◌, refl, ◌∙◌, arith, false, Option, none, List, length, IsOrder, ◌=?◌, if◌then◌else◌,
}
use go_shardblob.Base.Dict
use go_shardblob.Base.Dict.{Dict, NodupKeys, total, lookup-insert, lookup-erase}
use go_shardblob.Base.Result.{ok}
use go_shardblob.Hashx.{HashId}
use go_shardblob.Blobstore.{Backend, IsLawful, found, keep}
use go_shardblob.Blobstore.Memory
use go_shardblob.Blobstore.Memory.{Memory, new_memory}

abbrev pub memory_backend : (List HashId → List HashId) → Backend
memory_backend order = record {
  State = Memory;
  put = Memory.put;
  get = Memory.get;
  has = Memory.has;
  delete = Memory.delete;
  list = Memory.list order;
  bytes = Memory.bytes;
  count = Memory.count;
  close = Memory.close;
}

-- Open, with one entry for each identifier, and a byte counter that is the sum of the sizes.
pub record IsValid (m : Memory) : Type 0 where
  pub open_ : m.is_closed ≡ false
  pub nodup : NodupKeys m.blobs
  pub counted : m.nbytes ≡ total length m.blobs

abbrev pub memory_contents : Memory → HashId → Option Bytes
memory_contents m id = Dict.lookup id m.blobs

pub IsValid-new : IsValid new_memory
unfolding total
IsValid-new = record { open_ = refl; nodup = tt; counted = refl }

-- `Put` keeps a valid state valid: the backend open, one entry for each identifier, and the byte
-- counter the sum of the sizes.
pub put-IsValid : (m : Memory) (id : HashId) (p : Bytes) → IsValid m → IsValid (Memory.put m id p).1
unfolding Memory.put
put-IsValid m id p v = ground (
  arith,
  Dict.insert-NodupKeys id p m.blobs v.nodup,
  Dict.total-insert length id p m.blobs v.nodup,
)

-- `Delete` keeps a valid state valid, whether the identifier is stored or not.
pub delete-IsValid : (m : Memory) (id : HashId) → IsValid m → IsValid (Memory.delete m id).1
unfolding Memory.delete
delete-IsValid m id v =
    ground
      (arith, Dict.erase-NodupKeys id m.blobs v.nodup, Dict.total-erase length id m.blobs v.nodup)

-- The operations on what is stored, in a valid state.
pub get-contents :
    (m : Memory) (id : HashId) → IsValid m → Memory.get m id ≡ found (memory_contents m id)
unfolding Memory.get
get-contents m id v = ground (arith, v.open_)

pub has-contents :
    (m : Memory) (id : HashId)
    → IsValid m
    → Memory.has m id ≡ ok (Dict.present (memory_contents m id))
unfolding Memory.has
has-contents m id v = ground (arith, v.open_)

pub put_ok : (m : Memory) (id : HashId) (p : Bytes) → IsValid m → (Memory.put m id p).0 ≡ ok tt
unfolding Memory.put
put_ok m id p v = ground (arith, v.open_)

pub delete_ok : (m : Memory) (id : HashId) → IsValid m → (Memory.delete m id).0 ≡ ok tt
unfolding Memory.delete
delete_ok m id v = ground (arith, v.open_)

-- A chunk that is put is there, unless its identifier already had bytes, which then stay; no other
-- chunk changes.
pub memory_contents-put :
    (m : Memory) (id : HashId) (p : Bytes) (j : HashId)
    → IsValid m
    → memory_contents (Memory.put m id p).1 j
      ≡ (if id =? j then keep (memory_contents m j) p else memory_contents m j)
unfolding Memory.put
memory_contents-put m id p j v = ground (arith, v.open_, lookup-insert id j p m.blobs)

-- A chunk that is deleted is gone, and no other chunk changes.
pub memory_contents-delete :
    (m : Memory) (id j : HashId)
    → IsValid m
    → memory_contents (Memory.delete m id).1 j ≡ (if id =? j then none else memory_contents m j)
unfolding Memory.delete
memory_contents-delete m id j v = ground (arith, v.open_, lookup-erase id j m.blobs)

pub list_lem :
    (order : List HashId → List HashId) (m : Memory)
    → IsValid m
    → Memory.list order m ≡ ok (order (Dict.keys m.blobs))
unfolding Memory.list
list_lem order m v = ground (arith, v.open_)

module _ (order : List HashId → List HashId) (fair : IsOrder order) where
  unfoldable pub memory_laws : IsLawful (memory_backend order)
  memory_laws = record {
    Ready = IsValid;
    contents = memory_contents;
    get_lem = get-contents;
    has_lem = has-contents;
    put_ok = put_ok;
    put-Ready = put-IsValid;
    contents-put = memory_contents-put;
    delete_ok = delete_ok;
    delete-Ready = delete-IsValid;
    contents-delete = memory_contents-delete;
    listing = λ m. order (Dict.keys m.blobs);
    list_lem = list_lem order;
    listing_complete =
        λ m id v. fair.contains-order (Dict.keys m.blobs) id ∙ Dict.contains-keys m.blobs id;
    listing-NoRepeat = λ m v. fair.order-NoRepeat _ (Dict.keys-NoRepeat m.blobs v.nodup);
  }
