-- ===== src/Index/Uses.antt =====
-- What the operations of the index do to the records of all objects.
use go_shardblob.Base.{
  ℕ, ◌+◌, ◌-◌, ◌%◌, ◌^◌, ◌<◌, ◌≡◌, arith, none, some, ◌==◌, ◌=?◌, if◌then◌else◌,
}
use go_shardblob.Base.Dict
use go_shardblob.Base.Dict.{Dict, lookup-insert, lookup-erase}
use go_shardblob.Hashx.{HashId}
use go_shardblob.Index.{Record, Index, get, put, stamp, delete, inc_use, dec_use}

-- What is put is there under its own identifier, with a creation time, and no other record changes.
pub get-put :
    (x : Index) (now : ℕ) (r : Record) (j : HashId)
    → get (put x now r) j ≡ (
        if r.id =? j
        then some (record r {
          created_at = if r.created_at == 0 then stamp (get x r.id) now else r.created_at;
        })
        else get x j)
unfolding get put
get-put x now r j = lookup-insert r.id j _ x.objects

pub get-delete :
    (x : Index) (id j : HashId) → get (delete x id) j ≡ (if id =? j then none else get x j)
unfolding get delete
get-delete x id j = lookup-erase id j x.objects

-- A use that is added to a record in use, and then released, leaves every record as it was, while
-- the counter stays below 2^32.
pub dec_use-inc_use :
    (x : Index) (id j : HashId) (r : Record)
    → get x id ≡ some r
    → 0 < r.use_count
    → r.use_count + 1 < 2 ^ 32
    → get (dec_use (inc_use x id).1 id).1 j ≡ get x j
unfolding get inc_use dec_use
dec_use-inc_use x id j r stored pos fits =
    let r' : Record = record r { use_count = (r.use_count + 1) % 2 ^ 32 } in
    let x' = Dict.insert id r' x.objects in
    ground (
      arith,
      stored,
      lookup-insert id id r' x.objects,
      lookup-insert id j r' x.objects,
      lookup-insert id j (record r' { use_count = r'.use_count - 1 }) x',
      lookup-erase id j x',
    )
