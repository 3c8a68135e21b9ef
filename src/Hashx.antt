-- ===== src/Hashx.antt =====
-- internal/hashx: 32-byte identifiers (id.go), the digests behind them (algo.go, sha.go, tagged.go)
-- and the streaming sink (digest.go).
-- crypto/sha256 and crypto/sha512 stand behind `Algo.digest`, a parameter: any function of the
-- bytes written so far. What it returns is copied into 32 bytes, as the code copies it.
pub mod Tags
pub mod Ids
pub mod Registry
use Prim.Native.Char.{code}
use Prim.Native.String.{String}
use go_shardblob.Base.{
  Option, none, some, Bytes, ℕ, ◌+◌, ◌%◌, ◌^◌, Bool, List, [], ◌∷◌, ◌++◌, take, replicate, length,
  ◌=?◌, ◌==◌, if◌then◌else◌,
}
use go_shardblob.Base.Result.{Result, ok, err, bad_hex}

-- `ID`, an array of 32 bytes
abbrev pub HashId : Type 0
HashId = Bytes

abbrev pub id_size : ℕ
id_size = 32

-- `Zero`
unfoldable pub zero_id : HashId
zero_id = replicate id_size 0

-- `var id ID; copy(id[:], b)`
unfoldable pub copy_id : Bytes → HashId
copy_id b = take id_size (b ++ replicate id_size 0)

-- `IsZero`
unfoldable pub is_zero : HashId → Bool
is_zero id = id =? zero_id

-- `Algo`: its name, and the digest of all that was written since `New`.
pub record Algo : Type 0 where
  pub name : Bytes
  pub digest : Bytes → Bytes

-- `hash.Hash` as the library documents it: `Write` appends, `Sum(nil)` is the digest of everything
-- written, and does not change the state.
pub record Hash : Type 0 where
  pub algo : Algo
  pub written : Bytes

-- `a.New()`
unfoldable pub new_hash : Algo → Hash
new_hash a = record { algo = a; written = [] }

unfoldable pub write : Hash → Bytes → Hash
write h p = record h { written = h.written ++ p }

unfoldable pub sum : Hash → Bytes
sum h = h.algo.digest h.written

-- The code points of an ASCII text are its bytes.
abbrev pub codes : String → Bytes
codes String.[] = []
codes (String.◌∷◌ c s) = code c ∷ codes s

unfoldable pub tag_chunk : Bytes
tag_chunk = codes "shardblob/chunk" ++ 0 ∷ []

unfoldable pub tag_object : Bytes
tag_object = codes "shardblob/object" ++ 0 ∷ []

unfoldable pub tag_manif : Bytes
tag_manif = codes "shardblob/manifest" ++ 0 ∷ []

-- `NewTagged` of an algorithm: a hasher that has read the tag.
unfoldable pub new_tagged : Algo → Bytes → Hash
unfolding new_hash write
new_tagged a tag = write (new_hash a) tag

-- `NewTagged`: `Default` stands in for a nil algorithm. The functions below take one that is not nil,
-- as their callers have it from `Lookup`.
unfoldable pub new_tagged_or : Algo → Option Algo → Bytes → Hash
unfolding new_tagged
new_tagged_or default none tag = new_tagged default tag
new_tagged_or default (some a) tag = new_tagged a tag

-- `Tagged.ID` and `Sink.ID`
unfoldable pub tagged_id : Hash → HashId
unfolding copy_id sum
tagged_id h = copy_id (sum h)

-- `SumTagged`
unfoldable pub sum_tagged : Algo → Bytes → Bytes → HashId
unfolding new_tagged write tagged_id
sum_tagged a tag p = tagged_id (write (new_tagged a tag) p)

unfoldable pub chunk_id : Algo → Bytes → HashId
unfolding sum_tagged
chunk_id a p = sum_tagged a tag_chunk p

unfoldable pub object_id : Algo → Bytes → HashId
unfolding sum_tagged
object_id a p = sum_tagged a tag_object p

unfoldable pub manifest_id : Algo → Bytes → HashId
unfolding sum_tagged
manifest_id a p = sum_tagged a tag_manif p

-- `FromSlice`
unfoldable pub from_slice : Bytes → Result HashId
unfolding copy_id
from_slice b = if length b == id_size then ok (copy_id b) else err bad_hex
