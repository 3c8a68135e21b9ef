-- ===== src/Blobstore.antt =====
-- internal/blobstore: `Backend` (backend.go), the interface between the store and its chunks, what
-- its clients rely on, and the functions over any backend (backend.go, check.go).
pub mod Memory
pub mod Laws
pub mod Disk
use go_shardblob.Base.{
  Bytes, ℕ, ◌≡◌, Bool, true, false, Option, none, some, List, [], ◌∷◌, ◌=?◌, contains, NoRepeat,
  if◌then◌else◌,
}
use go_shardblob.Base.Dict.{present}
use go_shardblob.Base.Result.{Result, ok, err, ◌>>=◌, ◌>>◌, chunk_not_found, chunk_corrupt}
use go_shardblob.Hashx.{HashId, Algo, chunk_id}

-- The methods of `Backend`, over the backend's own state. `list` is the sequence of identifiers
-- that `List` hands to its callback, which may delete them as it goes.
pub record Backend : Type 1 where
  pub State : Type 0
  pub put : State → HashId → Bytes → Result (Unit {0}) × State
  pub get : State → HashId → Result Bytes
  pub has : State → HashId → Result Bool
  pub delete : State → HashId → Result (Unit {0}) × State
  pub list : State → Result (List HashId)
  pub bytes : State → ℕ
  pub count : State → ℕ
  pub close : State → Result (Unit {0}) × State

-- What `Get` answers for what is stored.
abbrev pub found : Option Bytes → Result Bytes
found none = err chunk_not_found
found (some d) = ok d

-- What stays stored when `d` is put: the old bytes, if there are any.
abbrev pub keep : Option Bytes → Bytes → Option Bytes
keep none d = some d
keep (some old) d = some old

-- What the clients rely on, in a state that is `Ready` (open, and with no failing disk): the
-- chunks form a map from identifiers to bytes, a chunk is never overwritten, and the listing has
-- every stored identifier.
pub record IsLawful (B : Backend) : Type 1 where
  pub Ready : B.State → Type 0
  pub contents : B.State → HashId → Option Bytes
  pub get_lem : (s : B.State) (id : HashId) → Ready s → B.get s id ≡ found (contents s id)
  pub has_lem : (s : B.State) (id : HashId) → Ready s → B.has s id ≡ ok (present (contents s id))
  pub put_ok : (s : B.State) (id : HashId) (d : Bytes) → Ready s → (B.put s id d).0 ≡ ok tt
  pub put-Ready : (s : B.State) (id : HashId) (d : Bytes) → Ready s → Ready (B.put s id d).1
  pub contents-put :
      (s : B.State) (id : HashId) (d : Bytes) (j : HashId)
      → Ready s
      → contents (B.put s id d).1 j ≡ (if id =? j then keep (contents s j) d else contents s j)
  pub delete_ok : (s : B.State) (id : HashId) → Ready s → (B.delete s id).0 ≡ ok tt
  pub delete-Ready : (s : B.State) (id : HashId) → Ready s → Ready (B.delete s id).1
  pub contents-delete :
      (s : B.State) (id j : HashId)
      → Ready s
      → contents (B.delete s id).1 j ≡ (if id =? j then none else contents s j)
  pub listing : B.State → List HashId
  pub list_lem : (s : B.State) → Ready s → B.list s ≡ ok (listing s)
  pub listing_complete :
      (s : B.State) (id : HashId) → Ready s → contains (listing s) id ≡ present (contents s id)
  pub listing-NoRepeat : (s : B.State) → Ready s → NoRepeat (listing s)

module _ (B : Backend) where
  -- `Copy`: chunks that `dst` lacks are read from `src`.
  unfoldable pub copy : B.State → B.State → List HashId → Result (Unit {0}) × B.State
  copy dst src [] = (ok tt, dst)
  copy dst src (id ∷ ids) = elim (B.has dst id) [
    | err e ↦ (err e, dst)
    | ok true ↦ copy dst src ids
    | ok false ↦ elim (B.get src id) [
      | err e ↦ (err e, dst)
      | ok p ↦
          let (r, dst') = B.put dst id p in
          elim r [ err e ↦ (err e, dst') | ok _ ↦ copy dst' src ids ]
    ]
  ]

  -- `PutChecked`
  unfoldable pub put_checked : Algo → B.State → Bytes → Result HashId × B.State
  put_checked a s p =
      let id = chunk_id a p in
      let (r, s') = B.put s id p in
      (r >> (B.get s' id >>= λ got. if chunk_id a got =? id then ok id else err chunk_corrupt), s')

  -- `VerifyID`
  unfoldable pub verify_id : Algo → B.State → HashId → Result (Unit {0})
  verify_id a s id = B.get s id >>= λ p. if chunk_id a p =? id then ok tt else err chunk_corrupt

  -- `VerifyAll`: `List` with `VerifyID` as the callback, which stops at the first error.
  unfoldable pub verify_each : Algo → B.State → List HashId → Result (Unit {0})
  verify_each a s [] = ok tt
  verify_each a s (id ∷ ids) = let rest = verify_each a s ids in verify_id a s id >> rest

  unfoldable pub verify_all : Algo → B.State → Result (Unit {0})
  unfolding verify_each verify_id
  verify_all a s = B.list s >>= verify_each a s
