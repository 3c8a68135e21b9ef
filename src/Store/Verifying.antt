-- ===== src/Store/Verifying.antt =====
-- verify.go: an object of the store, or all of them, against their digests.
use go_shardblob.Base.{Bytes, some, List, [], ◌∷◌, if◌then◌else◌}
use go_shardblob.Base.Result.{Result, ok, err, ◌>>=◌, ◌>>◌, not_found, verify_failed}
use go_shardblob.Hashx.{HashId}
use go_shardblob.Hashx.Registry.{Registry}
use go_shardblob.Blobstore.{Backend}
use go_shardblob.Index
use go_shardblob.Index.{Record}
use go_shardblob.Store.{Store, begin_io, load_manifest}
use go_shardblob.Store.Medium.{Media}
use go_shardblob.Verify.{Report, is_ok, object}

-- An error with a report of faults is a failed verification.
wrapped : Report × Result (Unit {0}) → Result (Unit {0})
wrapped (rep, ok _) = ok tt
wrapped (rep, err e) = if is_ok rep then err e else err verify_failed

-- In `VerifyAll` every error is one.
any_failure : Result (Unit {0}) → Result (Unit {0})
any_failure (ok _) = ok tt
any_failure (err e) = err verify_failed

module _ {B : Backend} {M : Media} (fold : Bytes → Bytes) (reg : Registry) where
  -- `Verify`
  unfoldable pub verify : Store B M → HashId → Result (Unit {0})
  unfolding begin_io load_manifest wrapped
  verify s id =
      begin_io B M s
      >> (if Index.has s.index id
          then (load_manifest B M s id >>= λ mf. wrapped (object B fold reg s.blobs (some mf)))
          else err not_found)

  -- The loop of `VerifyAll`.
  unfoldable pub verify_records : Store B M → List Record → Result (Unit {0})
  unfolding load_manifest any_failure
  verify_records s [] = ok tt
  verify_records s (r ∷ rs) =
      let rest = verify_records s rs in
      any_failure (load_manifest B M s r.id >>= λ mf. (object B fold reg s.blobs (some mf)).1)
      >> rest

  -- `VerifyAll`, in the order of iteration over the index.
  unfoldable pub verify_all : (List HashId → List HashId) → Store B M → Result (Unit {0})
  unfolding begin_io verify_records
  verify_all order s = begin_io B M s >> verify_records s (Index.list order s.index)
