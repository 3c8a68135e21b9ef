-- ===== src/Store/Opening.antt =====
-- options.go, OpenMemory (store.go) and PutBytes (put.go): the options of a store, and a store in
-- memory.
pub mod Asked
use go_shardblob.Base.{
  Bytes, ℕ, ◌≡◌, ◌⊎◌, inl, inr, refl, Bool, true, false, Option, none, some, List, [], ◌∷◌,
  if◌then◌else◌,
}
use go_shardblob.Base.Result.{Result, ok, err, Error, ◌>>=◌, ◌>>◌, invalid, Result-cases}
use go_shardblob.Hashx.{HashId, Algo, codes}
use go_shardblob.Hashx.Registry.{Registry, find}
use go_shardblob.Chunk.Policy.{Policy, fixed, cdc, normalize, valid, default_policy}
use go_shardblob.Blobstore.Memory.{new_memory}
use go_shardblob.Blobstore.Laws.{memory_backend}
use go_shardblob.Refcount.{new_table}
use go_shardblob.Index.{new_index}
use go_shardblob.Store.{Store, Config, put}
use go_shardblob.Store.Medium.{Media, memory_media}
use go_shardblob.Blobstore.{Backend}

-- `options`
pub record Options : Type 0 where
  pub algo_name : Bytes
  pub policy : Policy
  pub auto_gc : Bool
  pub in_memory : Bool

-- `Option`, by the functions that make one; `no_option` is a nil one.
pub data Setting : Type 0 where
  with_algo : Bytes → Setting
  with_chunk_size : ℕ → Setting
  with_cdc : Bool → Setting
  with_auto_gc : Bool → Setting
  with_memory : Setting
  no_option : Setting

-- `defaultOptions`
unfoldable pub default_options : Options
default_options = record {
  algo_name = codes "sha256";
  policy = default_policy;
  auto_gc = false;
  in_memory = false;
}

-- One option; the policy keeps the sizes that it does not set.
unfoldable pub set_option : Options → Setting → Options
set_option o (with_algo name) = record o { algo_name = name }
set_option o (with_chunk_size n) = record o { policy = record o.policy { avg = n } }
set_option o (with_cdc on) = record o {
  policy = record o.policy { mode = if on then cdc else fixed };
}
set_option o (with_auto_gc on) = record o { auto_gc = on }
set_option o with_memory = record o { in_memory = true }
set_option o no_option = o

-- The loop of `apply`.
unfoldable pub set_options : Options → List Setting → Options
unfolding set_option
set_options o [] = o
set_options o (x ∷ xs) = set_options (set_option o x) xs

abbrev or_invalid : Result Algo → Result (Unit {0})
or_invalid (err e) = err invalid
or_invalid (ok a) = ok tt

-- A `Store` and the parts of its options that its operations read.
abbrev pub Opened : Type 0
Opened = Config × Store (memory_backend (λ ks. ks)) memory_media

module _ (fold : Bytes → Bytes) (reg : Registry) where
  -- `apply`
  unfoldable pub apply : Options → List Setting → Result Options
  unfolding set_options
  apply o xs =
      let given = set_options o xs in
      let o' : Options = record given { policy = normalize given.policy } in
      valid o'.policy >> (or_invalid (find fold reg o'.algo_name) >> ok o')

  -- `OpenMemory`; the maps are iterated in the order of insertion.
  unfoldable pub open_memory : List Setting → Result Opened
  unfolding apply
  open_memory xs = do
    o ← apply default_options (with_memory ∷ xs)
    a ← find fold reg o.algo_name
    ok (
      record { algo = a; policy = o.policy; auto_gc = o.auto_gc },
      record {
        blobs = new_memory;
        refs = new_table;
        index = new_index;
        world = [];
        is_closed = false;
      },
    )

-- `PutBytes`, over `bytes.NewReader`, which delivers all bytes at once.
unfoldable pub put_bytes :
    (B : Backend) (M : Media) → Config → ℕ → Store B M → Bytes → Option (Result HashId × Store B M)
put_bytes B M c now s p =
    put B M c now s (some (record { bursts = p ∷ []; ending = none; together = false }))
