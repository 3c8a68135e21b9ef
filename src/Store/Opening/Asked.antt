-- ===== src/Store/Opening/Asked.antt =====
-- What the options of a store ask for, and that `OpenMemory` gives it (options.go, store.go).
use go_shardblob.Base.{
  Bytes, ℕ, ◌≡◌, ◌⊎◌, inl, inr, refl, sym, ap, ◌∙◌, Bool, true, false, Option, none, some, List, [],
  ◌∷◌,
}
use mathlib.Core.Path.{ap₂}
use go_shardblob.Base.Result.{Result, ok, err, Error, invalid, Result-cases}
use go_shardblob.Hashx.{Algo, codes}
use go_shardblob.Hashx.Registry.{Registry, find}
use go_shardblob.Chunk.Policy.{Policy, Mode, fixed, cdc, normalize, default_policy}
use go_shardblob.Chunk.Policy.Bounds.{valid_always}
use go_shardblob.Blobstore.Memory.{new_memory}
use go_shardblob.Refcount.{new_table}
use go_shardblob.Index.{new_index}
use go_shardblob.Store.Opening.{
  Options, Setting, with_algo, with_chunk_size, with_cdc, with_auto_gc, with_memory, no_option,
  default_options, set_option, set_options, apply, Opened, open_memory,
}

-- The last option that says something of a kind.
unfoldable pub last_of {ℓ} : {A : Type ℓ} → (Setting → Option A) → List Setting → Option A
last_of says [] = none
last_of says (x ∷ xs) = elim (last_of says xs) [ none ↦ says x | some a ↦ some a ]

abbrev pub or_else {ℓ} : {A : Type ℓ} → Option A → A → A
or_else none d = d
or_else (some a) d = a

-- What an option says of the algorithm, the mode, the size of the chunks, and the collection.
abbrev pub algo_said : Setting → Option Bytes
algo_said (with_algo name) = some name
algo_said x = none

abbrev pub mode_said : Setting → Option Mode
mode_said (with_cdc true) = some cdc
mode_said (with_cdc false) = some fixed
mode_said x = none

abbrev pub size_said : Setting → Option ℕ
size_said (with_chunk_size n) = some n
size_said x = none

abbrev pub gc_said : Setting → Option Bool
gc_said (with_auto_gc on) = some on
gc_said x = none

-- The policy that the options ask for, before it is normalised.
abbrev pub policy_asked : List Setting → Policy
policy_asked xs = record {
  mode = or_else (last_of mode_said xs) fixed;
  avg = or_else (last_of size_said xs) default_policy.avg;
  min = default_policy.min;
  max = default_policy.max;
}

-- Of each kind, the last option counts.
module _ {A : Type 0} (says : Setting → Option A) (get : Options → A)
    (one : (o : Options) (x : Setting) → get (set_option o x) ≡ or_else (says x) (get o)) where
  get-set_options :
      (o : Options) (xs : List Setting) → get (set_options o xs) ≡ or_else (last_of says xs) (get o)
  unfolding set_options last_of
  get-set_options o [] = refl
  get-set_options o (x ∷ xs) =
      get-set_options (set_option o x) xs
      ∙ ap (or_else (last_of says xs)) (one o x)
      ∙ nested (last_of says xs) (says x)
    where
      nested :
          (late early : Option A)
          → or_else late (or_else early (get o))
            ≡ or_else (elim late [ none ↦ early | some a ↦ some a ]) (get o)
      nested none early = refl
      nested (some a) early = refl

algo_set :
    (o : Options) (x : Setting) → (set_option o x).algo_name ≡ or_else (algo_said x) o.algo_name
unfolding set_option
algo_set o (with_algo name) = refl
algo_set o (with_chunk_size n) = refl
algo_set o (with_cdc on) = refl
algo_set o (with_auto_gc on) = refl
algo_set o with_memory = refl
algo_set o no_option = refl

mode_set :
    (o : Options) (x : Setting) → (set_option o x).policy.mode ≡ or_else (mode_said x) o.policy.mode
unfolding set_option
mode_set o (with_algo name) = refl
mode_set o (with_chunk_size n) = refl
mode_set o (with_cdc true) = refl
mode_set o (with_cdc false) = refl
mode_set o (with_auto_gc on) = refl
mode_set o with_memory = refl
mode_set o no_option = refl

size_set :
    (o : Options) (x : Setting) → (set_option o x).policy.avg ≡ or_else (size_said x) o.policy.avg
unfolding set_option
size_set o (with_algo name) = refl
size_set o (with_chunk_size n) = refl
size_set o (with_cdc on) = refl
size_set o (with_auto_gc on) = refl
size_set o with_memory = refl
size_set o no_option = refl

gc_set : (o : Options) (x : Setting) → (set_option o x).auto_gc ≡ or_else (gc_said x) o.auto_gc
unfolding set_option
gc_set o (with_algo name) = refl
gc_set o (with_chunk_size n) = refl
gc_set o (with_cdc on) = refl
gc_set o (with_auto_gc on) = refl
gc_set o with_memory = refl
gc_set o no_option = refl

min_set : (o : Options) (x : Setting) → (set_option o x).policy.min ≡ or_else none o.policy.min
unfolding set_option
min_set o (with_algo name) = refl
min_set o (with_chunk_size n) = refl
min_set o (with_cdc on) = refl
min_set o (with_auto_gc on) = refl
min_set o with_memory = refl
min_set o no_option = refl

max_set : (o : Options) (x : Setting) → (set_option o x).policy.max ≡ or_else none o.policy.max
unfolding set_option
max_set o (with_algo name) = refl
max_set o (with_chunk_size n) = refl
max_set o (with_cdc on) = refl
max_set o (with_auto_gc on) = refl
max_set o with_memory = refl
max_set o no_option = refl

nothing_said : (xs : List Setting) → last_of {A = ℕ} (λ x. none) xs ≡ none
unfolding last_of
nothing_said [] = refl
nothing_said (x ∷ xs) = rw (nothing_said xs) refl

policy_set :
    (xs : List Setting) → (set_options default_options (with_memory ∷ xs)).policy ≡ policy_asked xs
unfolding set_options set_option default_options default_policy normalize
policy_set xs =
    let o = set_option default_options with_memory in
    let a = get-set_options mode_said (λ x. x.policy.mode) mode_set o xs in
    let b = get-set_options size_said (λ x. x.policy.avg) size_set o xs in
    let c =
      get-set_options (λ x. none) (λ x. x.policy.min) min_set o xs
      ∙ ap (λ v. or_else v o.policy.min) (nothing_said xs) in
    let d =
      get-set_options (λ x. none) (λ x. x.policy.max) max_set o xs
      ∙ ap (λ v. or_else v o.policy.max) (nothing_said xs) in
    cc (a, b, c, d)

algo_name_set :
    (xs : List Setting)
    → (set_options default_options (with_memory ∷ xs)).algo_name
      ≡ or_else (last_of algo_said xs) (codes "sha256")
unfolding set_options set_option default_options
algo_name_set xs =
    get-set_options algo_said (λ x. x.algo_name) algo_set (set_option default_options with_memory)
      xs

auto_gc_set :
    (xs : List Setting)
    → (set_options default_options (with_memory ∷ xs)).auto_gc ≡ or_else (last_of gc_said xs) false
unfolding set_options set_option default_options
auto_gc_set xs =
    get-set_options gc_said (λ x. x.auto_gc) gc_set (set_option default_options with_memory) xs

-- A new store in memory, and what it works with.
abbrev opened_with : Algo → Policy → Bool → Result Opened
opened_with a p collects = ok (
  record { algo = a; policy = normalize p; auto_gc = collects },
  record { blobs = new_memory; refs = new_table; index = new_index; world = []; is_closed = false },
)

-- Of the options that name an algorithm, a mode, a size of the chunks, or whether to collect after each
-- `Delete`, the last of each kind counts; without one it is SHA-256, blocks of one size, the size of the
-- default policy, and no collection. `OpenMemory` fails exactly if that algorithm is not registered, with
-- an error of its own. Otherwise it gives an open store with no chunk, no count and no object, which
-- works with that algorithm and collects as asked, with a policy that is normalised from that mode, that
-- size, and the least and greatest sizes of the default policy.
pub open_memory_lem :
    (fold : Bytes → Bytes) (reg : Registry) (xs : List Setting)
    → let name = or_else (last_of algo_said xs) (codes "sha256") in
      ((e : Error) × (find fold reg name ≡ err e) × (open_memory fold reg xs ≡ err invalid))
      ⊎ ((a : Algo) × (find fold reg name ≡ ok a)
          × (open_memory fold reg xs
              ≡ ok (
                record {
                  algo = a;
                  policy = normalize (policy_asked xs);
                  auto_gc = or_else (last_of gc_said xs) false;
                },
                record {
                  blobs = new_memory;
                  refs = new_table;
                  index = new_index;
                  world = [];
                  is_closed = false;
                },
              )))
unfolding open_memory apply
open_memory_lem fold reg xs =
    let o = set_options default_options (with_memory ∷ xs) in
    let named = algo_name_set xs in
    let fine = valid_always (normalize o.policy) in
    elim (Result-cases (find fold reg o.algo_name)) [
      | inl (e, unknown) ↦
          inl (e, ap (find fold reg) (sym named) ∙ unknown, rw (fine, unknown) refl)
      | inr (a, known) ↦ inr (
        a,
        ap (find fold reg) (sym named) ∙ known,
        rw (fine, known)
            (rw known (
              ap₂ (λ (p : Policy) (g : Bool). opened_with a p g) (policy_set xs) (auto_gc_set xs))),
      )
    ]
