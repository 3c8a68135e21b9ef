-- ===== src/Layout/Settings.antt =====
-- internal/layout/config.go: what a store was made with, and what it is opened with. The JSON text is
-- the work of encoding/json.
use go_shardblob.Base.{
  Bytes, ℕ, ◌≡◌, ◌↔◌, refl, ap, arith, Bool, true, false, not, ◌==◌, ◌=?◌, if◌then◌else◌,
}
use go_shardblob.Base.Result.{Result, ok, err, config}
use go_shardblob.Chunk.Policy.{Policy, fixed, cdc, normalize}

-- `Config`
pub record Settings : Type 0 where
  pub algo : Bytes
  pub chunk_size : ℕ
  pub with_cdc : Bool

-- `Config.Policy`
unfoldable pub policy : Settings → Policy
policy c =
    normalize
      (record { mode = if c.with_cdc then cdc else fixed; avg = c.chunk_size; min = 0; max = 0 })

abbrev pub same_bool : Bool → Bool → Bool
same_bool true b = b
same_bool false b = not b

-- `Compatible`
unfoldable pub compatible : Settings → Settings → Result (Unit {0})
compatible have want =
    if not (have.algo =? want.algo)
    then err config
    else if not (have.chunk_size == want.chunk_size)
    then err config
    else if not (same_bool have.with_cdc want.with_cdc)
    then err config
    else ok tt

same_bool_iff : (a b : Bool) → (same_bool a b ≡ true) ↔ (a ≡ b)
same_bool_iff true true = (λ h. refl, λ h. refl)
same_bool_iff true false = (λ h. cc, λ h. cc)
same_bool_iff false true = (λ h. cc, λ h. cc)
same_bool_iff false false = (λ h. refl, λ h. refl)

-- A store is opened with exactly the settings that it was made with.
pub compatible_iff : (have want : Settings) → (compatible have want ≡ ok tt) ↔ (have ≡ want)
unfolding compatible
compatible_iff have want =
    let (to, from) = same_bool_iff have.with_cdc want.with_cdc in
    (
      λ h.
          let a : have.algo ≡ want.algo = ground arith in
          let n : have.chunk_size ≡ want.chunk_size = ground arith in
          let b : have.with_cdc ≡ want.with_cdc = to (ground arith) in cc,
      λ e.
          let a : have.algo ≡ want.algo = ap (λ (c : Settings). c.algo) e in
          let n : have.chunk_size ≡ want.chunk_size = ap (λ (c : Settings). c.chunk_size) e in
          let b = from (ap (λ (c : Settings). c.with_cdc) e) in ground arith,
    )
