-- ===== src/Base/Result.antt =====
-- Go's (value, error) pairs. The sentinels and the messages of the code are the constructors.

use mathlib.Core.Path.{◌≡◌, refl}
use mathlib.Core.Bool.{Bool, true, false}
use mathlib.Core.Logic.{◌⊎◌, inl, inr}

pub data Error : Type 0 where
  -- errors.go
  closed not_found invalid config incomplete verify_failed : Error
  -- internal/blobstore/backend.go
  chunk_not_found backend_closed chunk_corrupt : Error
  -- a failed read, write or rename of the operating system
  io_failed : Error
  -- internal/hashx
  bad_hex unknown_algo bad_register : Error
  -- internal/manifest
  bad_version empty_algo long_algo too_many_chunks zero_object_id : Error
  empty_chunk zero_chunk_id bad_offset bad_size long_chunk bad_total : Error
  truncated_manifest bad_crc bad_magic entry_mismatch unexpected_eof : Error
  -- internal/refcount, internal/index, internal/gc, internal/chunk
  underflow bad_journal_record unknown_op short_snapshot : Error
  no_record use_count_zero zero_record_id : Error
  missing_chunk assemble_gap assemble_index short_write bad_policy : Error

-- `errors.Is(err, io.ErrUnexpectedEOF)`
abbrev pub is_unexpected : Error → Bool
is_unexpected unexpected_eof = true
is_unexpected e = false

-- Error first, as the code returns early on it.
pub data Result {ℓ} (V : Type ℓ) : Type ℓ where
  err : Error → Result V
  ok : V → Result V

infixl 5 ◌>>=◌
abbrev pub ◌>>=◌ {ℓ κ} : {V : Type ℓ} {W : Type κ} (r : Result V) (k : V → Result W) → Result W
err e >>= k = err e
ok v >>= k = k v

-- A step that returns only an error, and then another.
infixl 5 ◌>>◌
abbrev pub ◌>>◌ {ℓ} : {W : Type ℓ} (r : Result (Unit {0})) (next : Result W) → Result W
err e >> next = err e
ok _ >> next = next

pub Result-cases {ℓ} :
    {V : Type ℓ} (r : Result V) → ((e : Error) × (r ≡ err e)) ⊎ ((v : V) × (r ≡ ok v))
Result-cases (err e) = inl (e, refl)
Result-cases (ok v) = inr (v, refl)
