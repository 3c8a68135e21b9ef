-- ===== src/Tests/Chunks.antt =====
-- internal/chunk: policies, readers and splitting.
use go_shardblob.Base.{
  ◌-◌, ◌^◌, ◌≡◌, refl, arith, true, false, none, some, List, [], ◌∷◌, ◌==◌, if◌then◌else◌,
}
use go_shardblob.Base.Result.{io_failed}
use go_shardblob.Chunk.Policy.{
  Policy, fixed, cdc, normalize, normal_avg, normal_min, normal_max, nearest_power, bit_len,
  clamp_avg, mask,
}
use go_shardblob.Chunk.Policy.Bounds.{IsNormal, normalize-IsNormal, mask-normal}
use go_shardblob.Chunk.Reader.{Reader, content, read, read_full, read_loop}
use go_shardblob.Chunk.Splitter.{Piece, split_all, split_loop, new_splitter, next, next_fixed, emit}
use go_shardblob.Chunk.Splitter.Split.{
  pieces_of, joined, IsRun, IsEven, split_all-pieces, split_all_lossless, split_all_numbered,
  split_all-IsEven,
}

abbrev small : Policy
small = record { mode = fixed; avg = 4; min = 0; max = 0 }

abbrev small_cdc : Policy
small_cdc = record { mode = cdc; avg = 4; min = 0; max = 0 }

-- Ten bytes in three bursts, one of them empty; EOF comes with the last.
abbrev ten : Reader
ten = record {
  bursts = (1 ∷ 2 ∷ 3 ∷ []) ∷ [] ∷ (4 ∷ 5 ∷ 6 ∷ 7 ∷ 8 ∷ 9 ∷ 10 ∷ []) ∷ [];
  ending = none;
  together = true;
}

normalize_five : normal_avg 5 ≡ 4
unfolding normal_avg nearest_power clamp_avg bit_len
normalize_five = refl

normalize_seven : normal_avg 7 ≡ 8
unfolding normal_avg nearest_power clamp_avg bit_len
normalize_seven = refl

split_ten :
    split_all ten small
    ≡ some (
      record { index = 0; offset = 0; bytes = 1 ∷ 2 ∷ 3 ∷ 4 ∷ [] }
          ∷ record { index = 1; offset = 4; bytes = 5 ∷ 6 ∷ 7 ∷ 8 ∷ [] }
          ∷ record { index = 2; offset = 8; bytes = 9 ∷ 10 ∷ [] }
          ∷ [],
      none,
    )
unfolding split_all split_loop new_splitter next next_fixed read_full read_loop read emit normalize
    normal_avg normal_min normal_max nearest_power clamp_avg bit_len
split_ten = refl

split_broken :
    split_all (record ten { ending = some io_failed; together = false }) small
    ≡ some (
      record { index = 0; offset = 0; bytes = 1 ∷ 2 ∷ 3 ∷ 4 ∷ [] }
          ∷ record { index = 1; offset = 4; bytes = 5 ∷ 6 ∷ 7 ∷ 8 ∷ [] }
          ∷ [],
      some io_failed,
    )
unfolding split_all split_loop new_splitter next next_fixed read_full read_loop read emit normalize
    normal_avg normal_min normal_max nearest_power clamp_avg bit_len
split_broken = refl

split_all-pieces_example : split_all ten small_cdc ≡ some (pieces_of small_cdc (content ten), none)
split_all-pieces_example = split_all-pieces ten small_cdc refl

split_all_lossless_example :
    (ps : List Piece) × (split_all ten small_cdc ≡ some (ps, none)) × (joined ps ≡ content ten)
split_all_lossless_example = split_all_lossless ten small_cdc refl

split_all_numbered_example :
    (ps : List Piece) × (split_all ten small_cdc ≡ some (ps, none))
    × IsRun (normalize small_cdc).max 0 0 ps
split_all_numbered_example = split_all_numbered ten small_cdc refl (omega arith)

split_all-IsEven_example :
    (ps : List Piece) × (split_all ten small ≡ some (ps, none)) × IsEven (normalize small).avg ps
split_all-IsEven_example = split_all-IsEven ten small refl refl

normalize-IsNormal_example : IsNormal (normalize small)
normalize-IsNormal_example = normalize-IsNormal small

mask-normal_example :
    mask (normalize small)
    ≡ (if (normalize small).avg == 1 then 2 ^ 16 - 1 else (normalize small).avg - 1)
mask-normal_example = mask-normal (normalize small) (normalize-IsNormal small)
