-- ===== src/Tests/Formats.antt =====
-- internal/hashx and internal/manifest: digests and the binary form of manifests.
use go_shardblob.Base.{Bytes, ◌≡◌, refl, arith, List, [], ◌∷◌, replicate, bytes_discrete}
use go_shardblob.Base.Result.{ok}
use go_shardblob.Base.Wire.{checksum}
use go_shardblob.Hashx.{codes, zero_id, is_zero}
use go_shardblob.Manifest.{
  Manifest, Entry, validate, check_header, check_entries, check_entry, is_cdc, is_blank,
}
use go_shardblob.Manifest.Codec.{encode, decode}
use go_shardblob.Manifest.Codec.RoundTrip.{IsWire, decode-encode, decode-valid}

-- The check value of CRC-32.
crc_check : checksum (codes "123456789") ≡ 0xCBF43926
unfolding checksum
crc_check = refl

abbrev pub entries : List Entry
entries =
    record { id = replicate 32 7; size = 4; offset = 0 }
    ∷ record { id = replicate 32 9; size = 2; offset = 4 }
    ∷ []

abbrev pub sample : Manifest
sample = record {
  version = 0;
  flags = 0;
  algo = 115 ∷ 104 ∷ 97 ∷ [];
  chunk_size = 4;
  total_size = 6;
  object = replicate 32 5;
  chunks = entries;
}

abbrev pub checked : Manifest
checked = record sample { version = 1 }

pub sample_valid : validate sample ≡ ok checked
unfolding validate check_header check_entries check_entry is_cdc is_blank is_zero zero_id
    bytes_discrete
sample_valid = refl

pub sample-IsWire : IsWire sample
sample-IsWire = record {
  version = omega arith;
  flags = omega arith;
  algo_short = omega arith;
  algo_plain = omega arith;
  chunk_size = omega arith;
  total_size = omega arith;
  object = refl;
  entries = omega arith;
  few = omega arith;
}

decode-encode_example : (raw : Bytes) × (encode sample ≡ ok raw) × (decode raw ≡ ok checked)
decode-encode_example = decode-encode sample checked sample-IsWire sample_valid

decode-valid_example : validate checked ≡ ok checked
decode-valid_example =
    let (raw, written, back) = decode-encode sample checked sample-IsWire sample_valid in
    decode-valid raw checked back
