-- ===== src/Tests/Stores.antt =====
-- The store in memory, at concrete inputs.
use go_shardblob.Base.{
  Bytes, ℕ, replicate, ◌+◌, ◌^◌, ◌<◌, ◌≤◌, ◌≡◌, refl, arith, true, false, none, some, List, [], ◌∷◌,
  drop, length, ◌==◌, ◌=?◌, =?-refl, if◌then◌else◌, bytes_discrete, identity-IsOrder,
}
use go_shardblob.Base.Dict
use go_shardblob.Base.Result.{ok}
use go_shardblob.Hashx.{
  HashId, Algo, object_id, chunk_id, is_zero, zero_id, sum_tagged, new_tagged, new_hash, write,
  tagged_id, copy_id, sum, tag_chunk, tag_object,
}
use go_shardblob.Chunk.Policy.{
  Policy, fixed, normalize, normal_avg, normal_min, normal_max, nearest_power, bit_len, clamp_avg,
}
use go_shardblob.Chunk.Reader.{Reader, content}
use go_shardblob.Chunk.Splitter.{Piece}
use go_shardblob.Chunk.Splitter.Split.{pieces_of, pieces_from}
use go_shardblob.Chunk.Splitter.Reference.{next_cut}
use go_shardblob.Manifest.{Entry, is_blank, chunk_ids}
use go_shardblob.Manifest.Codec.RoundTrip.{decode-encode}
use go_shardblob.Blobstore.{Backend, IsLawful}
use go_shardblob.Blobstore.Memory.{new_memory}
use go_shardblob.Blobstore.Laws.{memory_backend, memory_laws, IsValid-new}
use go_shardblob.Refcount
use go_shardblob.Refcount.{new_table}
use go_shardblob.Refcount.Exact.{occurs}
use go_shardblob.Index
use go_shardblob.Index.{new_index, Record}
use go_shardblob.Store.{Store, Config, put}
use go_shardblob.Store.Read.{get_bytes}
use go_shardblob.Store.Deleted.{delete_last}
use go_shardblob.Tests.Formats.{sample, checked, sample_valid, sample-IsWire}
use go_shardblob.Store.Again.{put-again}
use go_shardblob.Store.Remove.{gc, delete}
use go_shardblob.Store.Collected.{put-gc-get_bytes}
use go_shardblob.Store.Medium.{memory_media, memory_media-IsSound}
use go_shardblob.Store.Pieces.{entries_of}
use go_shardblob.Store.RoundTrip.{CanPut, ids_of, put-get_bytes}
use go_shardblob.Store.Served.{Serves}

-- A digest for trying things out: the bytes themselves, of which 32 are kept.
abbrev pub plain_algo : Algo
plain_algo = record { name = 115 ∷ 104 ∷ 97 ∷ []; digest = λ b. b }

abbrev small : Policy
small = record { mode = fixed; avg = 4; min = 1; max = 16 }

abbrev pub config : Config
config = record { algo = plain_algo; policy = small; auto_gc = false }

abbrev pub six : Reader
six = record { bursts = (1 ∷ 2 ∷ 3 ∷ []) ∷ (4 ∷ 5 ∷ 6 ∷ []) ∷ []; ending = none; together = false }

abbrev pub blobs : Backend
blobs = memory_backend (λ ks. ks)

abbrev pub lawful : IsLawful blobs
lawful = memory_laws (λ ks. ks) identity-IsOrder

abbrev pub empty : Store blobs memory_media
empty = record {
  blobs = new_memory;
  refs = new_table;
  index = new_index;
  world = [];
  is_closed = false;
}

-- The bytes of the two chunks of `six`, by the first byte after the tag.
abbrev book_of : Bytes → Bytes
book_of [] = []
book_of (x ∷ xs) = if x == 1 then 1 ∷ 2 ∷ 3 ∷ 4 ∷ [] else 5 ∷ 6 ∷ []

abbrev pub book : HashId → Bytes
book id = book_of (drop 16 id)

abbrev pieces_six : List Piece
pieces_six =
    record { index = 0; offset = 0; bytes = 1 ∷ 2 ∷ 3 ∷ 4 ∷ [] }
    ∷ record { index = 1; offset = 4; bytes = 5 ∷ 6 ∷ [] }
    ∷ []

pieces_of-six : pieces_of small (content six) ≡ pieces_six
unfolding pieces_of pieces_from next_cut normalize normal_avg normal_min normal_max nearest_power
    clamp_avg bit_len
pieces_of-six = refl

pub can_put :
    CanPut {B = blobs} {M = memory_media} lawful memory_media-IsSound book config empty
      (content six)
unfolding memory_laws memory_media-IsSound pieces_of pieces_from next_cut normalize normal_avg
    normal_min normal_max nearest_power clamp_avg bit_len is_blank is_zero zero_id chunk_id
    object_id sum_tagged new_tagged new_hash write tagged_id copy_id sum tag_chunk tag_object
    bytes_discrete Dict.lookup
can_put = record {
  is_open = refl;
  blobs_ready = IsValid-new;
  world_ready = tt;
  normal = refl;
  room = omega arith;
  agrees = (λ j d h. cc, (refl, (refl, tt)));
  all_named = (refl, (refl, tt));
  nameable = record {
    not_blank = refl;
    short = omega arith;
    plain = ground arith;
    few = omega arith;
    named = refl;
  };
}

abbrev chunks_six : List Entry
chunks_six = entries_of plain_algo (pieces_of small (content six))

pub none_yet : Index.get empty.index (object_id plain_algo (content six)) ≡ none
unfolding Index.get Dict.lookup
none_yet = refl

put-get_bytes_example :
    (s' : Store blobs memory_media) × (put blobs memory_media config 7 empty (some six)
      ≡ some (ok (object_id plain_algo (content six)), s'))
    × ((fuel k : ℕ)
        → 1 ≤ k
        → length (content six) < fuel
        → get_bytes fuel k s' (object_id plain_algo (content six)) ≡ some (ok (content six)))
    × ((j : HashId)
        → Refcount.get new_table j + occurs j (ids_of chunks_six) < 2 ^ 64
        → Refcount.get s'.refs j ≡ Refcount.get new_table j + occurs j (ids_of chunks_six))
put-get_bytes_example =
    put-get_bytes {B = blobs} {M = memory_media} lawful memory_media-IsSound book config 7 empty six
      refl can_put none_yet

counts_fit : (j : HashId) → Refcount.get new_table j + occurs j (ids_of chunks_six) < 2 ^ 64
unfolding Refcount.get Dict.lookup occurs pieces_of pieces_from next_cut normalize normal_avg
    normal_min normal_max nearest_power clamp_avg bit_len
counts_fit j = ground arith

put-gc-get_bytes_example :
    (s' : Store blobs memory_media) × (put blobs memory_media config 7 empty (some six)
      ≡ some (ok (object_id plain_algo (content six)), s'))
    × ((gc s').0 ≡ ok tt)
    × (get_bytes 7 3 (gc s').2 (object_id plain_algo (content six)) ≡ some (ok (content six)))
put-gc-get_bytes_example =
    put-gc-get_bytes {B = blobs} {M = memory_media} lawful memory_media-IsSound book config 7 empty
      six 7 3 refl can_put none_yet counts_fit (omega arith) (omega arith)

abbrev shut : Store blobs memory_media
shut = record empty { is_closed = true }

abbrev first : HashId
first = replicate 32 7

abbrev second : HashId
second = replicate 32 9

abbrev sample_row : Record
sample_row = record { id = replicate 32 5; use_count = 1; size = 6; chunks = 2; created_at = 3 }

abbrev sample_bytes : Bytes
sample_bytes = (decode-encode sample checked sample-IsWire sample_valid).0

-- A store with one object of two chunks.
abbrev holding : Store blobs memory_media
holding = record {
  blobs = record {
    blobs = (first, 1 ∷ 2 ∷ 3 ∷ 4 ∷ []) ∷ (second, 5 ∷ 6 ∷ []) ∷ [];
    nbytes = 6;
    is_closed = false;
  };
  refs = record { counts = (first, 1) ∷ (second, 1) ∷ []; dirty = 0 };
  index = record { objects = (replicate 32 5, sample_row) ∷ [] };
  world = (replicate 32 5, sample_bytes) ∷ [];
  is_closed = false;
}

holding-Serves :
    Serves {B = blobs} {M = memory_media} lawful memory_media-IsSound holding
      (replicate 32 5)
      (content six)
unfolding memory_laws memory_media-IsSound Index.get Dict.lookup bytes_discrete Dict.total
holding-Serves = record {
  is_open = refl;
  blobs_ready = record { open_ = refl; nodup = (refl, (refl, tt)); counted = refl };
  world_ready = tt;
  row = sample_row;
  indexed = refl;
  raw = sample_bytes;
  written = refl;
  mf = checked;
  decoded = (decode-encode sample checked sample-IsWire sample_valid).2;
  holds = (1 ∷ 2 ∷ 3 ∷ 4 ∷ [], 5 ∷ 6 ∷ [], refl, refl, (5 ∷ 6 ∷ [], [], refl, refl, refl));
}

holding_covers : (j : HashId) → occurs j (chunk_ids checked) ≤ Refcount.get holding.refs j
unfolding occurs chunk_ids Refcount.get Dict.lookup
holding_covers j = ground arith

delete_last_example :
    (s' : Store blobs memory_media) × (delete config 7 holding (replicate 32 5) ≡ (ok tt, s'))
    × ((j : HashId)
        → Index.get s'.index j ≡ (if replicate 32 5 =? j then none else Index.get holding.index j))
    × ((j : HashId)
        → Refcount.get s'.refs j + occurs j (chunk_ids checked) ≡ Refcount.get holding.refs j)
unfolding holding-Serves
delete_last_example =
    delete_last {B = blobs} {M = memory_media} lawful memory_media-IsSound config 7 holding
      (replicate 32 5) (content six) holding-Serves (omega arith) refl holding_covers

-- `six` is in the index, used once.
abbrev known_row : Record
known_row = record {
  id = object_id plain_algo (content six);
  use_count = 1;
  size = 6;
  chunks = 2;
  created_at = 3;
}

abbrev knowing : Store blobs memory_media
knowing = record empty {
  index = record { objects = (object_id plain_algo (content six), known_row) ∷ [] };
}

put-again_example :
    (s' : Store blobs memory_media) × (put blobs memory_media config 7 knowing (some six)
      ≡ some (ok (object_id plain_algo (content six)), s'))
    × ((j : HashId)
        → Index.get s'.index j ≡ (
            if object_id plain_algo (content six) =? j
            then some (record known_row { use_count = 2 })
            else Index.get knowing.index j))
    × ((j : HashId) → Refcount.get s'.refs j ≡ Refcount.get new_table j)
unfolding memory_laws memory_media-IsSound Index.get Dict.lookup
put-again_example =
    put-again {B = blobs} {M = memory_media} lawful memory_media-IsSound config 7 knowing six
      known_row refl refl IsValid-new tt (rw (=?-refl (object_id plain_algo (content six))) refl)
      refl refl (omega arith)
