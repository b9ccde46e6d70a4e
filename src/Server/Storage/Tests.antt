-- ===== src/Server/Storage/Tests.antt =====
-- Concrete inputs for the theorems on the storage.
use super_voice.Base.{
  ℕ, ◌<◌, ◌≡◌, ◌↔◌, refl, true, false, Option, none, some, [], ◌∷◌, arith, length, get_elem?,
  if◌then◌else◌,
}
use super_voice.Base.Int.{pos}
use super_voice.Base.Map.{lookup, insert, erase}
use super_voice.Crc.{bitwise_crc32, storage_update}
use super_voice.Server.Disk.{save_file, write_loop, finish, rename, contents, append_to}
use super_voice.Base.Text.{text, to_string}
use super_voice.Server.Storage.{
  ChunkData, PayloadRecord, PayloadEntry, Storage, StoreCalls, store_chunk, is_complete, contains,
  join, verify_crc, ends_with_slash, patch_file_name, register, update_entry, adopt, grow,
  insert_index, is_empty, persist_manifest, manifest_line,
}
use super_voice.Server.Storage.Entry.{Tracks, patch_path_of, is_complete_iff}
use super_voice.Server.Storage.Store.{
  Consistent, Agrees, store_chunk-Consistent, store_chunk_complete,
}

abbrev empty_storage : Storage
empty_storage = record {
  patches_dir = text "/p";
  files_dir = text "/f";
  default_ttl = pos 60;
  payloads = [];
  disk = [];
}

abbrev half : PayloadEntry
half = record {
  info = record {
    file_id = text "x";
    original_name = text "n";
    total_chunks = 1;
    patches_dir = join (text "/p") (text "x");
    files_dir = text "/f";
    chunk_files = patch_path_of (text "/p") (text "x") 0 ∷ [];
  };
  received = 0 ∷ [];
  last_update = 0;
  ttl = pos 60;
  state = text "partial";
}

half-Tracks : Tracks (text "/p") (text "x") half
unfolding join patch_file_name
half-Tracks = record {
  file_id = refl;
  patches_dir = refl;
  some_chunks = omega arith;
  sized = refl;
  places = places;
  counted = refl;
}
  where
    places :
        (i : ℕ)
        → i < 1
        → get_elem? half.info.chunk_files i
          ≡ some (if contains i half.received then patch_path_of (text "/p") (text "x") i else [])
    places i h = let first : i ≡ 0 = omega (arith, h) in rw first (unfold contains in refl)

is_complete_iff_example :
    (is_complete half ≡ true)
    ↔ ((i : ℕ) → i < half.info.total_chunks → contains i half.received ≡ true)
is_complete_iff_example = is_complete_iff (text "/p") (text "x") half half-Tracks

abbrev only_chunk : ChunkData
only_chunk = record {
  file_id = text "x";
  original_name = text "n";
  index = 0;
  total_chunks = 1;
  ttl = pos 5;
  header_bytes = [];
  payload = [];
  header_crc = 0;
  payload_crc = 0;
}

abbrev calls : StoreCalls
calls = record {
  create_ok = true;
  patch = record { open_ok = true; writes = []; fsync_ok = true; rename_ok = true };
  now = 3;
  manifest = record { open_ok = false; writes = []; fsync_ok = true; rename_ok = true };
}

abbrev state_of : Option (Storage × Option PayloadRecord) → Storage
state_of none = empty_storage
state_of (some (s, r)) = s

abbrev info_of : Option (Storage × Option PayloadRecord) → PayloadRecord
info_of none = half.info
info_of (some (s, none)) = half.info
info_of (some (s, some info)) = info

abbrev stored : Storage
stored = state_of (store_chunk only_chunk calls empty_storage)

abbrev info : PayloadRecord
info = info_of (store_chunk only_chunk calls empty_storage)

stores : store_chunk only_chunk calls empty_storage ≡ some (stored, some info)
unfolding store_chunk verify_crc bitwise_crc32 storage_update join ends_with_slash patch_file_name
    to_string save_file write_loop finish rename contents append_to register update_entry adopt grow
    insert_index contains is_empty persist_manifest manifest_line is_complete lookup insert erase
stores = refl

empty-Consistent : Consistent empty_storage
unfolding lookup
empty-Consistent id entry at = cc

any-Agrees : Agrees empty_storage only_chunk
unfolding lookup
any-Agrees e at = cc

store_chunk-Consistent_example : Consistent stored
store_chunk-Consistent_example =
    store_chunk-Consistent only_chunk calls empty_storage stored (some info) empty-Consistent
      any-Agrees (omega arith) stores

store_chunk_complete_example :
    (length info.chunk_files ≡ 1)
    × (info.total_chunks ≡ 1)
    × ((i : ℕ)
        → i < 1
        → get_elem? info.chunk_files i ≡ some (patch_path_of (text "/p") (text "x") i))
store_chunk_complete_example =
    store_chunk_complete only_chunk calls empty_storage stored info empty-Consistent any-Agrees
      (omega arith) stores
