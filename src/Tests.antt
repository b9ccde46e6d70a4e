-- ===== src/Tests.antt =====
-- Concrete inputs for the theorems.
use super_voice.Base.{
  ℕ, ◌≤◌, ◌<◌, ◌≡◌, ◌≢◌, refl, min, true, false, none, some, List, [], ◌∷◌, ◌++◌, arith, length,
  take, get_elem?,
}
use super_voice.Base.Text.{text}
use super_voice.Base.Result.{
  ok, err, unsupported_version, unexpected_header_size, header_crc_mismatch, insufficient_data,
  invalid_magic,
}
use super_voice.Bytes.{to_le_array, from_le_array}
use super_voice.Bytes.Endian.{from_le_array-to_le_array}
use super_voice.Crc.{crc32, bitwise_crc32}
use super_voice.Crc.Agree.{crc32-eq-bitwise_crc32}
use super_voice.Crc.Detect.{crc32_detects_byte}
use super_voice.Protocol.PatchHeader.{
  PatchHeader, magic, starts_with, serialize, deserialize, encode_patch_header, finalize_header_crc,
  compute_header_crc32,
}
use super_voice.Protocol.PatchHeader.RoundTrip
use super_voice.Protocol.PatchHeader.RoundTrip.{deserialize-encode_patch_header, deserialize_errors}
use super_voice.Protocol.Message.{decode_system_message}
use super_voice.Protocol.Message.Safe.{Decodes, decode_system_message-Decodes}
use super_voice.Client.Chunker.{CompressedFile, FileChunk, chunk_file}
use super_voice.Client.Chunker.Cover.{payloads, IsChunk, chunk_file-IsChunk}
use super_voice.Client.Queue.{Queue, close}
use super_voice.Client.Queue.History.{World, here, next, closes, closed_for_good}
use super_voice.Server.Disk.{SaveCalls, wrote, interrupted, save_file}
use super_voice.Server.Disk.Atomic.{Replaces, save_file-Replaces}
use super_voice.Api.Sse.{SseStream, escape_data, newline}
use super_voice.Api.Sse.Frame.{Lines, escape_data-Lines}
use super_voice.Server.Listeners
use super_voice.Server.Listeners.{ListenerManager, PortAnswers, update_data_listener_count}
use super_voice.Server.Listeners.Ports
use super_voice.Server.Listeners.Asked.{Serves, Reach-ports}
use super_voice.Server.Listeners.Ports.{starts, updates, update_keeps}

from_le_array-to_le_array_example :
    (from_le_array 2 (to_le_array 2 513) ≡ 513)
    × (to_le_array 2 (from_le_array 2 (7 ∷ 9 ∷ [])) ≡ 7 ∷ 9 ∷ [])
from_le_array-to_le_array_example =
    from_le_array-to_le_array 2 513 (7 ∷ 9 ∷ []) (omega arith) (omega arith, (omega arith, tt))
      (omega arith)

crc32-eq-bitwise_crc32_example : crc32 (49 ∷ 255 ∷ []) ≡ bitwise_crc32 (49 ∷ 255 ∷ [])
crc32-eq-bitwise_crc32_example =
    crc32-eq-bitwise_crc32 (49 ∷ 255 ∷ []) (omega arith, (omega arith, tt))

abbrev five : ℕ
five = 5

crc32_detects_byte_example : five ≡ 5
crc32_detects_byte_example =
    crc32_detects_byte (1 ∷ []) 5 5 (2 ∷ []) (omega arith, tt) (omega arith) (omega arith)
      (omega arith, tt) refl

abbrev header : PatchHeader
header = record {
  version = 1;
  header_size = 40;
  file_id = 7;
  total_patches = 3;
  patch_index = 1;
  payload_size = 100;
  header_crc32 = 0;
  payload_crc32 = 99;
}

abbrev header_fits : RoundTrip.Fits header
header_fits = record {
  version = omega arith;
  header_size = omega arith;
  file_id = omega arith;
  total_patches = omega arith;
  patch_index = omega arith;
  payload_size = omega arith;
  header_crc32 = omega arith;
  payload_crc32 = omega arith;
}

deserialize-encode_patch_header_example :
    deserialize (encode_patch_header header ++ (8 ∷ [])) ≡ ok (finalize_header_crc header)
deserialize-encode_patch_header_example =
    deserialize-encode_patch_header header (8 ∷ []) header_fits refl refl (omega arith)

abbrev one_byte : List ℕ
one_byte = 1 ∷ []

deserialize_errors_example :
    (header.version ≢ 1 → deserialize (serialize header true ++ []) ≡ err unsupported_version)
    × (header.version ≡ 1
        → header.header_size ≢ 40
        → deserialize (serialize header true ++ []) ≡ err unexpected_header_size)
    × (header.version ≡ 1
        → header.header_size ≡ 40
        → header.header_crc32 ≢ compute_header_crc32 header
        → deserialize (serialize header true ++ []) ≡ err header_crc_mismatch)
    × (length one_byte < 40 → deserialize one_byte ≡ err insufficient_data)
    × (40 ≤ length one_byte
        → starts_with magic one_byte ≡ false
        → deserialize one_byte ≡ err invalid_magic)
deserialize_errors_example = deserialize_errors header [] one_byte header_fits (omega arith)

decode_system_message-Decodes_example : Decodes (decode_system_message (2 ∷ 0 ∷ 7 ∷ []))
decode_system_message-Decodes_example = decode_system_message-Decodes (2 ∷ 0 ∷ 7 ∷ []) (omega arith)

abbrev file : CompressedFile
file = record {
  descriptor = record { path = text "a"; size = 9; last_write_time = 0 };
  sha256_hex = text "00";
  compressed_data = 1 ∷ 2 ∷ 3 ∷ 4 ∷ 5 ∷ [];
}

chunk_file-IsChunk_example :
    (chunks : List FileChunk) × (chunk_file 2 file ≡ ok chunks)
    × (payloads chunks ≡ file.compressed_data)
    × ((k : ℕ) (c : FileChunk) → get_elem? chunks k ≡ some c → IsChunk file 2 (length chunks) k c)
chunk_file-IsChunk_example = chunk_file-IsChunk 2 file (omega arith) (omega arith)

abbrev queue : Queue ℕ
queue = record { capacity = 2; items = 5 ∷ 6 ∷ []; closed = false }

abbrev shut : World ℕ
shut = record { queue = record queue { closed = true }; accepted = 5 ∷ 6 ∷ []; handed_out = [] }

closed_for_good_example :
    ((close shut.queue).closed ≡ true)
    × (shut.accepted ≡ shut.accepted)
    × (shut.handed_out ++ (close shut.queue).items ≡ shut.handed_out ++ shut.queue.items)
closed_for_good_example = closed_for_good {w = shut} refl (next here closes)

abbrev save_calls : SaveCalls
save_calls = record {
  open_ok = true;
  writes = wrote 1 ∷ interrupted ∷ wrote 5 ∷ [];
  fsync_ok = true;
  rename_ok = true;
}

save_file-Replaces_example :
    Replaces (text "/a") (1 ∷ 2 ∷ []) [] (save_file (text "/a") (1 ∷ 2 ∷ []) save_calls [])
save_file-Replaces_example = save_file-Replaces (text "/a") (1 ∷ 2 ∷ []) save_calls []

abbrev stream : SseStream
stream = record {
  max_buffered_bytes = 10;
  heartbeat_interval = 15;
  locked = false;
  has_stream = false;
  stream_ready = false;
  closed = false;
  has_loop = false;
  heartbeat = false;
  pending = [];
  buffered_bytes = 0;
  sent = [];
}

escape_data-Lines_example :
    (fields : List ℕ) × (escape_data (97 ∷ 10 ∷ 98 ∷ []) ≡ fields ++ (newline ∷ []))
    × Lines (97 ∷ 10 ∷ 98 ∷ []) fields
escape_data-Lines_example = escape_data-Lines (97 ∷ 10 ∷ 98 ∷ [])

abbrev all_open : ℕ → PortAnswers
all_open port = record { opens = true; binds = true; listens = true }

abbrev scaled : Ports.Reach (Listeners.construct 7000 9000 2) (
    update_data_listener_count all_open 5
      (Listeners.start all_open (Listeners.construct 7000 9000 2)))
scaled = Ports.next (Ports.next Ports.here (starts all_open)) (updates all_open 5)

Reach-ports_example : Serves 7000 9000 5 true (
    update_data_listener_count all_open 5
      (Listeners.start all_open (Listeners.construct 7000 9000 2)))
Reach-ports_example = Reach-ports 7000 9000 2 scaled

abbrev manager : ListenerManager
manager = record {
  sys_base = 7000;
  data_base = 9000;
  system_acceptors = none ∷ none ∷ none ∷ none ∷ [];
  data_acceptors = record { channel = Listeners.data_; port = 9000; running = true } ∷ [];
  started = true;
  desired_data_count = 1;
}

update_keeps_example :
    let after = (update_data_listener_count all_open 3 manager).data_acceptors in
    (length after ≡ 3) × (take (min 3 1) after ≡ take (min 3 1) manager.data_acceptors)
update_keeps_example =
    update_keeps all_open 3 manager
      (record {
        numbered = (refl, refl, tt);
        as_desired = λ e. refl;
        none_stopped = λ e. cc;
        system_count = omega arith;
      })
      refl
