-- ===== src/Protocol/Message.antt =====
-- The system messages of FileRelay_.server/common/protocol.hpp and their encoding. A text is the
-- list of its bytes, and a `char` the byte that it is stored as.
pub mod RoundTrip
pub mod Safe
pub mod Tests
use super_voice.Base.{
  ℕ, ◌^◌, ◌<◌, ◌==◌, Bool, List, [], ◌∷◌, ◌++◌, if◌then◌else◌, length, All, get_or,
}
use super_voice.Base.Word.{u32}
use super_voice.Base.Result.{Result, ok, err, ◌>>=◌, unknown_message_type}
use super_voice.Bytes.{ByteReader, reader, read, read_bytes, write, write_bytes}

-- `enum class SystemMessageType : std::uint16_t`: any 16-bit number can stand in it.
abbrev pub queue_size_update : ℕ
queue_size_update = 1

abbrev pub file_meta : ℕ
file_meta = 2

abbrev pub file_patch_map : ℕ
file_patch_map = 3

abbrev pub control : ℕ
control = 4

pub record QueueSizeUpdateMessage : Type 0 where
  pub queue_size : ℕ

pub record FileMetaMessage : Type 0 where
  pub file_id : ℕ
  pub utf8_name : List ℕ
  pub original_size_bytes : ℕ
  pub total_patches : ℕ
  pub sha256 : List ℕ

pub record FilePatchMapMessage : Type 0 where
  pub file_id : ℕ
  pub patch_index : ℕ

pub record ControlMessage : Type 0 where
  pub command : ℕ
  pub value_seconds : ℕ

-- `std::variant`
pub data SystemPayload : Type 0 where
  queue_size_payload : QueueSizeUpdateMessage → SystemPayload
  file_meta_payload : FileMetaMessage → SystemPayload
  file_patch_map_payload : FilePatchMapMessage → SystemPayload
  control_payload : ControlMessage → SystemPayload

pub record SystemMessage : Type 0 where
  pub message_type : ℕ
  pub payload : SystemPayload

-- The visitor of `encode_system_message`, on the writer's buffer.
pub encode_payload : List ℕ → SystemPayload → List ℕ
encode_payload writer (queue_size_payload p) = write 4 writer p.queue_size
encode_payload writer (file_meta_payload p) =
    let writer = write 8 writer p.file_id in
    let writer = write 4 writer (u32 (length p.utf8_name)) in
    let writer = write_bytes writer p.utf8_name in
    let writer = write 8 writer p.original_size_bytes in
    let writer = write 4 writer p.total_patches in write_bytes writer p.sha256
encode_payload writer (file_patch_map_payload p) =
    let writer = write 8 writer p.file_id in write 4 writer p.patch_index
encode_payload writer (control_payload p) =
    let writer = write_bytes writer (p.command ∷ []) in write 4 writer p.value_seconds

pub encode_system_message : SystemMessage → List ℕ
unfolding encode_payload
encode_system_message message = encode_payload (write 2 [] message.message_type) message.payload

pub decode_file_meta : ByteReader → Result (FileMetaMessage × ByteReader)
decode_file_meta r = do
  (file_id, r) ← read 8 r
  (name_size, r) ← read 4 r
  (name_bytes, r) ← read_bytes name_size r
  (original_size_bytes, r) ← read 8 r
  (total_patches, r) ← read 4 r
  (hash_bytes, r) ← read_bytes 32 r
  let meta : FileMetaMessage = record {
    file_id = file_id;
    utf8_name = name_bytes;
    original_size_bytes = original_size_bytes;
    total_patches = total_patches;
    sha256 = hash_bytes;
  }
  ok (meta, r)

-- One byte was read, so `command_bytes[0]` is there.
pub decode_control : ByteReader → Result (ControlMessage × ByteReader)
decode_control r = do
  (command_bytes, r) ← read_bytes 1 r
  (value_seconds, r) ← read 4 r
  let msg : ControlMessage = record {
    command = get_or command_bytes 0 0;
    value_seconds = value_seconds;
  }
  ok (msg, r)

pub decode_queue_size : ByteReader → Result SystemPayload
decode_queue_size r = do
  (queue_size, r) ← read 4 r
  ok (queue_size_payload (record { queue_size = queue_size }))

pub decode_file_patch_map : ByteReader → Result SystemPayload
decode_file_patch_map r = do
  (file_id, r) ← read 8 r
  (patch_index, r) ← read 4 r
  ok (file_patch_map_payload (record { file_id = file_id; patch_index = patch_index }))

-- The `switch` of `decode_system_message`.
pub decode_payload : ℕ → ByteReader → Result SystemPayload
unfolding decode_queue_size decode_file_patch_map decode_file_meta decode_control
decode_payload message_type r =
    if message_type == queue_size_update
    then decode_queue_size r
    else if message_type == file_meta
    then (decode_file_meta r >>= λ p. ok (file_meta_payload p.0))
    else if message_type == file_patch_map
    then decode_file_patch_map r
    else if message_type == control
    then (decode_control r >>= λ p. ok (control_payload p.0))
    else err unknown_message_type

pub decode_system_message : List ℕ → Result SystemMessage
decode_system_message bytes = do
  (message_type, r) ← read 2 (reader bytes)
  payload ← decode_payload message_type r
  ok (record { message_type = message_type; payload = payload })
