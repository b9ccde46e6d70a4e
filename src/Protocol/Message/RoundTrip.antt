-- ===== src/Protocol/Message/RoundTrip.antt =====
-- A message that was encoded is decoded to itself.
use mathlib.Core.List.{append_assoc}
use super_voice.Base.{ℕ, ◌^◌, ◌<◌, ◌≡◌, refl, List, [], ◌∷◌, ◌++◌, arith, length, ◌≢◌, ne→==}
use super_voice.Base.Word.{u32}
use super_voice.Base.Result.{ok, err, unknown_message_type}
use super_voice.Bytes.{ByteReader, reader, to_le_array}
use super_voice.Bytes.Writer.{write_lem, write_bytes_lem}
use super_voice.Bytes.Reader.{Left, Left-reader, Left-read, Left-next, read_lem, read_bytes_lem}
use super_voice.Protocol.Message.{
  SystemPayload, queue_size_payload, file_meta_payload, file_patch_map_payload, control_payload,
  queue_size_update, file_meta, file_patch_map, control, encode_system_message, decode_payload,
  decode_system_message,
}

-- The type of a message that carries the payload.
abbrev pub type_of : SystemPayload → ℕ
type_of (queue_size_payload p) = queue_size_update
type_of (file_meta_payload p) = file_meta
type_of (file_patch_map_payload p) = file_patch_map
type_of (control_payload p) = control

-- Every field fits its width; the hash has 32 bytes.
abbrev pub Fits : SystemPayload → Type 0
Fits (queue_size_payload p) = p.queue_size < 2 ^ 32
Fits (file_meta_payload p) =
    (p.file_id < 2 ^ 64)
    × (length p.utf8_name < 2 ^ 32)
    × (p.original_size_bytes < 2 ^ 64)
    × (p.total_patches < 2 ^ 32)
    × (length p.sha256 ≡ 32)
Fits (file_patch_map_payload p) = (p.file_id < 2 ^ 64) × (p.patch_index < 2 ^ 32)
Fits (control_payload p) = (p.command < 256) × (p.value_seconds < 2 ^ 32)

-- The bytes of a payload before `rest`, bracketed as the decoder takes them off.
abbrev payload_bytes : SystemPayload → List ℕ → List ℕ
payload_bytes (queue_size_payload p) rest = to_le_array 4 p.queue_size ++ rest
payload_bytes (file_meta_payload p) rest =
    to_le_array 8 p.file_id
    ++ (to_le_array 4 (u32 (length p.utf8_name))
        ++ (p.utf8_name
            ++ (to_le_array 8 p.original_size_bytes
                ++ (to_le_array 4 p.total_patches ++ (p.sha256 ++ rest)))))
payload_bytes (file_patch_map_payload p) rest =
    to_le_array 8 p.file_id ++ (to_le_array 4 p.patch_index ++ rest)
payload_bytes (control_payload p) rest = (p.command ∷ []) ++ (to_le_array 4 p.value_seconds ++ rest)

encode_lem :
    (m : ℕ) (p : SystemPayload) (rest : List ℕ)
    → encode_system_message (record { message_type = m; payload = p }) ++ rest
      ≡ to_le_array 2 m ++ payload_bytes p rest
unfolding encode_system_message
encode_lem m (queue_size_payload p) rest = simp (write_lem, append_assoc)
encode_lem m (file_meta_payload p) rest = simp (write_lem, write_bytes_lem, append_assoc)
encode_lem m (file_patch_map_payload p) rest = simp (write_lem, append_assoc)
encode_lem m (control_payload p) rest = simp (write_lem, write_bytes_lem, append_assoc)

decode_payload_lem :
    (r : ByteReader) (p : SystemPayload) (rest : List ℕ)
    → Fits p
    → Left r (payload_bytes p rest)
    → decode_payload (type_of p) r ≡ ok p
unfolding decode_payload
decode_payload_lem r (queue_size_payload p) rest f l = rw (read_lem 4 p.queue_size rest f l) refl
decode_payload_lem r (file_meta_payload p) rest f l =
    let size_fits : u32 (length p.utf8_name) ≡ length p.utf8_name = omega arith in
    let l1 = Left-read 8 p.file_id _ l in
    let l2 = Left-read 4 (u32 (length p.utf8_name)) _ l1 in
    let l3 = Left-next p.utf8_name _ (length p.utf8_name) l2 refl in
    let l4 = Left-read 8 p.original_size_bytes _ l3 in
    let l5 = Left-read 4 p.total_patches _ l4 in
    rw
      (
        read_lem 8 p.file_id _ f.0 l,
        read_lem 4 (u32 (length p.utf8_name)) _ (omega arith) l1,
        size_fits,
        read_bytes_lem p.utf8_name _ (length p.utf8_name) refl l2,
        read_lem 8 p.original_size_bytes _ f.2 l3,
        read_lem 4 p.total_patches _ f.3 l4,
        read_bytes_lem p.sha256 rest 32 f.4 l5,
      )
      refl
decode_payload_lem r (file_patch_map_payload p) rest f l =
    rw (read_lem 8 p.file_id _ f.0 l, read_lem 4 p.patch_index rest f.1 (Left-read 8 p.file_id _ l))
      refl
decode_payload_lem r (control_payload p) rest f l =
    rw
      (
        read_bytes_lem (p.command ∷ []) _ 1 refl l,
        read_lem 4 p.value_seconds rest f.1 (Left-next (p.command ∷ []) _ 1 l refl),
      )
      refl

type_of-lt : (p : SystemPayload) → type_of p < 2 ^ 16
type_of-lt (queue_size_payload p) = omega arith
type_of-lt (file_meta_payload p) = omega arith
type_of-lt (file_patch_map_payload p) = omega arith
type_of-lt (control_payload p) = omega arith

-- Decoding an encoded message gives the message back, whatever bytes follow it, if its type is the
-- one of its payload and its fields fit their widths.
pub decode-encode_system_message :
    (p : SystemPayload) (rest : List ℕ)
    → Fits p
    → length (encode_system_message (record { message_type = type_of p; payload = p }) ++ rest)
      < 2 ^ 64
    → decode_system_message
        (encode_system_message (record { message_type = type_of p; payload = p }) ++ rest)
      ≡ ok (record { message_type = type_of p; payload = p })
unfolding decode_system_message
decode-encode_system_message p rest f small =
    let bytes = encode_system_message (record { message_type = type_of p; payload = p }) ++ rest in
    let l : Left (reader bytes) (to_le_array 2 (type_of p) ++ payload_bytes p rest) =
      rw (← encode_lem (type_of p) p rest) (Left-reader bytes small) in
    rw
      (
        read_lem 2 (type_of p) _ (type_of-lt p) l,
        decode_payload_lem _ p rest f (Left-read 2 (type_of p) _ l),
      )
      refl

-- A message of any other type is refused.
pub decode_system_message_unknown :
    (m : ℕ) (rest : List ℕ)
    → m < 2 ^ 16
    → m ≢ 1
    → m ≢ 2
    → m ≢ 3
    → m ≢ 4
    → length (to_le_array 2 m ++ rest) < 2 ^ 64
    → decode_system_message (to_le_array 2 m ++ rest) ≡ err unknown_message_type
unfolding decode_system_message decode_payload
decode_system_message_unknown m rest h n1 n2 n3 n4 small =
    let l = Left-reader (to_le_array 2 m ++ rest) small in
    rw
      (
        read_lem 2 m rest h l,
        ne→== m queue_size_update n1,
        ne→== m file_meta n2,
        ne→== m file_patch_map n3,
        ne→== m control n4,
      )
      refl
