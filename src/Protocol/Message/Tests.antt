-- ===== src/Protocol/Message/Tests.antt =====
-- Concrete inputs for the theorems on system messages.
use super_voice.Base.{◌^◌, ◌<◌, ◌≡◌, [], ◌∷◌, ◌++◌, arith, length}
use super_voice.Base.Result.{ok}
use super_voice.Bytes.{write, write_bytes, append_le, to_le_array, to_le_loop}
use super_voice.Protocol.Message.{
  SystemPayload, SystemMessage, control_payload, encode_system_message, encode_payload,
  decode_system_message,
}
use super_voice.Protocol.Message.RoundTrip.{type_of, decode-encode_system_message}

abbrev scale_up : SystemPayload
scale_up = control_payload (record { command = 1; value_seconds = 60 })

abbrev message : SystemMessage
message = record { message_type = type_of scale_up; payload = scale_up }

short : length (encode_system_message message ++ (7 ∷ [])) < 2 ^ 64
unfolding encode_system_message encode_payload write append_le to_le_array to_le_loop write_bytes
short = omega arith

decode-encode_system_message_example :
    decode_system_message (encode_system_message message ++ (7 ∷ [])) ≡ ok message
decode-encode_system_message_example =
    decode-encode_system_message scale_up (7 ∷ []) (omega arith, omega arith) short
