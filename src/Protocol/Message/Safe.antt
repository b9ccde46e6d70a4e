-- ===== src/Protocol/Message/Safe.antt =====
-- Decoding untrusted bytes reads nothing out of bounds.
use super_voice.Base.{ℕ, ◌^◌, ◌<◌, inl, inr, List, arith, length, ◌==◌, Bool-cases}
use super_voice.Base.Result.{Result, ok, err, ◌>>=◌, out_of_range, unknown_message_type}
use super_voice.Bytes.{ByteReader, reader}
use super_voice.Bytes.Safe.{InBounds, Safe, returns, throws, read-Safe, read_bytes-Safe}
use super_voice.Protocol.Message.{
  decode_file_meta, decode_control, decode_queue_size, decode_file_patch_map, decode_payload,
  decode_system_message, queue_size_update, file_meta, file_patch_map, control,
}

-- A result, or one of the two exceptions that the decoder throws on purpose.
pub data Decodes {ℓ} {A : Type ℓ} : Result A → Type ℓ where
  decoded : (a : A) → Decodes (ok a)
  too_short : Decodes (err out_of_range)
  unknown : Decodes (err unknown_message_type)

Safe-bind {ℓ κ} :
    {A : Type ℓ} {B : Type κ} {m : Result (A × ByteReader)} (f : A × ByteReader → Result B)
    → Safe m
    → ((a : A) (r : ByteReader) → InBounds r → Decodes (f (a, r)))
    → Decodes (m >>= f)
Safe-bind f (returns {a} {r} b) k = k a r b
Safe-bind f throws k = too_short

Decodes-bind {ℓ κ} :
    {A : Type ℓ} {B : Type κ} {m : Result A} (f : A → B) → Decodes m → Decodes (m >>= λ a. ok (f a))
Decodes-bind f (decoded a) = decoded (f a)
Decodes-bind f too_short = too_short
Decodes-bind f unknown = unknown

decode_queue_size-Decodes : (r : ByteReader) → InBounds r → Decodes (decode_queue_size r)
unfolding decode_queue_size
decode_queue_size-Decodes r b = Safe-bind _ (read-Safe 4 r (omega arith) b) λ v r1 b1. decoded _

decode_file_patch_map-Decodes : (r : ByteReader) → InBounds r → Decodes (decode_file_patch_map r)
unfolding decode_file_patch_map
decode_file_patch_map-Decodes r b =
    Safe-bind _ (read-Safe 8 r (omega arith) b)
      λ v r1 b1. Safe-bind _ (read-Safe 4 r1 (omega arith) b1) λ w r2 b2. decoded _

decode_control-Decodes : (r : ByteReader) → InBounds r → Decodes (decode_control r)
unfolding decode_control
decode_control-Decodes r b =
    Safe-bind _ (read_bytes-Safe 1 r b)
      λ v r1 b1. Safe-bind _ (read-Safe 4 r1 (omega arith) b1) λ w r2 b2. decoded _

decode_file_meta-Decodes : (r : ByteReader) → InBounds r → Decodes (decode_file_meta r)
unfolding decode_file_meta
decode_file_meta-Decodes r b = Safe-bind _ (read-Safe 8 r (omega arith) b) λ id r1 b1.
    Safe-bind _ (read-Safe 4 r1 (omega arith) b1) λ size r2 b2.
      Safe-bind _ (read_bytes-Safe size r2 b2) λ name r3 b3.
        Safe-bind _ (read-Safe 8 r3 (omega arith) b3) λ original r4 b4.
          Safe-bind _ (read-Safe 4 r4 (omega arith) b4)
            λ total r5 b5. Safe-bind _ (read_bytes-Safe 32 r5 b5) λ hash r6 b6. decoded _

decode_payload-Decodes : (m : ℕ) (r : ByteReader) → InBounds r → Decodes (decode_payload m r)
unfolding decode_payload
decode_payload-Decodes m r b = elim (Bool-cases (m == queue_size_update)) [
  | inl e1 ↦ rw e1 (decode_queue_size-Decodes r b)
  | inr n1 ↦ elim (Bool-cases (m == file_meta)) [
    | inl e2 ↦ rw (n1, e2) (Decodes-bind _ (decode_file_meta-Decodes r b))
    | inr n2 ↦ elim (Bool-cases (m == file_patch_map)) [
      | inl e3 ↦ rw (n1, n2, e3) (decode_file_patch_map-Decodes r b)
      | inr n3 ↦ elim (Bool-cases (m == control)) [
        | inl e4 ↦ rw (n1, n2, n3, e4) (Decodes-bind _ (decode_control-Decodes r b))
        | inr n4 ↦ rw (n1, n2, n3, n4) unknown
      ]
    ]
  ]
]

-- On any bytes, `decode_system_message` gives a message, or throws `std::out_of_range` or "unknown
-- system message type": no read leaves the buffer. A buffer has fewer than 2 ^ 63 bytes.
pub decode_system_message-Decodes :
    (bytes : List ℕ) → length bytes < 2 ^ 63 → Decodes (decode_system_message bytes)
unfolding decode_system_message
decode_system_message-Decodes bytes small =
    Safe-bind _
      (read-Safe 2 (reader bytes) (omega arith) (record { inside = omega arith; small = small }))
      λ m r b. Decodes-bind _ (decode_payload-Decodes m r b)
