-- ===== src/Bytes.antt =====
-- FileRelay_.server/common/bytes.hpp: the little-endian helpers, `ByteReader` and `ByteWriter`.
-- A byte is a number below 256 and a buffer a list of bytes. The width of the template's `T` is the
-- number of its bytes, 2, 4 or 8. Array arguments of fixed length are lists.
pub mod Endian
pub mod Reader
pub mod Safe
pub mod Writer
use Prim.Native.Nat.{bit_and, bit_or}
use super_voice.Base.{
  ℕ, zero, suc, ◌+◌, ◌-◌, ◌*◌, ◌/◌, ◌%◌, ◌^◌, Option, none, some, List, [], ◌∷◌, ◌++◌, ltb,
  if◌then◌else◌, length, get_elem?, get_or, take, drop, set,
}
use super_voice.Base.Word.{u8, u32, u64, shr, shl}
use super_voice.Base.Result.{Result, ok, err, ◌>>=◌, out_of_range, undefined}

-- `static_cast<std::uint8_t>((value >> (8 * i)) & 0xFFU)`
abbrev pub byte_of : ℕ → ℕ → ℕ
byte_of value i = u8 (bit_and (shr value (8 * i)) 0xff)

-- The loop of `to_le_array` at index `i`, with `n` rounds left.
unfoldable pub to_le_loop : ℕ → ℕ → ℕ → List ℕ
to_le_loop zero i value = []
to_le_loop (suc n) i value = byte_of value i ∷ to_le_loop n (i + 1) value

unfoldable pub to_le_array : ℕ → ℕ → List ℕ
unfolding to_le_loop
to_le_array width value = to_le_loop width 0 value

-- `value |= static_cast<T>(static_cast<T>(in[i]) << (8 * i))` at `width` bytes.
abbrev pub or_byte : ℕ → ℕ → ℕ → ℕ → ℕ
or_byte width acc b i = bit_or acc (shl (8 * width) b (8 * i))

pub from_le_loop : ℕ → List ℕ → ℕ → ℕ → ℕ
from_le_loop width [] i acc = acc
from_le_loop width (b ∷ bs) i acc = from_le_loop width bs (i + 1) (or_byte width acc b i)

pub from_le_array : ℕ → List ℕ → ℕ
unfolding from_le_loop
from_le_array width input = from_le_loop width input 0 0

-- The loop of `write_le`.
pub write_le_loop : ℕ → ℕ → ℕ → List ℕ → ℕ → List ℕ
write_le_loop zero i value buffer offset = buffer
write_le_loop (suc n) i value buffer offset =
    write_le_loop n (i + 1) value (set buffer (u64 (offset + i)) (byte_of value i)) offset

-- The test adds in `size_t`, where the sum can wrap.
pub write_le : ℕ → ℕ → List ℕ → ℕ → Result (List ℕ)
unfolding write_le_loop
write_le width value buffer offset =
    if ltb (length buffer) (u64 (offset + width))
    then err out_of_range
    else ok (write_le_loop width 0 value buffer offset)

-- The loop of `read_le`.
pub read_le_loop : ℕ → ℕ → ℕ → List ℕ → ℕ → ℕ → Result ℕ
read_le_loop width zero i buffer offset acc = ok acc
read_le_loop width (suc n) i buffer offset acc = elim (get_elem? buffer (u64 (offset + i))) [
  | none ↦ err undefined
  | some b ↦ read_le_loop width n (i + 1) buffer offset (or_byte width acc b i)
]

pub read_le : ℕ → List ℕ → ℕ → Result ℕ
unfolding read_le_loop
read_le width buffer offset =
    if ltb (length buffer) (u64 (offset + width))
    then err out_of_range
    else read_le_loop width width 0 buffer offset 0

unfoldable pub append_le : ℕ → List ℕ → ℕ → List ℕ
unfolding to_le_array
append_le width buffer value = buffer ++ to_le_array width value

-- The pointers of these four point at 4 or 8 bytes, which are the argument or the result.
pub read_u32_le : ℕ → ℕ → ℕ → ℕ → ℕ
read_u32_le d0 d1 d2 d3 = bit_or (bit_or (bit_or d0 (shl 32 d1 8)) (shl 32 d2 16)) (shl 32 d3 24)

pub read_u64_le : List ℕ → ℕ
unfolding from_le_loop
read_u64_le input = from_le_loop 8 input 0 0

pub write_u32_le : ℕ → List ℕ
write_u32_le value =
    u8 (bit_and value 0xff)
    ∷ u8 (bit_and (shr value 8) 0xff)
    ∷ u8 (bit_and (shr value 16) 0xff)
    ∷ u8 (bit_and (shr value 24) 0xff)
    ∷ []

pub write_u64_le : ℕ → List ℕ
unfolding to_le_loop
write_u64_le value = to_le_loop 8 0 value

-- `class ByteReader`. A method that reads gives back the value and the reader after it.
pub record ByteReader : Type 0 where
  pub bytes : List ℕ
  pub offset : ℕ

abbrev pub reader : List ℕ → ByteReader
reader input = record { bytes = input; offset = 0 }

pub remaining : ByteReader → ℕ
remaining r = u64 (length r.bytes + 2 ^ 64 - r.offset)

pub read : ℕ → ByteReader → Result (ℕ × ByteReader)
unfolding read_le
read width r = do
  value ← read_le width r.bytes r.offset
  ok (value, record r { offset = u64 (r.offset + width) })

-- A `subspan` that does not lie inside the bytes is undefined.
pub read_bytes : ℕ → ByteReader → Result (List ℕ × ByteReader)
unfolding remaining
read_bytes count r =
    if ltb (remaining r) count
    then err out_of_range
    else if ltb (length r.bytes) (r.offset + count)
    then err undefined
    else ok (take count (drop r.offset r.bytes), record r { offset = u64 (r.offset + count) })

-- `class ByteWriter` is its buffer.
unfoldable pub write : ℕ → List ℕ → ℕ → List ℕ
unfolding append_le
write width buffer value = append_le width buffer value

unfoldable pub write_bytes : List ℕ → List ℕ → List ℕ
write_bytes buffer bytes = buffer ++ bytes
