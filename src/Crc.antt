-- ===== src/Crc.antt =====
-- The two CRC-32 routines of the repository. The table-driven one is `class Crc32` of
-- FileRelay_.server/common/bytes.hpp, which the wire protocol uses; `bitwise_crc32` is the private
-- `Storage::crc32` of FileRelay_.server/Server/src/storage.hpp, which checks what the server stores.
pub mod Linear
pub mod Agree
pub mod Detect
use Prim.Native.Nat.{bit_and, bit_xor}
use super_voice.Base.{ℕ, zero, suc, ◌+◌, List, [], ◌∷◌, ◌==◌, if◌then◌else◌, get_or}
use super_voice.Base.Word.{shr}

abbrev pub polynomial : ℕ
polynomial = 0xEDB88320

-- One round of the loop of `crc32_table_entry`.
pub table_round : ℕ → ℕ
table_round crc = if bit_and crc 1 == 0 then shr crc 1 else bit_xor (shr crc 1) polynomial

pub rounds : ℕ → ℕ → ℕ
unfolding table_round
rounds zero crc = crc
rounds (suc n) crc = rounds n (table_round crc)

pub crc32_table_entry : ℕ → ℕ
unfolding rounds
crc32_table_entry index = rounds 8 index

-- The loop of `build_crc32_table` at index `i`, with `n` entries left.
pub build_from : ℕ → ℕ → List ℕ
unfolding crc32_table_entry
build_from zero i = []
build_from (suc n) i = crc32_table_entry i ∷ build_from n (i + 1)

pub crc32_table : List ℕ
unfolding build_from
crc32_table = build_from 256 0

-- The body of the loop of `Crc32::update`.
pub update_byte : ℕ → ℕ → ℕ
unfolding crc32_table
update_byte crc byte = bit_xor (shr crc 8) (get_or crc32_table (bit_and (bit_xor crc byte) 0xff) 0)

pub update : ℕ → List ℕ → ℕ
unfolding update_byte
update crc [] = crc
update crc (byte ∷ bytes) = update (update_byte crc byte) bytes

abbrev pub reset : ℕ
reset = 0xFFFFFFFF

pub value : ℕ → ℕ
value crc = bit_xor crc 0xFFFFFFFF

pub crc32 : List ℕ → ℕ
unfolding update value
crc32 bytes = value (update reset bytes)

-- One round of the inner loop of `Storage::crc32`: `bit` is read before the shift.
unfoldable pub storage_round : ℕ → ℕ
storage_round crc =
    let bit = bit_and crc 1 in
    let shifted = shr crc 1 in if bit == 0 then shifted else bit_xor shifted polynomial

unfoldable pub storage_rounds : ℕ → ℕ → ℕ
unfolding storage_round
storage_rounds zero crc = crc
storage_rounds (suc n) crc = storage_rounds n (storage_round crc)

unfoldable pub storage_update : ℕ → List ℕ → ℕ
unfolding storage_rounds
storage_update crc [] = crc
storage_update crc (byte ∷ bytes) = storage_update (storage_rounds 8 (bit_xor crc byte)) bytes

unfoldable pub bitwise_crc32 : List ℕ → ℕ
unfolding storage_update
bitwise_crc32 bytes = bit_xor (storage_update 0xFFFFFFFF bytes) 0xFFFFFFFF
