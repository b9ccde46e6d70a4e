-- ===== src/Crc/Agree.antt =====
-- The table-driven and the bitwise CRC-32 are the same function.
use Prim.Native.Nat.{bit_and, bit_xor}
use super_voice.Base.{
  ℕ, zero, suc, ◌+◌, ◌/◌, ◌%◌, ◌<◌, ◌≡◌, refl, sym, ap, ◌∙◌, arith, List, [], ◌∷◌, All, get_or,
}
use super_voice.Base.Word.{IsByte}
use super_voice.Base.Bits.{bit_and_byte}
use super_voice.Base.Bits.Xor.{bit_xor-div_pow, bit_xor-zero}
use super_voice.Crc.{
  rounds, table_round, crc32_table_entry, build_from, crc32_table, update_byte, update, reset,
  value, crc32, storage_round, storage_rounds, storage_update, bitwise_crc32,
}
use super_voice.Crc.Linear.{rounds_eight}

build_from_lem : (n i k : ℕ) → k < n → get_or (build_from n i) k 0 ≡ crc32_table_entry (i + k)
unfolding build_from
build_from_lem zero i k h = absurd (omega arith)
build_from_lem (suc n) i zero h = ap crc32_table_entry (omega arith)
build_from_lem (suc n) i (suc k) h =
    build_from_lem n (i + 1) k (omega arith) ∙ ap crc32_table_entry (omega arith)

-- Every entry of the table is the eight rounds of its index.
pub crc32_table_lem : (k : ℕ) → k < 256 → get_or crc32_table k 0 ≡ rounds 8 k
unfolding crc32_table crc32_table_entry
crc32_table_lem k h = build_from_lem 256 0 k h ∙ ap (rounds 8) (omega arith)

-- A step by the table is eight rounds of the register combined with the byte.
pub update_byte_lem :
    (crc byte : ℕ) → byte < 256 → update_byte crc byte ≡ rounds 8 (bit_xor crc byte)
unfolding update_byte
update_byte_lem crc byte h =
    let low : bit_and (bit_xor crc byte) 0xff ≡ bit_xor crc byte % 256 = bit_and_byte _ in
    let gone : byte / 256 ≡ 0 = omega arith in
    let high : bit_xor crc byte / 256 ≡ crc / 256 =
      bit_xor-div_pow 8 crc byte ∙ rw gone (bit_xor-zero (crc / 256)) in
    rw (low, crc32_table_lem (bit_xor crc byte % 256) (omega arith), ← high)
      (sym (rounds_eight (bit_xor crc byte)))

storage_rounds_lem : (n crc : ℕ) → storage_rounds n crc ≡ rounds n crc
unfolding storage_rounds rounds storage_round table_round
storage_rounds_lem zero crc = refl
storage_rounds_lem (suc n) crc = storage_rounds_lem n (table_round crc)

storage_update_lem :
    (crc : ℕ) (bytes : List ℕ) → All IsByte bytes → storage_update crc bytes ≡ update crc bytes
unfolding storage_update update
storage_update_lem crc [] h = refl
storage_update_lem crc (byte ∷ bytes) h =
    rw (storage_rounds_lem 8 (bit_xor crc byte), ← update_byte_lem crc byte h.0)
      (storage_update_lem (update_byte crc byte) bytes h.1)

-- On every list of bytes, the table-driven CRC-32 of the protocol and the bitwise CRC-32 of the
-- storage give the same checksum.
pub crc32-eq-bitwise_crc32 : (bytes : List ℕ) → All IsByte bytes → crc32 bytes ≡ bitwise_crc32 bytes
unfolding crc32 bitwise_crc32 value
crc32-eq-bitwise_crc32 bytes h =
    ap (λ crc. bit_xor crc 0xFFFFFFFF) (sym (storage_update_lem reset bytes h))
