-- ===== src/Protocol/PatchHeader.antt =====
-- `struct PatchHeader` and `encode_patch_header` of FileRelay_.server/common/protocol.hpp: the
-- 40-byte header of a patch, with a CRC-32 over itself.
pub mod RoundTrip
use Prim.Native.Nat.{bit_and}
use super_voice.Base.{
  ℕ, zero, suc, ◌+◌, ◌<◌, ◌^◌, ◌≡◌, Bool, true, false, not, ◌&&◌, List, [], ◌∷◌, ◌++◌, ltb, ◌==◌,
  if◌then◌else◌, length, set, replicate,
}
use super_voice.Base.Result.{
  Result, ok, err, ◌>>=◌, ◌>>◌, guard, unsupported_version, unexpected_header_size,
  insufficient_data, invalid_magic, header_crc_mismatch,
}
use super_voice.Bytes.{read_le, write_u32_le, write_u64_le}
use super_voice.Crc.{crc32}

-- 'S', 'V', 'P', '1'
abbrev pub magic : List ℕ
magic = b'S' ∷ b'V' ∷ b'P' ∷ b'1' ∷ []

abbrev pub version_number : ℕ
version_number = 1

abbrev pub encoded_size : ℕ
encoded_size = 40

pub record PatchHeader : Type 0 where
  pub version : ℕ
  pub header_size : ℕ
  pub file_id : ℕ
  pub total_patches : ℕ
  pub patch_index : ℕ
  pub payload_size : ℕ
  pub header_crc32 : ℕ
  pub payload_crc32 : ℕ

-- Writes `bytes` into `out` from `offset` on.
pub copy_at : List ℕ → ℕ → List ℕ → List ℕ
copy_at out offset [] = out
copy_at out offset (b ∷ bs) = copy_at (set out offset b) (offset + 1) bs

pub serialize : PatchHeader → Bool → List ℕ
unfolding copy_at
serialize h include_header_crc =
    let out = copy_at (replicate encoded_size 0) 0 magic in
    let out = copy_at out 4 (write_u32_le h.version) in
    let out = copy_at out 8 (write_u32_le h.header_size) in
    let out = copy_at out 12 (write_u64_le h.file_id) in
    let out = copy_at out 20 (write_u32_le h.total_patches) in
    let out = copy_at out 24 (write_u32_le h.patch_index) in
    let out = copy_at out 28 (write_u32_le h.payload_size) in
    let header_crc = if include_header_crc then h.header_crc32 else 0 in
    let out = copy_at out 32 (write_u32_le header_crc) in
    copy_at out 36 (write_u32_le h.payload_crc32)

pub compute_header_crc32 : PatchHeader → ℕ
compute_header_crc32 h = crc32 (serialize h false)

pub finalize_header_crc : PatchHeader → PatchHeader
finalize_header_crc h = record h { header_crc32 = compute_header_crc32 h }

pub validate : PatchHeader → Result (Unit {0})
validate h = do
  guard (h.version == version_number) unsupported_version
  guard (h.header_size == encoded_size) unexpected_header_size

-- `std::equal` over the four bytes of the magic number.
pub starts_with : List ℕ → List ℕ → Bool
starts_with [] data_bytes = true
starts_with (m ∷ ms) [] = false
starts_with (m ∷ ms) (b ∷ bs) = m == b && starts_with ms bs

pub deserialize : List ℕ → Result PatchHeader
unfolding starts_with validate
deserialize bytes = do
  guard (not (ltb (length bytes) encoded_size)) insufficient_data
  guard (starts_with magic bytes) invalid_magic
  version ← read_le 4 bytes 4
  header_size ← read_le 4 bytes 8
  file_id ← read_le 8 bytes 12
  total_patches ← read_le 4 bytes 20
  patch_index ← read_le 4 bytes 24
  payload_size ← read_le 4 bytes 28
  header_crc32 ← read_le 4 bytes 32
  payload_crc32 ← read_le 4 bytes 36
  let header : PatchHeader = record {
    version = version;
    header_size = header_size;
    file_id = file_id;
    total_patches = total_patches;
    patch_index = patch_index;
    payload_size = payload_size;
    header_crc32 = header_crc32;
    payload_crc32 = payload_crc32;
  }
  validate header
  guard (compute_header_crc32 header == header.header_crc32) header_crc_mismatch
  ok header

pub encode_patch_header : PatchHeader → List ℕ
encode_patch_header header =
    let out = serialize header true in
    let expected_crc = compute_header_crc32 header in
    if expected_crc == header.header_crc32
    then out
    else serialize (record header { header_crc32 = expected_crc }) true
