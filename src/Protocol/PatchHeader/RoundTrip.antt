-- ===== src/Protocol/PatchHeader/RoundTrip.antt =====
-- A header that was encoded is decoded to itself.
use super_voice.Base.{
  ℕ, ◌+◌, ◌*◌, ◌^◌, ◌≤◌, ◌<◌, ◌≡◌, refl, sym, ap, ◌∙◌, inl, inr, Bool, true, false, List, [], ◌++◌,
  arith, length, All, le→ltb, lt→ltb, ◌≢◌, drop, ==→eq, ◌==◌, Bool-cases, if◌then◌else◌,
}
use mathlib.Core.List.{append-nil}
use super_voice.Base.Result.{
  ok, err, guard, ◌>>◌, header_crc_mismatch, unsupported_version, unexpected_header_size,
  insufficient_data, invalid_magic,
}
use super_voice.Base.Word.{IsByte}
use super_voice.Bytes.{read_le}
use super_voice.Bytes.Endian.{le_bytes, write_u32_le_lem, write_u64_le_lem}
use super_voice.Bytes.Reader.{read_le-le_bytes}
use super_voice.Crc.Detect.{crc32-lt}
use super_voice.Protocol.PatchHeader.{
  PatchHeader, magic, version_number, encoded_size, serialize, compute_header_crc32, validate,
  starts_with, deserialize, encode_patch_header, finalize_header_crc,
}

-- The header's bytes, in order, with `crc` in the place of its checksum.
abbrev layout : PatchHeader → ℕ → List ℕ → List ℕ
layout h crc rest =
    magic
    ++ (le_bytes 4 h.version
        ++ (le_bytes 4 h.header_size
            ++ (le_bytes 8 h.file_id
                ++ (le_bytes 4 h.total_patches
                    ++ (le_bytes 4 h.patch_index
                        ++ (le_bytes 4 h.payload_size
                            ++ (le_bytes 4 crc ++ (le_bytes 4 h.payload_crc32 ++ rest))))))))

serialize_lem :
    (h : PatchHeader) (flag : Bool) (rest : List ℕ)
    → serialize h flag ++ rest ≡ layout h (if flag then h.header_crc32 else 0) rest
unfolding serialize
serialize_lem h flag rest = simp (write_u32_le_lem, write_u64_le_lem) refl

-- Every field fits its width.
pub record Fits (h : PatchHeader) : Type 0 where
  pub version : h.version < 2 ^ 32
  pub header_size : h.header_size < 2 ^ 32
  pub file_id : h.file_id < 2 ^ 64
  pub total_patches : h.total_patches < 2 ^ 32
  pub patch_index : h.patch_index < 2 ^ 32
  pub payload_size : h.payload_size < 2 ^ 32
  pub header_crc32 : h.header_crc32 < 2 ^ 32
  pub payload_crc32 : h.payload_crc32 < 2 ^ 32

-- Eight reads at their offsets give back the fields.
module _ (h : PatchHeader) (rest : List ℕ) (f : Fits h) (small : 40 + length rest < 2 ^ 64) where
  bytes : List ℕ
  bytes = layout h h.header_crc32 rest

  field :
      (width value offset : ℕ) (after : List ℕ)
      → value < 2 ^ (8 * width)
      → drop offset bytes ≡ le_bytes width value ++ after
      → offset + width ≤ 40
      → read_le width bytes offset ≡ ok value
  unfolding bytes
  field width value offset after hv e inside =
      read_le-le_bytes width value bytes offset after hv e (omega arith) (omega arith)

  deserialize_layout :
      deserialize bytes
      ≡ (do validate h; guard (compute_header_crc32 h == h.header_crc32) header_crc_mismatch; ok h)
  unfolding deserialize bytes starts_with
  deserialize_layout =
      rw
        (
          le→ltb (length bytes) encoded_size (omega arith),
          field 4 h.version 4 _ f.version refl (omega arith),
          field 4 h.header_size 8 _ f.header_size refl (omega arith),
          field 8 h.file_id 12 _ f.file_id refl (omega arith),
          field 4 h.total_patches 20 _ f.total_patches refl (omega arith),
          field 4 h.patch_index 24 _ f.patch_index refl (omega arith),
          field 4 h.payload_size 28 _ f.payload_size refl (omega arith),
          field 4 h.header_crc32 32 _ f.header_crc32 refl (omega arith),
          field 4 h.payload_crc32 36 _ f.payload_crc32 refl (omega arith),
        )
        refl

-- What `deserialize` does with the bytes of a header, on every branch.
pub deserialize-serialize :
    (h : PatchHeader) (rest : List ℕ)
    → Fits h
    → 40 + length rest < 2 ^ 64
    → deserialize (serialize h true ++ rest)
      ≡ (do validate h; guard (compute_header_crc32 h == h.header_crc32) header_crc_mismatch; ok h)
deserialize-serialize h rest f small =
    rw (serialize_lem h true rest) (unfold bytes in deserialize_layout h rest f small)

layout-IsByte : (h : PatchHeader) (crc : ℕ) → All IsByte (layout h crc [])
layout-IsByte h crc = omega arith

pub compute_header_crc32-lt : (h : PatchHeader) → compute_header_crc32 h < 2 ^ 32
unfolding compute_header_crc32
compute_header_crc32-lt h =
    crc32-lt (serialize h false)
      (rw (← append-nil (serialize h false), serialize_lem h false []) (layout-IsByte h 0))

-- The checksum does not cover its own field.
compute-finalize :
    (h : PatchHeader) → compute_header_crc32 (finalize_header_crc h) ≡ compute_header_crc32 h
unfolding compute_header_crc32 finalize_header_crc serialize
compute-finalize h = refl

pub encode_patch_header_lem :
    (h : PatchHeader) → encode_patch_header h ≡ serialize (finalize_header_crc h) true
unfolding encode_patch_header finalize_header_crc
encode_patch_header_lem h = elim (Bool-cases (compute_header_crc32 h == h.header_crc32)) [
  | inl same ↦
      rw same (ap (λ c. serialize (record h { header_crc32 = c }) true) (sym (==→eq _ _ same)))
  | inr differs ↦ rw differs refl
]

-- Decoding what `encode_patch_header` wrote gives back the header with its checksum set, whatever
-- checksum it had and whatever follows, if its fields fit their widths and it has the version and
-- the size that the protocol fixes.
pub deserialize-encode_patch_header :
    (h : PatchHeader) (rest : List ℕ)
    → Fits h
    → h.version ≡ version_number
    → h.header_size ≡ encoded_size
    → 40 + length rest < 2 ^ 64
    → deserialize (encode_patch_header h ++ rest) ≡ ok (finalize_header_crc h)
unfolding validate finalize_header_crc
deserialize-encode_patch_header h rest f hv hs small = rw (encode_patch_header_lem h) (
    deserialize-serialize (finalize_header_crc h) rest fits small
    ∙ ground (arith, compute-finalize h))
  where
    fits : Fits (finalize_header_crc h)
    fits = record {
      version = f.version;
      header_size = f.header_size;
      file_id = f.file_id;
      total_patches = f.total_patches;
      patch_index = f.patch_index;
      payload_size = f.payload_size;
      header_crc32 = compute_header_crc32-lt h;
      payload_crc32 = f.payload_crc32;
    }

-- A header whose fields fit their widths is refused for the first of these reasons that holds: its
-- version is not 1, its size is not 40, its checksum is not that of its fields. Fewer than 40 bytes,
-- and 40 or more that do not start with the magic number, are refused too.
pub deserialize_errors :
    (h : PatchHeader) (rest bytes : List ℕ)
    → Fits h
    → 40 + length rest < 2 ^ 64
    → (h.version ≢ 1 → deserialize (serialize h true ++ rest) ≡ err unsupported_version)
      × (h.version ≡ 1
          → h.header_size ≢ 40
          → deserialize (serialize h true ++ rest) ≡ err unexpected_header_size)
      × (h.version ≡ 1
          → h.header_size ≡ 40
          → h.header_crc32 ≢ compute_header_crc32 h
          → deserialize (serialize h true ++ rest) ≡ err header_crc_mismatch)
      × (length bytes < 40 → deserialize bytes ≡ err insufficient_data)
      × (40 ≤ length bytes
          → starts_with magic bytes ≡ false
          → deserialize bytes ≡ err invalid_magic)
deserialize_errors h rest bytes f small = (
  λ v. whole ∙ unfold validate in ground arith,
  λ v s. whole ∙ unfold validate in ground arith,
  λ v s c. whole ∙ unfold validate in ground arith,
  λ short. unfold deserialize in rw (lt→ltb _ _ short) refl,
  λ long m. unfold deserialize in rw (le→ltb _ _ long, m) refl,
)
  where
    whole : deserialize (serialize h true ++ rest) ≡ (do
      validate h
      guard (compute_header_crc32 h == h.header_crc32) header_crc_mismatch
      ok h)
    whole = deserialize-serialize h rest f small
