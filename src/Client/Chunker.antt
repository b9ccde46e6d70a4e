-- ===== src/Client/Chunker.antt =====
-- `class Chunker` of FileRelay_.server/Client/src/chunker.hpp, with the descriptor of watcher.hpp and
-- the compressed file of compressor.hpp that it works on.
pub mod Cover
use super_voice.Base.{
  ℕ, zero, suc, ◌+◌, ◌-◌, ◌*◌, ◌/◌, ◌^◌, min, List, [], ◌∷◌, ◌==◌, if◌then◌else◌, length, take,
  drop,
}
use super_voice.Base.Word.{u64}
use super_voice.Base.Result.{Result, ok, err, undefined}

pub record FileDescriptor : Type 0 where
  pub path : List ℕ
  pub size : ℕ
  pub last_write_time : ℕ

pub record CompressedFile : Type 0 where
  pub descriptor : FileDescriptor
  pub sha256_hex : List ℕ
  pub compressed_data : List ℕ

pub record FileChunk : Type 0 where
  pub descriptor : FileDescriptor
  pub sha256_hex : List ℕ
  pub index : ℕ
  pub total_chunks : ℕ
  pub payload : List ℕ

-- The body of the loop. The products and sums are in `size_t`.
pub make_chunk : CompressedFile → ℕ → ℕ → ℕ → FileChunk
make_chunk file payload_size total_chunks index =
    let offset = u64 (index * payload_size) in
    let rest = u64 (length file.compressed_data + 2 ^ 64 - offset) in
    let size = min payload_size rest in
    record {
      descriptor = file.descriptor;
      sha256_hex = file.sha256_hex;
      index = index;
      total_chunks = total_chunks;
      payload = take size (drop offset file.compressed_data);
    }

-- The loop at `index`, with `n` rounds left.
pub chunk_loop : CompressedFile → ℕ → ℕ → ℕ → ℕ → List FileChunk
chunk_loop file payload_size total_chunks zero index = []
chunk_loop file payload_size total_chunks (suc n) index =
    make_chunk file payload_size total_chunks index
    ∷ chunk_loop file payload_size total_chunks n (index + 1)

-- `operator()`. A division by zero has no meaning in C++.
pub chunk_file : ℕ → CompressedFile → Result (List FileChunk)
unfolding chunk_loop
chunk_file payload_size file =
    if length file.compressed_data == 0
    then ok []
    else if payload_size == 0
    then err undefined
    else (let total_chunks =
          u64 (length file.compressed_data + payload_size + 2 ^ 64 - 1) / payload_size in
        ok (chunk_loop file payload_size total_chunks total_chunks 0))
