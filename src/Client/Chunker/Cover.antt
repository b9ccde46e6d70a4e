-- ===== src/Client/Chunker/Cover.antt =====
-- The chunks of a file are its compressed bytes, cut in order.
use native.Mathlib.Nat.{mul-le-mul_right, div-mul-le_self, lt-div-mul-add}
use super_voice.Base.{
  ℕ, zero, suc, ◌+◌, ◌-◌, ◌*◌, ◌/◌, ◌^◌, ◌≤◌, ◌<◌, min, ◌≡◌, refl, sym, ap, ◌∙◌, List, [], ◌∷◌,
  ◌++◌, arith, ◌==◌, length, take, drop, take-append-drop, drop-drop, take-min, drop_of_le,
  nil_of_length, ==→eq, length-take, length-drop, get_elem?, some, Bool-cases, inl, inr, ne→==,
}
use super_voice.Base.Word.{u64}
use super_voice.Base.Result.{ok}
use super_voice.Client.Chunker.{CompressedFile, FileChunk, make_chunk, chunk_loop, chunk_file}

-- The payloads of the chunks, one after another.
abbrev pub payloads : List FileChunk → List ℕ
payloads [] = []
payloads (c ∷ cs) = c.payload ++ payloads cs

-- What chunk `k` of a file of `len` bytes holds.
pub record IsChunk (file : CompressedFile) (payload_size total k : ℕ) (c : FileChunk) : Type 0 where
  pub index : c.index ≡ k
  pub total_chunks : c.total_chunks ≡ total
  pub descriptor : c.descriptor ≡ file.descriptor
  pub sha256_hex : c.sha256_hex ≡ file.sha256_hex
  pub not_empty : 0 < length c.payload
  pub bounded : length c.payload ≤ payload_size
  pub full : k + 1 < total → length c.payload ≡ payload_size

-- The number of chunks is rounded up.
count_bounds :
    (len p : ℕ)
    → 0 < p
    → 0 < len
    → len + p < 2 ^ 64
    → let total = u64 (len + p + 2 ^ 64 - 1) / p in (len ≤ total * p) × (total * p < len + p)
count_bounds len p hp hl small =
    let e : u64 (len + p + 2 ^ 64 - 1) ≡ len + p - 1 = omega arith in
    rw e (
      omega (arith, lt-div-mul-add {a = len + p - 1} {b = p} hp),
      omega (arith, div-mul-le_self (len + p - 1) p),
    )

module _ (file : CompressedFile) (p total : ℕ) (pos : 0 < p)
    (enough : length file.compressed_data ≤ total * p)
    (tight : total * p < length file.compressed_data + p)
    (small : length file.compressed_data + p < 2 ^ 64) where
  -- The chunk at an index below `total` starts inside the data.
  starts : (i n : ℕ) → i + suc n ≡ total → i * p < length file.compressed_data
  starts i n e = grind (arith, ap (λ (t : ℕ). t * p) e)

  payload_lem :
      (i : ℕ)
      → i * p < length file.compressed_data
      → (make_chunk file p total i).payload
        ≡ take (min p (length file.compressed_data - i * p)) (drop (i * p) file.compressed_data)
  unfolding make_chunk
  payload_lem i h =
      let fits : u64 (i * p) ≡ i * p = omega arith in
      let rest : u64 (length file.compressed_data + 2 ^ 64 - i * p)
          ≡ length file.compressed_data - i * p =
        omega arith in
      rw (fits, rest) refl

  -- A chunk, and the data from the next one on.
  cut :
      (i : ℕ)
      → i * p < length file.compressed_data
      → (make_chunk file p total i).payload ++ drop ((i + 1) * p) file.compressed_data
        ≡ drop (i * p) file.compressed_data
  cut i h =
      let rest = drop (i * p) file.compressed_data in
      let next : (i + 1) * p ≡ i * p + p = omega arith in
      let len : length file.compressed_data - i * p ≡ length rest =
        sym (length-drop (i * p) file.compressed_data) in
      rw (payload_lem i h, next, ← drop-drop (i * p) p file.compressed_data, len, take-min p rest)
        (take-append-drop p rest)

  length-payload :
      (i : ℕ)
      → i * p < length file.compressed_data
      → length (make_chunk file p total i).payload ≡ min p (length file.compressed_data - i * p)
  length-payload i h = rw (payload_lem i h) (
      omega (
        arith,
        length-take (min p (length file.compressed_data - i * p))
            (drop (i * p) file.compressed_data),
        length-drop (i * p) file.compressed_data,
      ))

  make_chunk-IsChunk :
      (i n : ℕ) → i + suc n ≡ total → IsChunk file p total i (make_chunk file p total i)
  make_chunk-IsChunk i n e =
      let h : i * p < length file.compressed_data = starts i n e in
      let len = length-payload i h in
      record {
        index = unfold make_chunk in refl;
        total_chunks = unfold make_chunk in refl;
        descriptor = unfold make_chunk in refl;
        sha256_hex = unfold make_chunk in refl;
        not_empty = omega (arith, len, pos, h);
        bounded = omega (arith, len);
        full = λ more. omega (arith, len, fills i h more);
      }
    where
      fills :
          (i : ℕ)
          → i * p < length file.compressed_data
          → i + 1 < total
          → i * p + p ≤ length file.compressed_data
      fills i h more = omega (arith, tight, mul-le-mul_right p more)

  payloads-chunk_loop :
      (n i : ℕ)
      → i + n ≡ total
      → payloads (chunk_loop file p total n i) ≡ drop (i * p) file.compressed_data
  unfolding chunk_loop
  payloads-chunk_loop zero i e = sym (drop_of_le (i * p) _ (grind arith))
  payloads-chunk_loop (suc n) i e =
      rw (payloads-chunk_loop n (i + 1) (omega arith)) (cut i (starts i n e))

  chunk_loop-IsChunk :
      (n i k : ℕ) (c : FileChunk)
      → i + n ≡ total
      → get_elem? (chunk_loop file p total n i) k ≡ some c
      → IsChunk file p total (i + k) c
  unfolding chunk_loop
  chunk_loop-IsChunk zero i k c e h = cc
  chunk_loop-IsChunk (suc n) i zero c e h =
      let here : i + 0 ≡ i = omega arith in
      let same : make_chunk file p total i ≡ c = cc in rw (here, ← same) (make_chunk-IsChunk i n e)
  chunk_loop-IsChunk (suc n) i (suc k) c e h =
      let next : i + suc k ≡ i + 1 + k = omega arith in
      rw next (chunk_loop-IsChunk n (i + 1) k c (omega arith) h)

length-chunk_loop :
    (file : CompressedFile) (p total n i : ℕ) → length (chunk_loop file p total n i) ≡ n
unfolding chunk_loop
length-chunk_loop file p total zero i = refl
length-chunk_loop file p total (suc n) i = ap suc (length-chunk_loop file p total n (i + 1))

abbrev count : CompressedFile → ℕ → ℕ
count file p = u64 (length file.compressed_data + p + 2 ^ 64 - 1) / p

chunk_file_enters :
    (p : ℕ) (file : CompressedFile)
    → 0 < p
    → 0 < length file.compressed_data
    → chunk_file p file ≡ ok (chunk_loop file p (count file p) (count file p) 0)
unfolding chunk_file
chunk_file_enters p file hp hl =
    rw (ne→== (length file.compressed_data) 0 (omega arith), ne→== p 0 (omega arith)) refl

-- With a positive payload size, and a file whose size leaves the sum of the two below 2 ^ 64,
-- chunking succeeds: the payloads joined in order are the compressed data; the chunk at place k
-- carries the index k, the number of chunks, the file's descriptor and hash, and between 1 and
-- `payload_size` bytes, exactly that many if it is not the last.
pub chunk_file-IsChunk :
    (p : ℕ) (file : CompressedFile)
    → 0 < p
    → length file.compressed_data + p < 2 ^ 64
    → (chunks : List FileChunk) × (chunk_file p file ≡ ok chunks)
      × (payloads chunks ≡ file.compressed_data)
      × ((k : ℕ) (c : FileChunk) → get_elem? chunks k ≡ some c → IsChunk file p (length chunks) k c)
chunk_file-IsChunk p file hp small = elim (Bool-cases (length file.compressed_data == 0)) [
  | inl none_left ↦ (
    [],
    unfold chunk_file in rw none_left refl,
    sym (length-zero (==→eq _ _ none_left)),
    λ k c e. cc,
  )
  | inr some_left ↦ full (ground arith)
]
  where
    length-zero : {xs : List ℕ} → length xs ≡ 0 → xs ≡ []
    length-zero {xs} e = nil_of_length xs e

    full :
        0 < length file.compressed_data
        → (chunks : List FileChunk) × (chunk_file p file ≡ ok chunks)
          × (payloads chunks ≡ file.compressed_data)
          × ((k : ℕ) (c : FileChunk)
              → get_elem? chunks k ≡ some c
              → IsChunk file p (length chunks) k c)
    full hl =
        let total = count file p in
        let b = count_bounds (length file.compressed_data) p hp hl small in
        (
          chunk_loop file p total total 0,
          chunk_file_enters p file hp hl,
          payloads-chunk_loop file p total hp b.0 b.1 small total 0 (omega arith)
              ∙ (let z : 0 * p ≡ 0 = omega arith in ap (λ k. drop k file.compressed_data) z),
          λ k c e. rw (length-chunk_loop file p total total 0) (
              let z : 0 + k ≡ k = omega arith in
              rw z at
                (chunk_loop-IsChunk file p total hp b.0 b.1 small total 0 k c (omega arith) e)),
        )
