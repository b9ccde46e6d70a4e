-- ===== src/Sha256/Reference.antt =====
-- The hash as FIPS 180-4 defines it: the padded message, in blocks of 64 bytes, with the compression,
-- the constants and the digest of Sha256.Standard.
use Prim.Native.Nat.{bit_and}
use mathlib.Core.List.{append-nil, append_assoc}
use super_voice.Base.{
  ℕ, zero, suc, ◌+◌, ◌-◌, ◌*◌, ◌/◌, ◌%◌, ◌≤◌, ◌<◌, ◌≡◌, refl, sym, ap, ◌∙◌, inl, inr, true, false,
  List, [], ◌∷◌, ◌++◌, arith, length, length-append, length-replicate, length-take, length-drop,
  take-append-drop, Bool-cases, ltb, take, drop, replicate,
}
use super_voice.Base.Word.{u64, shr}
use super_voice.Sha256.{
  Words, Sha256, fresh, process_block, update_loop, fill, push_length, make_room, last_block,
  digest_bytes, sha256,
}
use super_voice.Sha256.Standard.{
  hash_block, initial_hash, initial_same, message_digest, process_block-eq-hash_block,
  digest_bytes-eq-message_digest,
}
use super_voice.Sha256.Feed.{
  flush_full, update_loop_chunk, update_loop-append, fill_lem, update_loop_bits, sha256_lem,
  length-update_loop_mod,
}

abbrev pub zeros : ℕ → List ℕ
zeros n = replicate n 0

length-zeros : (n : ℕ) → length (zeros n) ≡ n
length-zeros n = length-replicate n 0

-- A number as eight bytes, the high one first.
abbrev pub big_endian : ℕ → ℕ → List ℕ
big_endian zero bits = []
big_endian (suc n) bits = bit_and (shr bits (8 * n)) 0xff ∷ big_endian n bits

-- The byte 0x80, as many zeros as bring the length to 56 modulo 64, and the number of bits.
pub padding : ℕ → List ℕ
padding size = 0x80 ∷ (zeros ((55 + 64 - size % 64) % 64) ++ big_endian 8 (u64 (8 * size)))

pub padded : List ℕ → List ℕ
unfolding padding
padded message = message ++ padding (length message)

pub hash_blocks : ℕ → Words → List ℕ → Words
hash_blocks zero state bytes = state
hash_blocks (suc n) state bytes = hash_blocks n (hash_block state (take 64 bytes)) (drop 64 bytes)

pub reference : List ℕ → List ℕ
unfolding hash_blocks padded
reference message =
    message_digest (hash_blocks (length (padded message) / 64) initial_hash (padded message))

push_length_lem :
    (n bits : ℕ) (buffer : List ℕ) → push_length n bits buffer ≡ buffer ++ big_endian n bits
unfolding push_length
push_length_lem zero bits buffer = sym (append-nil buffer)
push_length_lem (suc n) bits buffer =
    push_length_lem n bits (buffer ++ (bit_and (shr bits (8 * n)) 0xff ∷ []))
    ∙ append_assoc buffer (bit_and (shr bits (8 * n)) 0xff ∷ []) (big_endian n bits)

length-big_endian : (n bits : ℕ) → length (big_endian n bits) ≡ n
length-big_endian zero bits = refl
length-big_endian (suc n) bits = omega (arith, length-big_endian n bits)

-- A full block that goes in byte by byte is written, and leaves the buffer empty.
full_chunk :
    (chunk : List ℕ) (s : Sha256)
    → length s.buffer < 64
    → length s.buffer + length chunk ≡ 64
    → update_loop chunk s
      ≡ record s { state = process_block s.state (s.buffer ++ chunk); buffer = [] }
full_chunk chunk s less full =
    update_loop_chunk chunk s less (omega (arith, full))
    ∙ flush_full (record s { buffer = s.buffer ++ chunk })
        (omega (arith, length-append s.buffer chunk, full))

update_loop_blocks :
    (n : ℕ) (bytes : List ℕ) (s : Sha256)
    → s.buffer ≡ []
    → length bytes ≡ 64 * n
    → (update_loop bytes s).state ≡ hash_blocks n s.state bytes
unfolding hash_blocks
update_loop_blocks zero [] s e h = unfold update_loop in refl
update_loop_blocks zero (x ∷ xs) s e h = absurd (omega (arith, h))
update_loop_blocks (suc n) bytes s e h =
    let front = take 64 bytes in
    let back = drop 64 bytes in
    let after : Sha256 = record s {
      state = process_block s.state (s.buffer ++ front);
      buffer = [];
    } in
    ap (λ (ys : List ℕ). (update_loop ys s).state) (sym (take-append-drop 64 bytes))
    ∙ ap (λ (t : Sha256). t.state) (update_loop-append front back s)
    ∙ ap (λ (t : Sha256). (update_loop back t).state)
        (full_chunk front s (omega (arith, ap (λ (b : List ℕ). length b) e))
          (omega (arith, ap (λ (b : List ℕ). length b) e, length-take 64 bytes, h)))
    ∙ update_loop_blocks n back after refl (omega (arith, length-drop 64 bytes, h))
    ∙ ap (λ (b : List ℕ). hash_blocks n (process_block s.state (b ++ front)) back) e
    ∙ ap (λ (t : Words). hash_blocks n t back) (process_block-eq-hash_block s.state front)

zeros_add : (m n : ℕ) → zeros (m + n) ≡ zeros m ++ zeros n
zeros_add zero n = ap (λ (k : ℕ). zeros k) (omega arith)
zeros_add (suc m) n =
    let one_more : suc m + n ≡ suc (m + n) = omega arith in
    ap zeros one_more ∙ ap (λ (zs : List ℕ). 0 ∷ zs) (zeros_add m n)

-- The padding of a buffer in which the length still fits.
one_block :
    (s : Sha256) (k : ℕ)
    → length s.buffer + k ≡ 55
    → last_block s ≡ (update_loop (0x80 ∷ (zeros k ++ big_endian 8 s.bit_length)) s).state
unfolding last_block make_room
one_block s k h =
    let marked = s.buffer ++ (0x80 ∷ []) in
    let size = length-append s.buffer (0x80 ∷ []) in
    let tail = big_endian 8 s.bit_length in
    let room : ltb 56 (length marked) ≡ false = ground (arith, size, h) in
    let chunk = 0x80 ∷ (zeros k ++ tail) in
    let chunk_size : length chunk ≡ 1 + (k + 8) =
      omega
        (arith, length-append (zeros k) tail, length-zeros k, length-big_endian 8 s.bit_length) in
    let bytes : push_length 8 s.bit_length (fill 64 56 marked) ≡ s.buffer ++ chunk =
      push_length_lem 8 s.bit_length (fill 64 56 marked)
      ∙ ap (λ (b : List ℕ). b ++ tail)
          (fill_lem 64 k 56 marked (omega (arith, h)) (omega (arith, size, h)))
      ∙ append_assoc marked (zeros k) tail
      ∙ append_assoc s.buffer (0x80 ∷ []) (zeros k ++ tail) in
    rw room (
      ap (process_block s.state) bytes
      ∙ sym (
          ap (λ (t : Sha256). t.state)
            (full_chunk chunk s (omega (arith, h)) (omega (arith, h, chunk_size)))))

-- The padding of a buffer in which the length does not fit.
two_blocks :
    (s : Sha256) (k : ℕ)
    → length s.buffer + k ≡ 63
    → 55 < length s.buffer
    → last_block s ≡ (update_loop (0x80 ∷ (zeros (k + 56) ++ big_endian 8 s.bit_length)) s).state
unfolding last_block make_room
two_blocks s k h many =
    let marked = s.buffer ++ (0x80 ∷ []) in
    let size = length-append s.buffer (0x80 ∷ []) in
    let tail = big_endian 8 s.bit_length in
    let over : ltb 56 (length marked) ≡ true = ground (arith, size, many) in
    let front = 0x80 ∷ zeros k in
    let back = zeros 56 ++ tail in
    let front_bytes : fill 64 64 marked ≡ s.buffer ++ front =
      fill_lem 64 k 64 marked (omega (arith, h, many)) (omega (arith, size, h))
      ∙ append_assoc s.buffer (0x80 ∷ []) (zeros k) in
    let between : Sha256 = record s {
      state = process_block s.state (s.buffer ++ front);
      buffer = [];
    } in
    let back_bytes : push_length 8 s.bit_length (fill 64 56 []) ≡ back =
      push_length_lem 8 s.bit_length (fill 64 56 [])
      ∙ ap (λ (b : List ℕ). b ++ tail) (fill_lem 64 56 56 [] (omega arith) (omega arith)) in
    let whole : 0x80 ∷ (zeros (k + 56) ++ tail) ≡ front ++ back =
      ap (λ (zs : List ℕ). 0x80 ∷ (zs ++ tail)) (zeros_add k 56)
      ∙ ap (λ (zs : List ℕ). 0x80 ∷ zs) (append_assoc (zeros k) (zeros 56) tail) in
    let back_size : length back ≡ 64 =
      omega
        (arith, length-append (zeros 56) tail, length-zeros 56, length-big_endian 8 s.bit_length) in
    let fed : (update_loop (front ++ back) s).state ≡ process_block between.state back =
      ap (λ (t : Sha256). t.state) (update_loop-append front back s)
      ∙ ap (λ (t : Sha256). (update_loop back t).state)
          (full_chunk front s (omega (arith, h)) (omega (arith, h, length-zeros k)))
      ∙ ap (λ (t : Sha256). t.state)
          (full_chunk back between (omega arith) (omega (arith, back_size))) in
    rw over (
      ap
        (λ (b : List ℕ).
          process_block (process_block s.state b) (push_length 8 s.bit_length (fill 64 56 [])))
        front_bytes
      ∙ ap (process_block between.state) back_bytes
      ∙ sym (ap (λ (ys : List ℕ). (update_loop ys s).state) whole ∙ fed))

-- What `finish` writes is what the padding, byte by byte, would.
last_block-eq-padding :
    (s : Sha256) (size : ℕ)
    → length s.buffer ≡ size % 64
    → s.bit_length ≡ u64 (8 * size)
    → last_block s ≡ (update_loop (padding size) s).state
unfolding padding
last_block-eq-padding s size r e = elim (Bool-cases (ltb 55 (length s.buffer))) [
  | inl many ↦
      (let k = 63 - length s.buffer in
        let over : 55 < length s.buffer = ground (arith, many) in
        let amount : k + 56 ≡ (55 + 64 - size % 64) % 64 = omega (arith, r, over) in
        two_blocks s k (omega (arith, r)) over
        ∙ ap (λ (z : ℕ). (update_loop (0x80 ∷ (zeros z ++ big_endian 8 s.bit_length)) s).state)
            amount
        ∙ ap
            (λ (n : ℕ).
              (update_loop (0x80 ∷ (zeros ((55 + 64 - size % 64) % 64) ++ big_endian 8 n)) s).state)
            e)
  | inr few ↦
      (let k = 55 - length s.buffer in
        let room : length s.buffer ≤ 55 = ground (arith, few) in
        let amount : k ≡ (55 + 64 - size % 64) % 64 = omega (arith, r, room) in
        one_block s k (omega (arith, room))
        ∙ ap (λ (z : ℕ). (update_loop (0x80 ∷ (zeros z ++ big_endian 8 s.bit_length)) s).state)
            amount
        ∙ ap
            (λ (n : ℕ).
              (update_loop (0x80 ∷ (zeros ((55 + 64 - size % 64) % 64) ++ big_endian 8 n)) s).state)
            e)
]

length-padded : (message : List ℕ) → length (padded message) ≡ 64 * (length (padded message) / 64)
unfolding padded padding
length-padded message =
    let size = length message in
    let amount = (55 + 64 - size % 64) % 64 in
    let tail = big_endian 8 (u64 (8 * size)) in
    omega (
      arith,
      length-append message (0x80 ∷ (zeros amount ++ tail)),
      length-append (zeros amount) tail,
      length-zeros amount,
      length-big_endian 8 (u64 (8 * size)),
    )

-- The digest of any message is the one that the standard defines, in a description that uses none of
-- the code's functions and tables: the words after all blocks of the padded message, whose length field
-- holds the number of bits modulo 2^64, each block with its schedule of 64 words and 64 rounds, from the
-- initial hash value and the round constants that the standard takes from the square and cube roots of
-- the first primes.
pub sha256-eq-reference : (message : List ℕ) → sha256 message ≡ reference message
unfolding reference padded
sha256-eq-reference message =
    let taken = update_loop message fresh in
    let bits : ℕ = u64 (8 * length message) in
    let counted : Sha256 = record taken { bit_length = bits } in
    sha256_lem message
    ∙ ap digest_bytes (
        last_block-eq-padding counted (length message)
          (length-update_loop_mod message fresh (omega arith) ∙ omega arith) refl
        ∙ ap (λ (s : Sha256). s.state)
            (update_loop_bits (padding (length message)) taken bits
              ∙ ap (λ (s : Sha256). record s { bit_length = bits })
                  (sym (update_loop-append message (padding (length message)) fresh)))
        ∙ update_loop_blocks (length (padded message) / 64) (padded message) fresh refl
            (length-padded message)
        ∙ ap (λ (t : Words). hash_blocks (length (padded message) / 64) t (padded message))
            initial_same)
    ∙ digest_bytes-eq-message_digest _
