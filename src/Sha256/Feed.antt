-- ===== src/Sha256/Feed.antt =====
-- Bytes that fit the buffer can go in at once.
use mathlib.Core.List.{append-nil, append_assoc}
use super_voice.Base.{
  ℕ, zero, suc, ◌+◌, ◌*◌, ◌%◌, ◌^◌, ◌≤◌, ◌<◌, ◌≡◌, refl, sym, ap, ◌∙◌, inl, inr, true, false, List,
  [], ◌∷◌, ◌++◌, arith, length, length-append, nil_of_length, Bool-cases, ltb, ◌==◌, replicate,
}
use super_voice.Base.Word.{u64}
use super_voice.Sha256.{
  Sha256, process_block, flush, update_byte, update_loop, update, fill, fresh, digest, finish,
  sha256, digest_bytes, last_block,
}

pub flush_full :
    (s : Sha256)
    → length s.buffer ≡ 64
    → flush s ≡ record s { state = process_block s.state s.buffer; buffer = [] }
unfolding flush
flush_full s h = let full : (length s.buffer == 64) ≡ true = ground (arith, h) in rw full refl

pub flush_partial : (s : Sha256) → length s.buffer < 64 → flush s ≡ s
unfolding flush
flush_partial s h = let less : (length s.buffer == 64) ≡ false = ground (arith, h) in rw less refl

pub length-flush : (s : Sha256) → length s.buffer ≤ 64 → length (flush s).buffer < 64
unfolding flush
length-flush s h = elim (Bool-cases (length s.buffer == 64)) [
  | inl full ↦ rw full (omega arith)
  | inr less ↦ rw less (ground (arith, less))
]

pub update_loop_chunk :
    (chunk : List ℕ) (s : Sha256)
    → length s.buffer < 64
    → length s.buffer + length chunk ≤ 64
    → update_loop chunk s ≡ flush (record s { buffer = s.buffer ++ chunk })
unfolding update_loop update_byte
update_loop_chunk [] s less h =
    sym (flush_partial s less)
    ∙ ap (λ (b : List ℕ). flush (record s { buffer = b })) (sym (append-nil s.buffer))
update_loop_chunk (x ∷ chunk) s less h =
    let s1 : Sha256 = record s { buffer = s.buffer ++ (x ∷ []) } in
    let more = length-append s.buffer (x ∷ []) in
    elim (Bool-cases (ltb (length s1.buffer) 64)) [
      | inl room ↦
          ap (update_loop chunk) (flush_partial s1 (ground (arith, room)))
          ∙ update_loop_chunk chunk s1 (ground (arith, room)) (omega (arith, more, h))
          ∙ ap (λ (b : List ℕ). flush (record s { buffer = b }))
              (append_assoc s.buffer (x ∷ []) chunk)
      | inr full ↦
          let at_end : chunk ≡ [] = nil_of_length chunk (ground (arith, full, more, h)) in
          rw at_end refl
    ]

pub update_loop-append :
    (xs ys : List ℕ) (s : Sha256) → update_loop (xs ++ ys) s ≡ update_loop ys (update_loop xs s)
unfolding update_loop
update_loop-append [] ys s = refl
update_loop-append (x ∷ xs) ys s = update_loop-append xs ys (update_byte s x)

pub length-update_loop :
    (xs : List ℕ) (s : Sha256) → length s.buffer < 64 → length (update_loop xs s).buffer < 64
unfolding update_loop update_byte
length-update_loop [] s h = h
length-update_loop (x ∷ xs) s h = length-update_loop xs (update_byte s x) (
    length-flush (record s { buffer = s.buffer ++ (x ∷ []) })
      (omega (arith, length-append s.buffer (x ∷ []))))

-- The loop adds the zeros that are missing.
pub fill_lem :
    (fuel k target : ℕ) (buffer : List ℕ)
    → k ≤ fuel
    → length buffer + k ≡ target
    → fill fuel target buffer ≡ buffer ++ replicate k 0
unfolding fill
fill_lem zero zero target buffer h e = sym (append-nil buffer)
fill_lem zero (suc k) target buffer h e = absurd (omega (arith, h))
fill_lem (suc fuel) zero target buffer h e =
    let there : ltb (length buffer) target ≡ false = ground (arith, e) in
    rw there (sym (append-nil buffer))
fill_lem (suc fuel) (suc k) target buffer h e =
    let short : ltb (length buffer) target ≡ true = ground (arith, e) in
    rw short (
      fill_lem fuel k target (buffer ++ (0 ∷ [])) (omega (arith, h))
        (omega (arith, e, length-append buffer (0 ∷ [])))
      ∙ append_assoc buffer (0 ∷ []) (replicate k 0))

-- The count of bits goes along unread.
update_byte_bits :
    (s : Sha256) (x n : ℕ)
    → update_byte (record s { bit_length = n }) x ≡ record (update_byte s x) { bit_length = n }
unfolding update_byte flush
update_byte_bits s x n = elim (Bool-cases (length (s.buffer ++ (x ∷ [])) == 64)) [
  | inl full ↦ rw full refl
  | inr less ↦ rw less refl
]

pub update_loop_bits :
    (xs : List ℕ) (s : Sha256) (n : ℕ)
    → update_loop xs (record s { bit_length = n }) ≡ record (update_loop xs s) { bit_length = n }
unfolding update_loop
update_loop_bits [] s n = refl
update_loop_bits (x ∷ xs) s n =
    ap (update_loop xs) (update_byte_bits s x n) ∙ update_loop_bits xs (update_byte s x) n

update-fresh :
    (bytes : List ℕ)
    → update bytes fresh ≡ record (update_loop bytes fresh) { bit_length = u64 (8 * length bytes) }
unfolding update
update-fresh bytes =
    update_loop_bits bytes fresh (u64 (0 + length bytes * 2 ^ 3 % 2 ^ 64))
    ∙ ap (λ (n : ℕ). record (update_loop bytes fresh) { bit_length = n }) (omega arith)

pub sha256_lem :
    (bytes : List ℕ)
    → sha256 bytes
      ≡ digest_bytes
          (last_block (record (update_loop bytes fresh) { bit_length = u64 (8 * length bytes) }))
unfolding sha256 digest finish
sha256_lem bytes = ap (λ (s : Sha256). digest_bytes (last_block s)) (update-fresh bytes)

length-update_byte :
    (s : Sha256) (x : ℕ)
    → length s.buffer < 64
    → length (update_byte s x).buffer ≡ (length s.buffer + 1) % 64
unfolding update_byte flush
length-update_byte s x h =
    let size = length-append s.buffer (x ∷ []) in
    elim (Bool-cases (length (s.buffer ++ (x ∷ [])) == 64)) [
      | inl full ↦ rw full (ground (arith, full, size))
      | inr less ↦ rw less (ground (arith, less, size, h))
    ]

-- How full the buffer is.
pub length-update_loop_mod :
    (xs : List ℕ) (s : Sha256)
    → length s.buffer < 64
    → length (update_loop xs s).buffer ≡ (length s.buffer + length xs) % 64
unfolding update_loop
length-update_loop_mod [] s h = omega (arith, h)
length-update_loop_mod (x ∷ xs) s h =
    let one = length-update_byte s x h in
    length-update_loop_mod xs (update_byte s x) (omega (arith, one)) ∙ omega (arith, one)
