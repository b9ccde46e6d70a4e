-- ===== src/Sha256/Client/Same.antt =====
-- The two classes give the same digest, however the bytes come in.
use Prim.Native.Nat.{bit_and}
use super_voice.Base.{
  ℕ, zero, suc, ◌+◌, ◌-◌, ◌*◌, ◌^◌, ◌≤◌, ◌<◌, ◌≡◌, refl, sym, ap, ◌∙◌, inl, inr, true, false, List,
  [], ◌∷◌, ◌++◌, arith, length, length-append, Bool-cases, ltb, ◌==◌, min, take, drop,
  take-append-drop, length-take, length-drop,
}
use super_voice.Base.Result.{Result, ok, ◌>>=◌}
use super_voice.Base.Word.{u64, shr}
use super_voice.Sha256.{
  Words, Sha256, process_block, update_byte, update_loop, fill, load, add_words, last_block,
  digest_bytes, sha256, initial, fresh,
}
use super_voice.Sha256
use super_voice.Sha256.Client
use super_voice.Sha256.Client.{Hasher, transform, copy_loop, finalize, new}
use super_voice.Sha256.Feed.{
  length-flush, update_loop_chunk, update_loop-append, length-update_loop, update_loop_bits,
  sha256_lem,
}

next_word_same : (w : List ℕ) (i : ℕ) → Client.next_word w i ≡ Sha256.next_word w i
unfolding Client.next_word Sha256.next_word Sha256.small_sigma0 Sha256.small_sigma1
next_word_same w i = omega arith

extend_same : (n i : ℕ) (w : List ℕ) → Client.extend n i w ≡ Sha256.extend n i w
unfolding Client.extend Sha256.extend
extend_same zero i w = refl
extend_same (suc n) i w =
    ap (λ (x : ℕ). Client.extend n (i + 1) (w ++ (x ∷ []))) (next_word_same w i)
    ∙ extend_same n (i + 1) (w ++ (Sha256.next_word w i ∷ []))

compress_same : (w : List ℕ) (i : ℕ) (v : Words) → Client.compress w i v ≡ Sha256.compress w i v
unfolding Client.compress Sha256.compress Sha256.big_sigma0 Sha256.big_sigma1 Sha256.ch Sha256.maj
compress_same w i v = refl

compress_loop_same :
    (w : List ℕ) (n i : ℕ) (v : Words) → Client.compress_loop w n i v ≡ Sha256.compress_loop w n i v
unfolding Client.compress_loop Sha256.compress_loop
compress_loop_same w zero i v = refl
compress_loop_same w (suc n) i v =
    ap (Client.compress_loop w n (i + 1)) (compress_same w i v)
    ∙ compress_loop_same w n (i + 1) (Sha256.compress w i v)

-- The two ways to write a block are one function.
pub transform-eq-process_block :
    (v : Words) (block : List ℕ) → transform v block ≡ process_block v block
unfolding transform process_block
transform-eq-process_block v block = ap (add_words v) (
    ap (λ (w : List ℕ). Client.compress_loop w 64 0 v) (extend_same 48 16 (load block 16 0))
    ∙ compress_loop_same (Sha256.extend 48 16 (load block 16 0)) 64 0 v)

push_length_same :
    (n bits : ℕ) (buffer : List ℕ)
    → Client.push_length n bits buffer ≡ Sha256.push_length n bits buffer
unfolding Client.push_length Sha256.push_length
push_length_same zero bits buffer = refl
push_length_same (suc n) bits buffer =
    let product : n * 8 ≡ 8 * n = omega arith in
    rw product (push_length_same n bits (buffer ++ (bit_and (shr bits (8 * n)) 0xff ∷ [])))

-- A hasher as the other class holds it.
abbrev pub core : Hasher → Sha256
core s = record { state = s.state; buffer = s.buffer; bit_length = s.bit_count }

core-flush : (s : Hasher) → core (Client.flush s) ≡ Sha256.flush (core s)
unfolding Client.flush Sha256.flush
core-flush s = elim (Bool-cases (length s.buffer == 64)) [
  | inl full ↦ rw (full, transform-eq-process_block s.state s.buffer) refl
  | inr less ↦ rw less refl
]

-- Copying what fits is feeding the bytes one by one.
core-copy_loop :
    (fuel : ℕ) (rest : List ℕ) (s : Hasher)
    → length s.buffer < 64
    → length rest ≤ fuel
    → core (copy_loop fuel rest s) ≡ update_loop rest (core s)
unfolding copy_loop update_loop
core-copy_loop zero [] s less h = refl
core-copy_loop zero (x ∷ xs) s less h = absurd (omega (arith, h))
core-copy_loop (suc fuel) [] s less h = refl
core-copy_loop (suc fuel) (x ∷ xs) s less h =
    let n = min (length (x ∷ xs)) (64 - length s.buffer) in
    let chunk = take n (x ∷ xs) in
    let filled : Hasher = record s { buffer = s.buffer ++ chunk } in
    let count = length-take n (x ∷ xs) in
    let size = length-append s.buffer chunk in
    let one_chunk = update_loop_chunk chunk (core s) less (omega (arith, count)) in
    let flushed = core-flush filled in
    let rest = drop n (x ∷ xs) in
    let shorter : length (Client.flush filled).buffer < 64 = omega (
      arith,
      ap (λ (t : Sha256). length t.buffer) flushed,
      length-flush (core filled) (omega (arith, size, count)),
    ) in
    core-copy_loop fuel rest (Client.flush filled) shorter
      (omega (arith, h, length-drop n (x ∷ xs)))
    ∙ ap (update_loop rest) (flushed ∙ sym one_chunk)
    ∙ sym (update_loop-append chunk rest (core s))
    ∙ ap (λ (ys : List ℕ). update_loop ys (core s)) (take-append-drop n (x ∷ xs))

core-make_room : (s : Hasher) → core (Client.make_room s) ≡ Sha256.make_room (core s)
unfolding Client.make_room Sha256.make_room
core-make_room s = elim (Bool-cases (ltb 56 (length s.buffer))) [
  | inl over ↦ rw (over, transform-eq-process_block s.state (fill 64 64 s.buffer)) refl
  | inr room ↦ rw room refl
]

finalize_same :
    (s : Hasher) → s.finalized ≡ false → (finalize s).0 ≡ digest_bytes (last_block (core s))
unfolding finalize last_block
finalize_same s open_ =
    let marked : Hasher = record s { finalized = true; buffer = s.buffer ++ (0x80 ∷ []) } in
    let room = core-make_room marked in
    let m = Client.make_room marked in
    rw open_ (
      ap digest_bytes (
        transform-eq-process_block m.state (Client.push_length 8 s.bit_count (fill 64 56 m.buffer))
        ∙ ap (process_block m.state) (push_length_same 8 s.bit_count (fill 64 56 m.buffer))
        ∙ ap
            (λ (t : Sha256).
              process_block t.state (Sha256.push_length 8 s.bit_count (fill 64 56 t.buffer)))
            room))

-- Calls of `update` with each piece.
pub feed : List (List ℕ) → Hasher → Result Hasher
feed [] s = ok s
feed (piece ∷ pieces) s = Client.update piece s >>= λ t. feed pieces t

pub joined : List (List ℕ) → List ℕ
joined [] = []
joined (piece ∷ pieces) = piece ++ joined pieces

-- A hasher that took these bytes.
abbrev After : List ℕ → Sha256 → Hasher → Type 0
After bytes s h =
    (core h ≡ record (update_loop bytes s) { bit_length = u64 (s.bit_length + 8 * length bytes) })
    × (h.finalized ≡ false)

flush_open : (s : Hasher) → (Client.flush s).finalized ≡ s.finalized
unfolding Client.flush
flush_open s = ground arith

copy_loop_open :
    (fuel : ℕ) (rest : List ℕ) (s : Hasher) → (copy_loop fuel rest s).finalized ≡ s.finalized
unfolding copy_loop
copy_loop_open zero rest s = refl
copy_loop_open (suc fuel) [] s = refl
copy_loop_open (suc fuel) (x ∷ xs) s =
    let n = min (length (x ∷ xs)) (64 - length s.buffer) in
    let filled : Hasher = record s { buffer = s.buffer ++ take n (x ∷ xs) } in
    copy_loop_open fuel (drop n (x ∷ xs)) (Client.flush filled) ∙ flush_open filled

update_open :
    (piece : List ℕ) (s : Hasher)
    → s.finalized ≡ false
    → Client.update piece s
      ≡ ok (
          copy_loop
            (length piece)
            piece
            (record s { bit_count = u64 (s.bit_count + length piece * 8) }))
unfolding Client.update
update_open piece s open_ = ground (arith, open_)

feed-After :
    (pieces : List (List ℕ)) (s : Hasher)
    → s.finalized ≡ false
    → length s.buffer < 64
    → s.bit_count < 2 ^ 64
    → (h : Hasher) × (feed pieces s ≡ ok h) × After (joined pieces) (core s) h
unfolding feed joined update_loop
feed-After [] s open_ less small =
    (s, refl, (ap (λ (n : ℕ). record (core s) { bit_length = n }) (omega (arith, small)), open_))
feed-After (piece ∷ pieces) s open_ less small =
    let counted : Hasher = record s { bit_count = u64 (s.bit_count + length piece * 8) } in
    let t = copy_loop (length piece) piece counted in
    let taken =
      core-copy_loop (length piece) piece counted less (omega arith)
      ∙ update_loop_bits piece (core s) counted.bit_count in
    let shorter : length t.buffer < 64 =
      omega (
        arith,
        ap (λ (x : Sha256). length x.buffer) taken,
        length-update_loop piece (core s) less,
      ) in
    let more = joined pieces in
    let bits : ℕ = u64 (s.bit_count + length piece * 8) in
    let (h, fed, after) =
      feed-After pieces t (copy_loop_open (length piece) piece counted ∙ open_) shorter
        (omega (arith, ap (λ (x : Sha256). x.bit_length) taken)) in
    (
      h,
      ap (λ (r : Result Hasher). r >>= λ x. feed pieces x) (update_open piece s open_) ∙ fed,
      (
        after.0
            ∙ ap
                (λ (y : Sha256). record (update_loop more y) {
                  bit_length = u64 (y.bit_length + 8 * length more);
                })
                taken
            ∙ ap (λ (y : Sha256). record y { bit_length = u64 (bits + 8 * length more) })
                (update_loop_bits more (update_loop piece (core s)) bits)
            ∙ ap (λ (y : Sha256). record y { bit_length = u64 (bits + 8 * length more) })
                (sym (update_loop-append piece more (core s)))
            ∙ ap (λ (n : ℕ). record (update_loop (piece ++ more) (core s)) { bit_length = n })
                (omega (arith, length-append piece more)),
        after.1,
      ),
    )

-- However a file is cut into pieces, the client's hasher takes them all, and its digest is the one that
-- the `sha256` of the protocol gives for the whole.
pub finalize-feed :
    (pieces : List (List ℕ))
    → (h : Hasher) × (feed pieces new ≡ ok h) × ((finalize h).0 ≡ sha256 (joined pieces))
finalize-feed pieces =
    let (h, fed, after) = feed-After pieces new refl (omega arith) (omega arith) in
    (
      h,
      fed,
      finalize_same h after.1
          ∙ ap (λ (s : Sha256). digest_bytes (last_block s))
              (after.0
                ∙ ap (λ (n : ℕ). record (update_loop (joined pieces) fresh) { bit_length = n })
                    (omega arith))
          ∙ sym (sha256_lem (joined pieces)),
    )
