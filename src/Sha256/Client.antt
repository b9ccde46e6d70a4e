-- ===== src/Sha256/Client.antt =====
-- `class Sha256` of FileRelay_.server/Client/src/compressor.hpp, which copies what fits the buffer and
-- can be read after its end.
pub mod Same
use Prim.Native.Nat.{bit_and, bit_xor}
use super_voice.Base.{
  ℕ, zero, suc, ◌+◌, ◌-◌, ◌*◌, min, Bool, true, false, List, [], ◌∷◌, ◌++◌, ltb, ◌==◌,
  if◌then◌else◌, length, get_or, take, drop,
}
use super_voice.Base.Result.{Result, ok, err, logic_error}
use super_voice.Base.Word.{u32, u64, shr, not32}
use super_voice.Sha256.{Words, initial, rotr, round_constants, load, add_words, digest_bytes, fill}

pub record Hasher : Type 0 where
  pub state : Words
  pub buffer : List ℕ
  pub bit_count : ℕ
  pub finalized : Bool

abbrev pub new : Hasher
new = record { state = initial; buffer = []; bit_count = 0; finalized = false }

pub next_word : List ℕ → ℕ → ℕ
next_word w i =
    let x = get_or w (i - 15) 0 in
    let y = get_or w (i - 2) 0 in
    let s0 = bit_xor (bit_xor (rotr x 7) (rotr x 18)) (shr x 3) in
    let s1 = bit_xor (bit_xor (rotr y 17) (rotr y 19)) (shr y 10) in
    u32 (get_or w (i - 16) 0 + s0 + get_or w (i - 7) 0 + s1)

pub extend : ℕ → ℕ → List ℕ → List ℕ
unfolding next_word
extend zero i w = w
extend (suc n) i w = extend n (i + 1) (w ++ (next_word w i ∷ []))

pub compress : List ℕ → ℕ → Words → Words
compress w i v =
    let s1 = bit_xor (bit_xor (rotr v.e 6) (rotr v.e 11)) (rotr v.e 25) in
    let choice = bit_xor (bit_and v.e v.f) (bit_and (not32 v.e) v.g) in
    let temp1 = u32 (v.h + s1 + choice + get_or round_constants i 0 + get_or w i 0) in
    let s0 = bit_xor (bit_xor (rotr v.a 2) (rotr v.a 13)) (rotr v.a 22) in
    let majority = bit_xor (bit_xor (bit_and v.a v.b) (bit_and v.a v.c)) (bit_and v.b v.c) in
    let temp2 = u32 (s0 + majority) in
    record {
      a = u32 (temp1 + temp2);
      b = v.a;
      c = v.b;
      d = v.c;
      e = u32 (v.d + temp1);
      f = v.e;
      g = v.f;
      h = v.g;
    }

pub compress_loop : List ℕ → ℕ → ℕ → Words → Words
unfolding compress
compress_loop w zero i v = v
compress_loop w (suc n) i v = compress_loop w n (i + 1) (compress w i v)

pub transform : Words → List ℕ → Words
transform state block = add_words state (compress_loop (extend 48 16 (load block 16 0)) 64 0 state)

-- `if (buffer_size_ == buffer_.size())`
pub flush : Hasher → Hasher
flush s =
    if length s.buffer == 64
    then record s { state = transform s.state s.buffer; buffer = [] }
    else s

-- The loop of `update` over the bytes that are left, with fuel: each round takes one at least.
pub copy_loop : ℕ → List ℕ → Hasher → Hasher
copy_loop zero rest s = s
copy_loop (suc fuel) [] s = s
copy_loop (suc fuel) (byte ∷ bytes) s =
    let to_copy = min (length (byte ∷ bytes)) (64 - length s.buffer) in
    copy_loop fuel (drop to_copy (byte ∷ bytes))
      (flush (record s { buffer = s.buffer ++ take to_copy (byte ∷ bytes) }))

pub update : List ℕ → Hasher → Result Hasher
update bytes s =
    if s.finalized
    then err logic_error
    else ok (
        copy_loop (length bytes) bytes
          (record s { bit_count = u64 (s.bit_count + length bytes * 8) }))

pub push_length : ℕ → ℕ → List ℕ → List ℕ
push_length zero bits buffer = buffer
push_length (suc n) bits buffer =
    push_length n bits (buffer ++ (bit_and (shr bits (n * 8)) 0xff ∷ []))

pub make_room : Hasher → Hasher
make_room s =
    if ltb 56 (length s.buffer)
    then record s { state = transform s.state (fill 64 64 s.buffer); buffer = [] }
    else s

pub finalize : Hasher → List ℕ × Hasher
finalize s =
    let marked = make_room (record s { finalized = true; buffer = s.buffer ++ (0x80 ∷ []) }) in
    let full = push_length 8 s.bit_count (fill 64 56 marked.buffer) in
    let ended : Hasher =
      if s.finalized
      then s
      else record marked { state = transform marked.state full; buffer = full } in
    (digest_bytes ended.state, ended)
