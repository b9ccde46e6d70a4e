-- ===== src/Sha256.antt =====
-- `class Sha256` of FileRelay_.server/common/bytes.hpp. The buffer is the list of its first
-- `buffer_length_` bytes: what is behind them is never read.
use Prim.Native.Nat.{bit_and, bit_or, bit_xor}
use super_voice.Base.{
  ℕ, zero, suc, ◌+◌, ◌-◌, ◌*◌, Bool, List, [], ◌∷◌, ◌++◌, ltb, ◌==◌, if◌then◌else◌, length, get_or,
}
use super_voice.Base.Word.{u32, u64, shr, shl, not32}
pub mod Client
pub mod Feed
pub mod Reference
pub mod Standard
mod Tests

pub rotr : ℕ → ℕ → ℕ
rotr value bits = bit_or (shr value bits) (shl 32 value (32 - bits))

pub ch : ℕ → ℕ → ℕ → ℕ
ch x y z = bit_xor (bit_and x y) (bit_and (not32 x) z)

pub maj : ℕ → ℕ → ℕ → ℕ
maj x y z = bit_xor (bit_xor (bit_and x y) (bit_and x z)) (bit_and y z)

pub big_sigma0 : ℕ → ℕ
unfolding rotr
big_sigma0 x = bit_xor (bit_xor (rotr x 2) (rotr x 13)) (rotr x 22)

pub big_sigma1 : ℕ → ℕ
unfolding rotr
big_sigma1 x = bit_xor (bit_xor (rotr x 6) (rotr x 11)) (rotr x 25)

pub small_sigma0 : ℕ → ℕ
unfolding rotr
small_sigma0 x = bit_xor (bit_xor (rotr x 7) (rotr x 18)) (shr x 3)

pub small_sigma1 : ℕ → ℕ
unfolding rotr
small_sigma1 x = bit_xor (bit_xor (rotr x 17) (rotr x 19)) (shr x 10)

-- Eight words: `state_`, or the variables of a block.
pub record Words : Type 0 where
  pub a : ℕ
  pub b : ℕ
  pub c : ℕ
  pub d : ℕ
  pub e : ℕ
  pub f : ℕ
  pub g : ℕ
  pub h : ℕ

abbrev pub initial : Words
initial = record {
  a = 0x6a09e667;
  b = 0xbb67ae85;
  c = 0x3c6ef372;
  d = 0xa54ff53a;
  e = 0x510e527f;
  f = 0x9b05688c;
  g = 0x1f83d9ab;
  h = 0x5be0cd19;
}

pub round_constants : List ℕ
round_constants =
    0x428a2f98 ∷ 0x71374491 ∷ 0xb5c0fbcf ∷ 0xe9b5dba5 ∷ 0x3956c25b ∷ 0x59f111f1 ∷ 0x923f82a4
    ∷ 0xab1c5ed5 ∷ 0xd807aa98 ∷ 0x12835b01 ∷ 0x243185be ∷ 0x550c7dc3 ∷ 0x72be5d74 ∷ 0x80deb1fe
    ∷ 0x9bdc06a7 ∷ 0xc19bf174 ∷ 0xe49b69c1 ∷ 0xefbe4786 ∷ 0x0fc19dc6 ∷ 0x240ca1cc ∷ 0x2de92c6f
    ∷ 0x4a7484aa ∷ 0x5cb0a9dc ∷ 0x76f988da ∷ 0x983e5152 ∷ 0xa831c66d ∷ 0xb00327c8 ∷ 0xbf597fc7
    ∷ 0xc6e00bf3 ∷ 0xd5a79147 ∷ 0x06ca6351 ∷ 0x14292967 ∷ 0x27b70a85 ∷ 0x2e1b2138 ∷ 0x4d2c6dfc
    ∷ 0x53380d13 ∷ 0x650a7354 ∷ 0x766a0abb ∷ 0x81c2c92e ∷ 0x92722c85 ∷ 0xa2bfe8a1 ∷ 0xa81a664b
    ∷ 0xc24b8b70 ∷ 0xc76c51a3 ∷ 0xd192e819 ∷ 0xd6990624 ∷ 0xf40e3585 ∷ 0x106aa070 ∷ 0x19a4c116
    ∷ 0x1e376c08 ∷ 0x2748774c ∷ 0x34b0bcb5 ∷ 0x391c0cb3 ∷ 0x4ed8aa4a ∷ 0x5b9cca4f ∷ 0x682e6ff3
    ∷ 0x748f82ee ∷ 0x78a5636f ∷ 0x84c87814 ∷ 0x8cc70208 ∷ 0x90befffa ∷ 0xa4506ceb ∷ 0xbef9a3f7
    ∷ 0xc67178f2 ∷ []

-- The bytes of a word, the high one first.
pub word_at : List ℕ → ℕ → ℕ
word_at block i =
    bit_or
      (bit_or (bit_or (shl 32 (get_or block (i * 4) 0) 24) (shl 32 (get_or block (i * 4 + 1) 0) 16))
        (shl 32 (get_or block (i * 4 + 2) 0) 8))
      (get_or block (i * 4 + 3) 0)

-- The first loop of `process_block`, with `n` rounds left.
pub load : List ℕ → ℕ → ℕ → List ℕ
unfolding word_at
load block zero i = []
load block (suc n) i = word_at block i ∷ load block n (i + 1)

pub next_word : List ℕ → ℕ → ℕ
unfolding small_sigma0 small_sigma1
next_word w i = u32 (
    small_sigma1 (get_or w (i - 2) 0)
    + get_or w (i - 7) 0
    + small_sigma0 (get_or w (i - 15) 0)
    + get_or w (i - 16) 0)

-- The second loop, which fills the list of words from index `i` on.
pub extend : ℕ → ℕ → List ℕ → List ℕ
unfolding next_word
extend zero i w = w
extend (suc n) i w = extend n (i + 1) (w ++ (next_word w i ∷ []))

-- One round of the third loop.
pub compress : List ℕ → ℕ → Words → Words
unfolding big_sigma0 big_sigma1 ch maj round_constants
compress w i v =
    let temp1 =
      u32 (v.h + big_sigma1 v.e + ch v.e v.f v.g + get_or round_constants i 0 + get_or w i 0) in
    let temp2 = u32 (big_sigma0 v.a + maj v.a v.b v.c) in
    record {
      a = u32 (temp1 + temp2);
      b = v.a;
      c = v.b;
      d = v.c;
      e = u32 (v.d + temp1);
      f = v.e;
      g = v.f;
      h = v.g;
    }

pub compress_loop : List ℕ → ℕ → ℕ → Words → Words
unfolding compress
compress_loop w zero i v = v
compress_loop w (suc n) i v = compress_loop w n (i + 1) (compress w i v)

pub add_words : Words → Words → Words
add_words s v = record {
  a = u32 (s.a + v.a);
  b = u32 (s.b + v.b);
  c = u32 (s.c + v.c);
  d = u32 (s.d + v.d);
  e = u32 (s.e + v.e);
  f = u32 (s.f + v.f);
  g = u32 (s.g + v.g);
  h = u32 (s.h + v.h);
}

pub process_block : Words → List ℕ → Words
process_block state block =
    add_words state (compress_loop (extend 48 16 (load block 16 0)) 64 0 state)

pub record Sha256 : Type 0 where
  pub state : Words
  pub buffer : List ℕ
  pub bit_length : ℕ

abbrev pub fresh : Sha256
fresh = record { state = initial; buffer = []; bit_length = 0 }

-- `if (buffer_length_ == 64)`
pub flush : Sha256 → Sha256
flush s =
    if length s.buffer == 64
    then record s { state = process_block s.state s.buffer; buffer = [] }
    else s

pub update_byte : Sha256 → ℕ → Sha256
update_byte s byte = flush (record s { buffer = s.buffer ++ (byte ∷ []) })

pub update_loop : List ℕ → Sha256 → Sha256
update_loop [] s = s
update_loop (byte ∷ bytes) s = update_loop bytes (update_byte s byte)

pub update : List ℕ → Sha256 → Sha256
update bytes s =
    update_loop bytes (record s { bit_length = u64 (s.bit_length + shl 64 (length bytes) 3) })

-- `while (buffer_length_ < target) buffer_[buffer_length_++] = 0;` with fuel: each round adds a byte.
pub fill : ℕ → ℕ → List ℕ → List ℕ
fill zero target buffer = buffer
fill (suc fuel) target buffer =
    let rest = fill fuel target (buffer ++ (0 ∷ [])) in
    if ltb (length buffer) target then rest else buffer

-- The loop over the shifts from `8 * (n - 1)` down to 0.
pub push_length : ℕ → ℕ → List ℕ → List ℕ
push_length zero bits buffer = buffer
push_length (suc n) bits buffer =
    push_length n bits (buffer ++ (bit_and (shr bits (8 * n)) 0xff ∷ []))

pub word_bytes : ℕ → List ℕ
word_bytes x =
    bit_and (shr x 24) 0xff ∷ bit_and (shr x 16) 0xff ∷ bit_and (shr x 8) 0xff ∷ bit_and x 0xff ∷ []

pub digest_bytes : Words → List ℕ
unfolding word_bytes
digest_bytes s =
    word_bytes s.a
    ++ (word_bytes s.b
        ++ (word_bytes s.c
            ++ (word_bytes s.d
                ++ (word_bytes s.e ++ (word_bytes s.f ++ (word_bytes s.g ++ word_bytes s.h))))))

-- `finish` up to the digest: room for the length is made first.
pub make_room : Sha256 → Sha256
make_room s =
    if ltb 56 (length s.buffer)
    then record s { state = process_block s.state (fill 64 64 s.buffer); buffer = [] }
    else s

pub last_block : Sha256 → Words
last_block s =
    let marked = make_room (record s { buffer = s.buffer ++ (0x80 ∷ []) }) in
    process_block marked.state (push_length 8 s.bit_length (fill 64 56 marked.buffer))

pub finish : Sha256 → List ℕ × Sha256
finish s = (digest_bytes (last_block s), fresh)

pub digest : List ℕ → Sha256 → List ℕ × Sha256
digest bytes s = finish (update bytes fresh)

pub sha256 : List ℕ → List ℕ
sha256 bytes = (digest bytes fresh).0
