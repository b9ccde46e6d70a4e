-- ===== src/Sha256/Standard.antt =====
-- The compression of a block as FIPS 180-4 writes it, with the standard's own constants, and that
-- `process_block` of the code computes it.
use Prim.Native.Nat.{bit_and, bit_or, bit_xor}
use super_voice.Base.{
  ℕ, zero, suc, ◌+◌, ◌-◌, ◌*◌, ◌/◌, ◌%◌, ◌^◌, ◌≤◌, ◌≡◌, refl, sym, ap, ◌∙◌, false, List, [], ◌∷◌,
  ◌++◌, arith, get_or, if◌then◌else◌, ltb, leb, le→ltb,
}
use super_voice.Base.Bits.{bit_and_byte}
use super_voice.Sha256.{
  Words, initial, process_block, compress_loop, compress, extend, load, next_word, add_words,
  round_constants, word_bytes, digest_bytes, big_sigma0, big_sigma1, small_sigma0, small_sigma1, ch,
  maj, rotr, word_at,
}

-- The integer root of degree `e` of `value` above `acc`, bit by bit from bit `n - 1` on.
abbrev root : ℕ → ℕ → ℕ → ℕ → ℕ
root e zero value acc = acc
root e (suc n) value acc =
    root e n value (if leb ((acc + 2 ^ n) ^ e) value then acc + 2 ^ n else acc)

-- The first 32 bits of the fractional part of the root of degree `e`.
abbrev fraction : ℕ → ℕ → ℕ
fraction e p = root e 36 (p * 2 ^ (32 * e)) 0 % 2 ^ 32

-- The first 64 primes.
abbrev primes : List ℕ
primes =
    2 ∷ 3 ∷ 5 ∷ 7 ∷ 11 ∷ 13 ∷ 17 ∷ 19 ∷ 23 ∷ 29 ∷ 31 ∷ 37 ∷ 41 ∷ 43 ∷ 47 ∷ 53 ∷ 59 ∷ 61 ∷ 67 ∷ 71
    ∷ 73 ∷ 79 ∷ 83 ∷ 89 ∷ 97 ∷ 101 ∷ 103 ∷ 107 ∷ 109 ∷ 113 ∷ 127 ∷ 131 ∷ 137 ∷ 139 ∷ 149 ∷ 151 ∷ 157
    ∷ 163 ∷ 167 ∷ 173 ∷ 179 ∷ 181 ∷ 191 ∷ 193 ∷ 197 ∷ 199 ∷ 211 ∷ 223 ∷ 227 ∷ 229 ∷ 233 ∷ 239 ∷ 241
    ∷ 251 ∷ 257 ∷ 263 ∷ 269 ∷ 271 ∷ 277 ∷ 281 ∷ 283 ∷ 293 ∷ 307 ∷ 311 ∷ []

abbrev fractions : ℕ → List ℕ → List ℕ
fractions e [] = []
fractions e (p ∷ ps) = fraction e p ∷ fractions e ps

-- The constant of round `t`: of the cube root of the prime `t`.
abbrev pub constants : List ℕ
constants = fractions 3 primes

-- The initial hash value: of the square roots of the first eight primes.
abbrev pub initial_hash : Words
initial_hash = record {
  a = fraction 2 2;
  b = fraction 2 3;
  c = fraction 2 5;
  d = fraction 2 7;
  e = fraction 2 11;
  f = fraction 2 13;
  g = fraction 2 17;
  h = fraction 2 19;
}

constants_same : round_constants ≡ constants
unfolding round_constants
constants_same = refl

pub initial_same : initial ≡ initial_hash
initial_same = refl

-- The rotation of 32 bits to the right.
abbrev rotated : ℕ → ℕ → ℕ
rotated n x = bit_or (x / 2 ^ n) (x * 2 ^ (32 - n) % 2 ^ 32)

abbrev choice : ℕ → ℕ → ℕ → ℕ
choice x y z = bit_xor (bit_and x y) (bit_and (2 ^ 32 - 1 - x % 2 ^ 32) z)

abbrev majority : ℕ → ℕ → ℕ → ℕ
majority x y z = bit_xor (bit_xor (bit_and x y) (bit_and x z)) (bit_and y z)

-- The functions that the standard writes with a sigma, of two or three rotations and a shift.
abbrev three : ℕ → ℕ → ℕ → ℕ → ℕ
three i j k x = bit_xor (bit_xor (rotated i x) (rotated j x)) (rotated k x)

abbrev two : ℕ → ℕ → ℕ → ℕ → ℕ
two i j k x = bit_xor (bit_xor (rotated i x) (rotated j x)) (x / 2 ^ k)

-- The big-endian word `t` of a block.
abbrev message_word : List ℕ → ℕ → ℕ
message_word block t =
    bit_or
      (bit_or
        (bit_or (get_or block (t * 4) 0 * 2 ^ 24 % 2 ^ 32)
          (get_or block (t * 4 + 1) 0 * 2 ^ 16 % 2 ^ 32))
        (get_or block (t * 4 + 2) 0 * 2 ^ 8 % 2 ^ 32))
      (get_or block (t * 4 + 3) 0)

-- The word `t` of the message schedule, from those before it.
abbrev scheduled : List ℕ → List ℕ → ℕ → ℕ
scheduled block w t =
    if ltb t 16
    then message_word block t
    else (two 17 19 10 (get_or w (t - 2) 0)
        + get_or w (t - 7) 0
        + two 7 18 3 (get_or w (t - 15) 0)
        + get_or w (t - 16) 0)
      % 2 ^ 32

-- The first `t` words of the message schedule.
pub schedule : List ℕ → ℕ → List ℕ
schedule block zero = []
schedule block (suc t) = schedule block t ++ (scheduled block (schedule block t) t ∷ [])

abbrev round : ℕ → ℕ → Words → Words
round k w v =
    let t1 = (v.h + three 6 11 25 v.e + choice v.e v.f v.g + k + w) % 2 ^ 32 in
    let t2 = (three 2 13 22 v.a + majority v.a v.b v.c) % 2 ^ 32 in
    record {
      a = (t1 + t2) % 2 ^ 32;
      b = v.a;
      c = v.b;
      d = v.c;
      e = (v.d + t1) % 2 ^ 32;
      f = v.e;
      g = v.f;
      h = v.g;
    }

-- The working variables after the rounds before `t`.
pub rounds : List ℕ → Words → ℕ → Words
rounds w v zero = v
rounds w v (suc t) = round (get_or constants t 0) (get_or w t 0) (rounds w v t)

abbrev sum : Words → Words → Words
sum s v = record {
  a = (s.a + v.a) % 2 ^ 32;
  b = (s.b + v.b) % 2 ^ 32;
  c = (s.c + v.c) % 2 ^ 32;
  d = (s.d + v.d) % 2 ^ 32;
  e = (s.e + v.e) % 2 ^ 32;
  f = (s.f + v.f) % 2 ^ 32;
  g = (s.g + v.g) % 2 ^ 32;
  h = (s.h + v.h) % 2 ^ 32;
}

-- The hash value after a block.
pub hash_block : Words → List ℕ → Words
hash_block s block = sum s (rounds (schedule block 64) s 64)

-- The bytes of a word, the high one first.
abbrev word_octets : ℕ → List ℕ
word_octets x = x / 2 ^ 24 % 2 ^ 8 ∷ x / 2 ^ 16 % 2 ^ 8 ∷ x / 2 ^ 8 % 2 ^ 8 ∷ x % 2 ^ 8 ∷ []

abbrev pub message_digest : Words → List ℕ
message_digest s =
    word_octets s.a
    ++ (word_octets s.b
        ++ (word_octets s.c
            ++ (word_octets s.d
                ++ (word_octets s.e ++ (word_octets s.f ++ (word_octets s.g ++ word_octets s.h))))))

-- What the code does in its names.
next_word_lem : (block w : List ℕ) (t : ℕ) → 16 ≤ t → next_word w t ≡ scheduled block w t
unfolding next_word small_sigma0 small_sigma1 rotr
next_word_lem block w t h = let late : ltb t 16 ≡ false = le→ltb _ _ h in rw late refl

extend_lem :
    (n t : ℕ) (block : List ℕ) → 16 ≤ t → extend n t (schedule block t) ≡ schedule block (n + t)
unfolding extend schedule
extend_lem zero t block h =
    let same : t ≡ 0 + t = omega arith in ap (λ (k : ℕ). schedule block k) same
extend_lem (suc n) t block h =
    let after : t + 1 ≡ suc t = omega arith in
    let count : n + suc t ≡ suc n + t = omega arith in
    ap (λ (x : ℕ). extend n (t + 1) (schedule block t ++ (x ∷ [])))
      (next_word_lem block (schedule block t) t h)
    ∙ ap (λ (k : ℕ). extend n k (schedule block (suc t))) after
    ∙ extend_lem n (suc t) block (omega (arith, h))
    ∙ ap (λ (k : ℕ). schedule block k) count

load_lem : (block : List ℕ) → load block 16 0 ≡ schedule block 16
unfolding load schedule word_at
load_lem block = refl

compress_lem :
    (w : List ℕ) (t : ℕ) (v : Words)
    → compress w t v ≡ round (get_or constants t 0) (get_or w t 0) v
unfolding compress big_sigma0 big_sigma1 ch maj rotr
compress_lem w t v = ap (λ (ks : List ℕ). round (get_or ks t 0) (get_or w t 0) v) constants_same

compress_loop_lem :
    (w : List ℕ) (v : Words) (n t : ℕ) → compress_loop w n t (rounds w v t) ≡ rounds w v (n + t)
unfolding compress_loop rounds
compress_loop_lem w v zero t =
    let same : t ≡ 0 + t = omega arith in ap (λ (k : ℕ). rounds w v k) same
compress_loop_lem w v (suc n) t =
    let after : t + 1 ≡ suc t = omega arith in
    let count : n + suc t ≡ suc n + t = omega arith in
    ap (λ (x : Words). compress_loop w n (t + 1) x) (compress_lem w t (rounds w v t))
    ∙ ap (λ (k : ℕ). compress_loop w n k (rounds w v (suc t))) after
    ∙ compress_loop_lem w v n (suc t)
    ∙ ap (λ (k : ℕ). rounds w v k) count

pub process_block-eq-hash_block :
    (s : Words) (block : List ℕ) → process_block s block ≡ hash_block s block
unfolding process_block hash_block add_words
process_block-eq-hash_block s block =
    let words : extend 48 16 (load block 16 0) ≡ schedule block 64 =
      ap (λ (w : List ℕ). extend 48 16 w) (load_lem block) ∙ extend_lem 48 16 block (omega arith) in
    ap (λ (w : List ℕ). add_words s (compress_loop w 64 0 s)) words
    ∙ ap (λ (v : Words). add_words s v) (start ∙ compress_loop_lem (schedule block 64) s 64 0)
  where
    start :
        compress_loop (schedule block 64) 64 0 s
        ≡ compress_loop (schedule block 64) 64 0 (rounds (schedule block 64) s 0)
    start = ap (λ (v : Words). compress_loop (schedule block 64) 64 0 v) (sym rounds_zero)
      where
        rounds_zero : rounds (schedule block 64) s 0 ≡ s
        rounds_zero = unfold rounds in refl

word_bytes_lem : (x : ℕ) → word_bytes x ≡ word_octets x
unfolding word_bytes
word_bytes_lem x =
    rw
      (
        bit_and_byte (x / 2 ^ 24),
        bit_and_byte (x / 2 ^ 16),
        bit_and_byte (x / 2 ^ 8),
        bit_and_byte x,
      )
      refl

pub digest_bytes-eq-message_digest : (s : Words) → digest_bytes s ≡ message_digest s
unfolding digest_bytes
digest_bytes-eq-message_digest s =
    ap
      (λ (f : ℕ → List ℕ).
        f s.a ++ (f s.b ++ (f s.c ++ (f s.d ++ (f s.e ++ (f s.f ++ (f s.g ++ f s.h)))))))
      (λ i x. word_bytes_lem x i)
