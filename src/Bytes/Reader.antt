-- ===== src/Bytes/Reader.antt =====
-- What `ByteReader` gives back, by the bytes that are left: the laws that the decoders rest on.
use super_voice.Base.{
  ℕ, suc, ◌+◌, ◌-◌, ◌*◌, ◌^◌, ◌≤◌, ◌<◌, ◌≡◌, refl, ap, ◌∙◌, false, List, [], ◌∷◌, ◌++◌, arith,
  length, All, take, drop, length-append, length-drop, drop-drop, drop-append, take-append,
  get_elem?-drop, le→ltb, ltb,
}
use super_voice.Base.Word.{IsByte, u64}
use super_voice.Base.Result.{ok}
use super_voice.Bytes.{
  ByteReader, reader, remaining, read, read_bytes, read_le, read_le_loop, from_le_loop, to_le_array,
  or_byte,
}
use super_voice.Bytes.Endian.{
  le_value, le_bytes, from_le_loop_lem, to_le_array_lem, length-le_bytes, le_bytes-IsByte,
  le_value-le_bytes,
}

-- The loop of `read_le` reads the bytes that stand at its offset.
read_le_loop_lem :
    (width : ℕ) (bs : List ℕ) (i : ℕ) (buffer : List ℕ) (offset acc : ℕ) (rest : List ℕ)
    → drop (offset + i) buffer ≡ bs ++ rest
    → offset + i + length bs < 2 ^ 64
    → read_le_loop width (length bs) i buffer offset acc ≡ ok (from_le_loop width bs i acc)
unfolding read_le_loop from_le_loop
read_le_loop_lem width [] i buffer offset acc rest e h = refl
read_le_loop_lem width (b ∷ bs) i buffer offset acc rest e h =
    let at = get_elem?-drop buffer (offset + i) b (bs ++ rest) e in
    let fits : u64 (offset + i) ≡ offset + i = omega arith in
    let next : suc (offset + i) ≡ offset + (i + 1) = omega arith in
    let tail : drop (offset + (i + 1)) buffer ≡ bs ++ rest = rw (← next) at.1 in
    rw (fits, at.0, read_le_loop)
      (read_le_loop_lem width bs (i + 1) buffer offset (or_byte width acc b i) rest tail
        (omega arith))

-- The bytes that the reader has not read yet are `rest`.
pub record Left (r : ByteReader) (rest : List ℕ) : Type 0 where
  pub unread : drop r.offset r.bytes ≡ rest
  pub inside : r.offset ≤ length r.bytes
  pub addressable : length r.bytes < 2 ^ 64

pub Left-reader : (input : List ℕ) → length input < 2 ^ 64 → Left (reader input) input
Left-reader input h = record { unread = refl; inside = omega arith; addressable = h }

pub Left-bound :
    {r : ByteReader} (xs rest : List ℕ)
    → Left r (xs ++ rest)
    → (r.offset + length xs ≤ length r.bytes)
      × (length r.bytes ≡ r.offset + (length xs + length rest))
Left-bound {r} xs rest l =
    omega (arith, l.inside, ap length l.unread, length-append xs rest, length-drop r.offset r.bytes)

pub Left-next :
    {r : ByteReader} (xs rest : List ℕ) (k : ℕ)
    → Left r (xs ++ rest)
    → length xs ≡ k
    → Left (record r { offset = u64 (r.offset + k) }) rest
Left-next {r} xs rest k l e =
    let bound = Left-bound xs rest l in
    let fits : u64 (r.offset + k) ≡ r.offset + length xs = omega (arith, l.addressable, bound, e) in
    record {
      unread = rw (fits, ← drop-drop r.offset (length xs) r.bytes, l.unread) (drop-append xs rest);
      inside = omega (arith, fits, bound);
      addressable = l.addressable;
    }

-- `read_le` in bounds gives the number that the bytes at the offset stand for.
pub read_le_lem :
    (bs : List ℕ) (buffer : List ℕ) (offset : ℕ) (rest : List ℕ)
    → drop offset buffer ≡ bs ++ rest
    → All IsByte bs
    → offset + length bs ≤ length buffer
    → length buffer < 2 ^ 64
    → read_le (length bs) buffer offset ≡ ok (le_value bs)
unfolding read_le
read_le_lem bs buffer offset rest e hb inside addressable =
    let small : ltb (length buffer) (u64 (offset + length bs)) ≡ false = le→ltb _ _ (omega arith) in
    let at : drop (offset + 0) buffer ≡ bs ++ rest =
      let z : offset + 0 ≡ offset = omega arith in rw z e in
    let loop = read_le_loop_lem (length bs) bs 0 buffer offset 0 rest at (omega arith) in
    let value = from_le_loop_lem (length bs) bs 0 0 (omega arith) hb (omega arith) in
    let plain : 0 + 2 ^ (8 * 0) * le_value bs ≡ le_value bs = omega arith in
    rw (small, loop, value, plain) refl

-- `read_le` gives back a number that stands at the offset.
pub read_le-le_bytes :
    (width value : ℕ) (buffer : List ℕ) (offset : ℕ) (rest : List ℕ)
    → value < 2 ^ (8 * width)
    → drop offset buffer ≡ le_bytes width value ++ rest
    → offset + width ≤ length buffer
    → length buffer < 2 ^ 64
    → read_le width buffer offset ≡ ok value
read_le-le_bytes width value buffer offset rest hv e inside addressable =
    let bs = le_bytes width value in
    let len : length bs ≡ width = length-le_bytes width value in
    let got : read_le (length bs) buffer offset ≡ ok (le_value bs) =
      read_le_lem bs buffer offset rest e (le_bytes-IsByte width value) (omega (arith, len))
        addressable in
    rw (len, le_value-le_bytes width value hv) at got

-- `read` takes a number off the front that was written at the same width.
pub read_lem :
    {r : ByteReader} (width value : ℕ) (rest : List ℕ)
    → value < 2 ^ (8 * width)
    → Left r (to_le_array width value ++ rest)
    → read width r ≡ ok (value, record r { offset = u64 (r.offset + width) })
unfolding read
read_lem {r} width value rest hv l =
    let left : Left r (le_bytes width value ++ rest) = rw (← to_le_array_lem width value) l in
    let bound = Left-bound (le_bytes width value) rest left in
    let got : read_le width r.bytes r.offset ≡ ok value =
      read_le-le_bytes width value r.bytes r.offset rest hv left.unread
        (omega (arith, bound, length-le_bytes width value)) left.addressable in
    rw got refl

-- The reader after `read_lem`.
pub Left-read :
    {r : ByteReader} (width value : ℕ) (rest : List ℕ)
    → Left r (to_le_array width value ++ rest)
    → Left (record r { offset = u64 (r.offset + width) }) rest
Left-read width value rest l =
    Left-next (to_le_array width value) rest width l
      (ap length (to_le_array_lem width value) ∙ length-le_bytes width value)

-- `read_bytes` takes as many bytes off the front.
pub read_bytes_lem :
    {r : ByteReader} (xs rest : List ℕ) (k : ℕ)
    → length xs ≡ k
    → Left r (xs ++ rest)
    → read_bytes k r ≡ ok (xs, record r { offset = u64 (r.offset + k) })
unfolding read_bytes remaining
read_bytes_lem {r} xs rest k e l =
    let bound = Left-bound xs rest l in
    let small : ltb (u64 (length r.bytes + 2 ^ 64 - r.offset)) k ≡ false =
      le→ltb _ _ (omega (arith, bound, l.addressable, e)) in
    let within : ltb (length r.bytes) (r.offset + k) ≡ false =
      le→ltb _ _ (omega (arith, bound, e)) in
    let front : take k (xs ++ rest) ≡ xs = rw (← e) (take-append xs rest) in
    rw (small, within, l.unread, front) refl
