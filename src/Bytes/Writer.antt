-- ===== src/Bytes/Writer.antt =====
-- What `ByteWriter` appends.
use super_voice.Base.{ℕ, ◌≡◌, refl, List, ◌++◌}
use super_voice.Bytes.{write, write_bytes, to_le_array}

pub write_lem :
    (width : ℕ) (buffer : List ℕ) (value : ℕ)
    → write width buffer value ≡ buffer ++ to_le_array width value
unfolding write
write_lem width buffer value = refl

pub write_bytes_lem : (buffer bytes : List ℕ) → write_bytes buffer bytes ≡ buffer ++ bytes
unfolding write_bytes
write_bytes_lem buffer bytes = refl
