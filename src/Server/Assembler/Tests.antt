-- ===== src/Server/Assembler/Tests.antt =====
-- The assembler at a concrete input.
use super_voice.Base.{◌≡◌, refl, Bool, true, false, [], ◌∷◌, All, length}
use super_voice.Base.Map
use super_voice.Base.Map.{lookup-erase_ne}
use super_voice.Base.Text.{text, same}
use super_voice.Server.Disk.{Disk, FilePath, wrote}
use super_voice.Server.Storage.{PayloadRecord, join, ends_with_slash}
use super_voice.Server.Assembler.{Zstd, progressed, AssembleCalls, assemble}
use super_voice.Server.Assembler.Joined.{part, final, Publishes, assemble-Publishes}

-- A decompressor of two states that copies its input, and ends its frame with each call.
abbrev copying : Zstd Bool
copying = record { init = false; decompress = λ s input. progressed true (length input) input 0 }

abbrev one_chunk : PayloadRecord
one_chunk = record {
  file_id = text "f";
  original_name = text "a.txt";
  total_chunks = 1;
  patches_dir = text "patches/f";
  files_dir = text "files";
  chunk_files = text "patches/f/0.patch" ∷ [];
}

abbrev calls : AssembleCalls
calls = record {
  open_ok = true;
  create_ok = true;
  readable = λ path. true;
  flushes = (wrote 5 ∷ []) ∷ [];
  fsync_ok = true;
  rename_ok = true;
}

abbrev disk : Disk
disk = (text "patches/f/0.patch", text "hello") ∷ []

-- Removes nothing but the one chunk.
abbrev remove_patch : FilePath → Disk → Disk
remove_patch dir d = Map.erase (text "patches/f/0.patch") d

apart :
    All
      (λ path. same (part copying 8 (text "files") remove_patch one_chunk calls disk) path ≡ false)
      one_chunk.chunk_files
unfolding same join ends_with_slash
apart = (refl, tt)

kept :
    (d : Disk)
    → Map.lookup
        (final copying 8 (text "files") remove_patch one_chunk calls disk)
        (remove_patch one_chunk.patches_dir d)
      ≡ Map.lookup (final copying 8 (text "files") remove_patch one_chunk calls disk) d
unfolding same join ends_with_slash
kept d = lookup-erase_ne (text "patches/f/0.patch") (text "files/a.txt") d refl

assemble-Publishes_example :
    Publishes copying 8
      (text "files")
      remove_patch
      one_chunk
      calls
      disk
      (assemble copying 8 (text "files") remove_patch one_chunk calls disk)
assemble-Publishes_example =
    assemble-Publishes copying 8 (text "files") remove_patch one_chunk calls disk apart kept
