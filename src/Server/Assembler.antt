-- ===== src/Server/Assembler.antt =====
-- FileRelay_.server/Server/src/assembler.hpp. The zstd decompressor is an argument: its stream and one call
-- of `ZSTD_decompressStream`. What the system answers to the calls is in `AssembleCalls`, with the answers
-- to the writes of each flush.
pub mod Decode
pub mod Joined
mod Tests
use super_voice.Base.{
  ℕ, zero, suc, Bool, true, false, ◌&&◌, not, Option, none, some, List, [], ◌∷◌, ◌++◌, ◌==◌,
  if◌then◌else◌, length, drop,
}
use super_voice.Base.Map
use super_voice.Base.Text.{text}
use super_voice.Server.Disk.{
  Disk, FilePath, WriteAnswer, Saved, unfinished, saved, failed, contents, rename, write_loop,
}
use super_voice.Server.Storage.{PayloadRecord, join}

-- A call of `ZSTD_decompressStream`: the stream after it, how many bytes of the input it took, the output,
-- and its hint, which is 0 at the end of a frame.
pub data Decompressed (Stream : Type 0) : Type 0 where
  zstd_error : Decompressed Stream
  progressed : Stream → ℕ → List ℕ → ℕ → Decompressed Stream

pub record Zstd (Stream : Type 0) : Type 0 where
  pub init : Stream
  pub decompress : Stream → List ℕ → Decompressed Stream

pub record AssembleCalls : Type 0 where
  pub open_ok : Bool
  pub create_ok : Bool
  pub readable : FilePath → Bool
  pub flushes : List (List WriteAnswer)
  pub fsync_ok : Bool
  pub rename_ok : Bool

-- The loops' state: the stream, `pending`, the disk and the answers that are left.
pub record Progress (Stream : Type 0) : Type 0 where
  pub stream : Stream
  pub pending : ℕ
  pub disk : Disk
  pub flushes : List (List WriteAnswer)

-- How a loop ends: through, with `success` false, or not within the fuel and the answers.
pub data Looped (Stream : Type 0) : Type 0 where
  through : Progress Stream → Looped Stream
  broken : Disk → Looped Stream
  stuck : Looped Stream

pub data Assembled : Type 0 where
  published : FilePath → Disk → Assembled
  nothing : Disk → Assembled
  endless : Assembled

-- `flush_buffer` is the loop of writes; what follows it.
abbrev pub after_flush : {Stream : Type 0} → Saved → (Disk → Looped Stream) → Looped Stream
after_flush unfinished next = stuck
after_flush (failed disk) next = broken disk
after_flush (saved disk) next = next disk

-- The next round of the loop over the chunks, unless `success` is false.
abbrev pub after_chunk :
    {Stream : Type 0} → Looped Stream → (Progress Stream → Looped Stream) → Looped Stream
after_chunk (through p) next = next p
after_chunk (broken disk) next = broken disk
after_chunk stuck next = stuck

module _ {Stream : Type 0} (zstd : Zstd Stream) where
  -- `while (zin.pos < zin.size && success)`; the list is what is left of the input.
  unfoldable pub decompress_loop : ℕ → FilePath → List ℕ → Progress Stream → Looped Stream
  unfolding write_loop
  decompress_loop fuel part [] p = through p
  decompress_loop zero part (b ∷ bs) p = stuck
  decompress_loop (suc fuel) part (b ∷ bs) p = elim (zstd.decompress p.stream (b ∷ bs)) [
    | zstd_error ↦ broken p.disk
    | progressed stream taken output hint ↦ elim (p.flushes) [
      | [] ↦ stuck
      | answers ∷ more ↦ after_flush (write_loop part answers output p.disk) (λ disk.
          decompress_loop fuel part (drop taken (b ∷ bs))
            (record { stream = stream; pending = hint; disk = disk; flushes = more }))
    ]
  ]

  -- The loop over the chunks, each read whole, with fuel for each.
  unfoldable pub chunk_loop :
      ℕ → (FilePath → Bool) → FilePath → List FilePath → Progress Stream → Looped Stream
  unfolding decompress_loop contents
  chunk_loop fuel readable part [] p = through p
  chunk_loop fuel readable part ([] ∷ paths) p = broken p.disk
  chunk_loop fuel readable part ((c ∷ path) ∷ paths) p =
      if readable (c ∷ path)
      then after_chunk (decompress_loop fuel part (contents (c ∷ path) p.disk) p)
          (λ next. chunk_loop fuel readable part paths next)
      else broken p.disk

  -- `success` and the disk when the loop over the chunks has ended.
  abbrev pub after_loop : Looped Stream → Option (Bool × Disk)
  after_loop (through p) = some (p.pending == 0, p.disk)
  after_loop (broken disk) = some (false, disk)
  after_loop stuck = none

  -- The rest of `assemble`: the file is put in its place, or removed.
  unfoldable pub publish :
      (FilePath → Disk → Disk)
      → AssembleCalls
      → FilePath
      → FilePath
      → FilePath
      → Option (Bool × Disk)
      → Assembled
  unfolding rename
  publish remove_all calls part final patches_dir none = endless
  publish remove_all calls part final patches_dir (some (success, disk)) =
      if success && calls.fsync_ok
      then if calls.rename_ok
        then published final (remove_all patches_dir (rename part final disk))
        else nothing disk
      else nothing (Map.erase part disk)

  pub assemble :
      ℕ → FilePath → (FilePath → Disk → Disk) → PayloadRecord → AssembleCalls → Disk → Assembled
  unfolding chunk_loop publish
  assemble fuel files_root remove_all info calls disk =
      let part = join files_root (info.original_name ++ text ".part") in
      let final = join files_root info.original_name in
      if not (length info.chunk_files == info.total_chunks)
      then nothing disk
      else if not calls.open_ok
      then nothing disk
      else if not calls.create_ok
      then nothing (Map.erase part (Map.insert part [] disk))
      else publish remove_all calls part final info.patches_dir (
          after_loop (
            chunk_loop fuel calls.readable part info.chunk_files (record {
              stream = zstd.init;
              pending = 0;
              disk = Map.insert part [] disk;
              flushes = calls.flushes;
            })))
