-- ===== src/Server/Disk.antt =====
-- The file system as the server uses it: a map from paths to contents. What the operating system
-- answers to each call is an argument. The functions are the save sequence that `write_binary_file`
-- and `persist_manifest` of FileRelay_.server/Server/src/storage.hpp share.
pub mod Atomic
use super_voice.Base.{
  ℕ, zero, suc, Bool, true, false, Option, none, some, List, [], ◌∷◌, ◌++◌, ◌==◌, ◌&&◌,
  if◌then◌else◌, take, drop,
}
use super_voice.Base.Map
use super_voice.Base.Map.{Map}
use super_voice.Base.Text.{text, same}

abbrev pub FilePath : Type 0
FilePath = List ℕ

abbrev pub Disk : Type 0
Disk = Map (List ℕ)

-- The answers to `::write`: so many bytes were taken, `EINTR`, another error.
pub data WriteAnswer : Type 0 where
  wrote : ℕ → WriteAnswer
  interrupted write_failed : WriteAnswer

pub record SaveCalls : Type 0 where
  pub open_ok : Bool
  pub writes : List WriteAnswer
  pub fsync_ok : Bool
  pub rename_ok : Bool

-- `unfinished`: the answers ended before the call did.
pub data Saved : Type 0 where
  unfinished : Saved
  saved failed : Disk → Saved

-- The contents of a file; of a file that is not there, nothing.
unfoldable pub contents : FilePath → Disk → List ℕ
contents path disk = elim (Map.lookup path disk) [ none ↦ [] | some bytes ↦ bytes ]

-- `::write` appends to the open file.
unfoldable pub append_to : FilePath → List ℕ → Disk → Disk
append_to path bytes disk = Map.insert path (contents path disk ++ bytes) disk

unfoldable pub rename : FilePath → FilePath → Disk → Disk
rename from to disk = Map.insert to (contents from disk) (Map.erase from disk)

-- `while (remaining > 0)`. The list is what remains of the data.
unfoldable pub write_loop : FilePath → List WriteAnswer → List ℕ → Disk → Saved
write_loop tmp [] [] disk = saved disk
write_loop tmp [] (b ∷ bs) disk = unfinished
write_loop tmp (a ∷ answers) [] disk = saved disk
write_loop tmp (wrote n ∷ answers) (b ∷ bs) disk =
    write_loop tmp answers (drop n (b ∷ bs)) (append_to tmp (take n (b ∷ bs)) disk)
write_loop tmp (interrupted ∷ answers) (b ∷ bs) disk = write_loop tmp answers (b ∷ bs) disk
write_loop tmp (write_failed ∷ answers) (b ∷ bs) disk = failed disk

abbrev pub tmp_of : FilePath → FilePath
tmp_of path = path ++ text ".tmp"

-- What follows the loop.
unfoldable pub finish : FilePath → SaveCalls → Saved → Saved
finish path calls unfinished = unfinished
finish path calls (failed disk) = failed (Map.erase (tmp_of path) disk)
finish path calls (saved disk) =
    if calls.fsync_ok
    then if calls.rename_ok then saved (rename (tmp_of path) path disk) else failed disk
    else failed (Map.erase (tmp_of path) disk)

unfoldable pub save_file : FilePath → List ℕ → SaveCalls → Disk → Saved
unfolding write_loop finish
save_file path bytes calls disk =
    if calls.open_ok
    then finish path calls
        (write_loop (tmp_of path) calls.writes bytes (Map.insert (tmp_of path) [] disk))
    else failed disk
