-- ===== src/Server/Disk/Atomic.antt =====
-- Saving replaces a file at once or leaves it as it was.
use mathlib.Core.List.{append-nil, append_assoc}
use super_voice.Base.{
  ℕ, ◌≡◌, refl, sym, ap, ◌∙◌, ◌⊎◌, inl, inr, true, false, none, some, List, [], ◌∷◌, ◌++◌, arith,
  length, length-append, take, drop, take-append-drop, Bool-cases,
}
use super_voice.Base.Map
use super_voice.Base.Map.{lookup-insert_self, lookup-insert_ne, lookup-erase_self, lookup-erase_ne}
use super_voice.Base.Text.{same, same→eq, same_sym, text}
use super_voice.Server.Disk.{
  Disk, FilePath, WriteAnswer, wrote, interrupted, write_failed, SaveCalls, Saved, unfinished,
  saved, failed, contents, append_to, rename, write_loop, tmp_of, finish, save_file,
}

-- Every other file is as it was.
abbrev pub SameBut : FilePath → Disk → Disk → Type 0
SameBut path before after =
    (q : FilePath) → same path q ≡ false → Map.lookup q after ≡ Map.lookup q before

pub contents-insert :
    (path : FilePath) (bytes : List ℕ) (disk : Disk)
    → contents path (Map.insert path bytes disk) ≡ bytes
unfolding contents
contents-insert path bytes disk = rw (lookup-insert_self path bytes disk, contents) refl

-- The loop ends with the rest of the data appended, or fails, and touches no other file.
abbrev pub LoopEnd : FilePath → List ℕ → Disk → Saved → Type 0
LoopEnd tmp bytes disk unfinished = Unit
LoopEnd tmp bytes disk (saved after) =
    (contents tmp after ≡ contents tmp disk ++ bytes) × SameBut tmp disk after
LoopEnd tmp bytes disk (failed after) = SameBut tmp disk after

LoopEnd-append :
    (tmp : FilePath) (n : ℕ) (bytes : List ℕ) (disk : Disk) (r : Saved)
    → LoopEnd tmp (drop n bytes) (append_to tmp (take n bytes) disk) r
    → LoopEnd tmp bytes disk r
unfolding append_to
LoopEnd-append tmp n bytes disk unfinished e = tt
LoopEnd-append tmp n bytes disk (saved after) e = (
  e.0
      ∙ rw (contents-insert tmp (contents tmp disk ++ take n bytes) disk) (
          append_assoc (contents tmp disk) (take n bytes) (drop n bytes)
          ∙ ap (λ l. contents tmp disk ++ l) (take-append-drop n bytes)),
  λ q d. e.1 q d ∙ lookup-insert_ne tmp q _ disk d,
)
LoopEnd-append tmp n bytes disk (failed after) e = λ q d. e q d ∙ lookup-insert_ne tmp q _ disk d

pub write_loop-LoopEnd :
    (tmp : FilePath) (answers : List WriteAnswer) (bytes : List ℕ) (disk : Disk)
    → LoopEnd tmp bytes disk (write_loop tmp answers bytes disk)
unfolding write_loop
write_loop-LoopEnd tmp [] [] disk = (sym (append-nil _), λ q d. refl)
write_loop-LoopEnd tmp [] (b ∷ bs) disk = tt
write_loop-LoopEnd tmp (a ∷ answers) [] disk = (sym (append-nil _), λ q d. refl)
write_loop-LoopEnd tmp (wrote n ∷ answers) (b ∷ bs) disk =
    LoopEnd-append tmp n (b ∷ bs) disk _
      (write_loop-LoopEnd tmp answers (drop n (b ∷ bs)) (append_to tmp (take n (b ∷ bs)) disk))
write_loop-LoopEnd tmp (interrupted ∷ answers) (b ∷ bs) disk =
    write_loop-LoopEnd tmp answers (b ∷ bs) disk
write_loop-LoopEnd tmp (write_failed ∷ answers) (b ∷ bs) disk = λ q d. refl

-- A path is not its own temporary.
pub tmp_of-ne : (path : FilePath) → same (tmp_of path) path ≡ false
tmp_of-ne path = elim (Bool-cases (same (tmp_of path) path)) [
  | inl e ↦
      absurd
        (omega (arith, ap length (same→eq (tmp_of path) path e), length-append path (text ".tmp")))
  | inr e ↦ e
]

-- What a save may leave behind: all of the new contents, or the old ones.
abbrev pub Replaces : FilePath → List ℕ → Disk → Saved → Type 0
Replaces path bytes disk unfinished = Unit
Replaces path bytes disk (saved after) =
    (Map.lookup path after ≡ some bytes)
    × (Map.lookup (tmp_of path) after ≡ none)
    × ((q : FilePath)
        → same path q ≡ false
        → same (tmp_of path) q ≡ false
        → Map.lookup q after ≡ Map.lookup q disk)
Replaces path bytes disk (failed after) =
    (q : FilePath) → same (tmp_of path) q ≡ false → Map.lookup q after ≡ Map.lookup q disk

module _ (path : FilePath) (bytes : List ℕ) (calls : SaveCalls) (disk : Disk) where
  opened : Disk
  opened = Map.insert (tmp_of path) [] disk

  rename-Replaces :
      (after : Disk)
      → LoopEnd (tmp_of path) bytes opened (saved after)
      → Replaces path bytes disk (saved (rename (tmp_of path) path after))
  unfolding rename opened
  rename-Replaces after e = (
    lookup-insert_self path _ _
        ∙ ap some (e.0 ∙ ap (λ l. l ++ bytes) (contents-insert (tmp_of path) [] disk)),
    lookup-insert_ne path (tmp_of path) _ _ (same_sym (tmp_of path) path (tmp_of-ne path))
        ∙ lookup-erase_self (tmp_of path) after,
    λ q d t.
        lookup-insert_ne path q _ _ d
        ∙ lookup-erase_ne (tmp_of path) q after t
        ∙ e.1 q t
        ∙ lookup-insert_ne (tmp_of path) q [] disk t,
  )

  finish-Replaces :
      (r : Saved)
      → LoopEnd (tmp_of path) bytes opened r
      → Replaces path bytes disk (finish path calls r)
  unfolding finish opened
  finish-Replaces unfinished e = tt
  finish-Replaces (failed after) e = λ q d.
      lookup-erase_ne (tmp_of path) q after d ∙ e q d ∙ lookup-insert_ne (tmp_of path) q [] disk d
  finish-Replaces (saved after) e = go (Bool-cases calls.fsync_ok) (Bool-cases calls.rename_ok)
    where
      go :
          (calls.fsync_ok ≡ true) ⊎ (calls.fsync_ok ≡ false)
          → (calls.rename_ok ≡ true) ⊎ (calls.rename_ok ≡ false)
          → Replaces path bytes disk (finish path calls (saved after))
      go (inr nf) _ = rw nf λ q d.
          lookup-erase_ne (tmp_of path) q after d
          ∙ e.1 q d
          ∙ lookup-insert_ne (tmp_of path) q [] disk d
      go (inl f) (inr nr) = rw (f, nr) λ q d. e.1 q d ∙ lookup-insert_ne (tmp_of path) q [] disk d
      go (inl f) (inl r) = rw (f, r) (rename-Replaces after e)

-- Whatever the operating system answers, a save that returns true has put the whole of the new
-- contents at the path and removed the temporary, one that returns false has left every file but
-- the temporary as it was, the path's own included, and no third file ever changes.
pub save_file-Replaces :
    (path : FilePath) (bytes : List ℕ) (calls : SaveCalls) (disk : Disk)
    → Replaces path bytes disk (save_file path bytes calls disk)
unfolding save_file
save_file-Replaces path bytes calls disk = elim (Bool-cases calls.open_ok) [
  | inl o ↦ rw o (
      finish-Replaces path bytes calls disk _ (
        unfold opened in
        write_loop-LoopEnd (tmp_of path) calls.writes bytes (Map.insert (tmp_of path) [] disk)))
  | inr n ↦ rw n (λ q d. refl)
]
