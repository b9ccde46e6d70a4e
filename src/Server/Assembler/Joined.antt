-- ===== src/Server/Assembler/Joined.antt =====
-- What the assembled file holds.
use super_voice.Base.{
  ℕ, ◌≡◌, refl, ap, ◌∙◌, Bool, true, false, some, List, [], ◌++◌, length, if◌then◌else◌, ◌==◌,
  ==→eq, ◌&&◌, not, All,
}
use super_voice.Base.Map
use super_voice.Base.Text.{same, text}
use super_voice.Server.Disk.{Disk, FilePath, contents, rename}
use super_voice.Server.Disk.Atomic.{SameBut, contents-insert}
use super_voice.Base.Map.{lookup-insert_self, lookup-insert_ne, lookup-erase_ne}
use super_voice.Server.Storage.{PayloadRecord, join}
use super_voice.Server.Assembler.{
  AssembleCalls, Assembled, published, nothing, endless, publish, after_loop, assemble, Zstd,
  Progress, Looped, through, broken, stuck, chunk_loop,
}
use super_voice.Server.Assembler.Decode.{read_all, decode_chunks, JoinedAll, chunk_loop-JoinedAll}

module _ {Stream : Type 0} (zstd : Zstd Stream) (fuel : ℕ) (files_root : FilePath)
    (remove_all : FilePath → Disk → Disk) (info : PayloadRecord) (calls : AssembleCalls)
    (disk : Disk) where
  abbrev pub part : FilePath
  part = join files_root (info.original_name ++ text ".part")

  abbrev pub final : FilePath
  final = join files_root info.original_name

  -- What `assemble` may leave behind.
  pub Publishes : Assembled → Type 0
  Publishes (published path after) =
      (path ≡ final)
      × ((stream : Stream) × (bytes : List ℕ) × (decode_chunks zstd fuel zstd.init 0
              (read_all disk info.chunk_files)
            ≡ some (stream, (0, bytes)))
          × (Map.lookup final after ≡ some bytes))
  Publishes (nothing after) = SameBut part disk after
  Publishes endless = Unit

  opened : Progress Stream
  opened = record {
    stream = zstd.init;
    pending = 0;
    disk = Map.insert part [] disk;
    flushes = calls.flushes;
  }

  opened-SameBut : SameBut part disk (Map.insert part [] disk)
  opened-SameBut q t = lookup-insert_ne part q [] disk t

  erased-SameBut :
      (after : Disk) → SameBut part disk after → SameBut part disk (Map.erase part after)
  erased-SameBut after s q t = lookup-erase_ne part q after t ∙ s q t

  publish-Publishes :
      (r : Looped Stream)
      → ((d : Disk) → Map.lookup final (remove_all info.patches_dir d) ≡ Map.lookup final d)
      → JoinedAll zstd fuel part info.chunk_files disk opened r
      → Publishes (publish zstd remove_all calls part final info.patches_dir (after_loop zstd r))
  unfolding publish Publishes JoinedAll opened rename
  publish-Publishes (broken after) keeps j = erased-SameBut after j
  publish-Publishes stuck keeps j = tt
  publish-Publishes (through p) keeps (bytes, d, c, s) =
      at_end (p.pending == 0) calls.fsync_ok calls.rename_ok refl
    where
      at_end :
          (ended synced renamed : Bool)
          → (p.pending == 0) ≡ ended
          → Publishes (
              if ended && synced
              then if renamed
                then published final (remove_all info.patches_dir (rename part final p.disk))
                else nothing p.disk
              else nothing (Map.erase part p.disk))
      at_end false synced renamed e = erased-SameBut p.disk s
      at_end true false renamed e = erased-SameBut p.disk s
      at_end true true false e = s
      at_end true true true e = (
        refl,
        (
          p.stream,
          bytes,
          d ∙ ap (λ (n : ℕ). some (p.stream, (n, bytes))) (==→eq p.pending 0 e),
          keeps (rename part final p.disk)
              ∙ lookup-insert_self final (contents part p.disk) (Map.erase part p.disk)
              ∙ ap some (c ∙ ap (λ l. l ++ bytes) (contents-insert part [] disk)),
        ),
      )

  -- When `assemble` publishes a file, the file is in its place and holds what the decompressor makes of the
  -- chunks in their order, with its frame complete; when it gives up, every file but the `.part` file is
  -- as it was; a run that does not end within the fuel and the answers is left out. The chunks are not the `.part` file, and removing the patches keeps the published file.
  pub assemble-Publishes :
      All (λ path. same part path ≡ false) info.chunk_files
      → ((d : Disk) → Map.lookup final (remove_all info.patches_dir d) ≡ Map.lookup final d)
      → Publishes (assemble zstd fuel files_root remove_all info calls disk)
  unfolding assemble Publishes opened
  assemble-Publishes apart keeps =
      at_start _ (not (length info.chunk_files == info.total_chunks)) (not calls.open_ok)
        (not calls.create_ok)
        (publish-Publishes (chunk_loop zstd fuel calls.readable part info.chunk_files opened) keeps
          (chunk_loop-JoinedAll zstd fuel calls.readable part info.chunk_files disk opened apart
            opened-SameBut))
    where
      at_start :
          (r : Assembled) (incomplete no_file no_stream : Bool)
          → Publishes r
          → Publishes (
              if incomplete
              then nothing disk
              else if no_file
              then nothing disk
              else if no_stream
              then nothing (Map.erase part (Map.insert part [] disk))
              else r)
      at_start r true no_file no_stream h = λ q t. refl
      at_start r false true no_stream h = λ q t. refl
      at_start r false false true h = erased-SameBut (Map.insert part [] disk) opened-SameBut
      at_start r false false false h = h
