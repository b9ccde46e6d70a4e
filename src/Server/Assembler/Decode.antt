-- ===== src/Server/Assembler/Decode.antt =====
-- What the loops of the assembler write: the output of the decompressor for the chunks in their order.
use mathlib.Core.List.{append-nil, append_assoc}
use super_voice.Base.{
  ℕ, zero, suc, ◌≡◌, refl, sym, ap, ◌∙◌, Bool, true, false, Option, none, some, List, [], ◌∷◌, ◌++◌,
  drop, if◌then◌else◌, All,
}
use super_voice.Base.Text.{same}
use super_voice.Server.Disk.{
  Disk, FilePath, WriteAnswer, Saved, unfinished, saved, failed, contents, write_loop,
}
use super_voice.Server.Disk.Atomic.{SameBut, LoopEnd, write_loop-LoopEnd}
use super_voice.Server.Assembler.{
  Zstd, Decompressed, zstd_error, progressed, Progress, Looped, through, broken, stuck, after_flush,
  after_chunk, decompress_loop, chunk_loop,
}

-- The contents of the chunks.
abbrev pub read_all : Disk → List FilePath → List (List ℕ)
read_all disk [] = []
read_all disk (path ∷ paths) = contents path disk ∷ read_all disk paths

abbrev pub with_output :
    {Stream : Type 0} → List ℕ → Option (Stream × (ℕ × List ℕ)) → Option (Stream × (ℕ × List ℕ))
with_output output none = none
with_output output (some (stream, (hint, rest))) = some (stream, (hint, output ++ rest))

module _ {Stream : Type 0} (zstd : Zstd Stream) where
  -- What a decompressor makes of an input: the stream after it, the output and the last hint.
  pub decode : ℕ → Stream → ℕ → List ℕ → Option (Stream × (ℕ × List ℕ))
  decode fuel stream hint [] = some (stream, (hint, []))
  decode zero stream hint (b ∷ bs) = none
  decode (suc fuel) stream hint (b ∷ bs) = elim (zstd.decompress stream (b ∷ bs)) [
    | zstd_error ↦ none
    | progressed next taken output hint' ↦
        with_output output (decode fuel next hint' (drop taken (b ∷ bs)))
  ]

  -- What the loop over an input does to the file: what is decoded is appended, and nothing else changes.
  Joined : ℕ → FilePath → List ℕ → Progress Stream → Looped Stream → Type 0
  Joined fuel part input p (through next) =
      (bytes : List ℕ) × (decode fuel p.stream p.pending input
        ≡ some (next.stream, (next.pending, bytes)))
      × (contents part next.disk ≡ contents part p.disk ++ bytes)
      × SameBut part p.disk next.disk
  Joined fuel part input p (broken disk) = SameBut part p.disk disk
  Joined fuel part input p stuck = Unit

  Joined-step :
      (fuel : ℕ) (part : FilePath) (b : ℕ) (bs : List ℕ) (p : Progress Stream) (stream : Stream)
      (taken : ℕ) (output : List ℕ) (hint : ℕ) (disk : Disk) (more : List (List WriteAnswer))
      (r : Looped Stream)
      → zstd.decompress p.stream (b ∷ bs) ≡ progressed stream taken output hint
      → LoopEnd part output p.disk (saved disk)
      → Joined fuel part
          (drop taken (b ∷ bs))
          (record { stream = stream; pending = hint; disk = disk; flushes = more })
          r
      → Joined (suc fuel) part (b ∷ bs) p r
  unfolding Joined decode
  Joined-step fuel part b bs p stream taken output hint disk more (through next) e w
        (bytes, d, c, s) =
      (
        output ++ bytes,
        rw (e, decode) (rw d refl),
        c ∙ ap (λ l. l ++ bytes) w.0 ∙ append_assoc (contents part p.disk) output bytes,
        λ q t. s q t ∙ w.1 q t,
      )
  Joined-step fuel part b bs p stream taken output hint disk more (broken after) e w j =
      λ q t. j q t ∙ w.1 q t
  Joined-step fuel part b bs p stream taken output hint disk more stuck e w j = tt

  decompress_loop-Joined :
      (fuel : ℕ) (part : FilePath) (input : List ℕ) (p : Progress Stream)
      → Joined fuel part input p (decompress_loop zstd fuel part input p)
  unfolding decompress_loop Joined decode
  decompress_loop-Joined fuel part [] p = ([], refl, sym (append-nil _), λ q t. refl)
  decompress_loop-Joined zero part (b ∷ bs) p = tt
  decompress_loop-Joined (suc fuel) part (b ∷ bs) p =
      at_call (decompress_loop-Joined fuel part) (zstd.decompress p.stream (b ∷ bs)) refl p.flushes
    where
      at_saved :
          ((input : List ℕ) (q : Progress Stream)
            → Joined fuel part input q (decompress_loop zstd fuel part input q))
          → (stream : Stream) (taken : ℕ) (output : List ℕ) (hint : ℕ)
            (more : List (List WriteAnswer)) (r : Saved)
          → zstd.decompress p.stream (b ∷ bs) ≡ progressed stream taken output hint
          → LoopEnd part output p.disk r
          → Joined (suc fuel) part (b ∷ bs) p (
              after_flush r (λ disk.
                decompress_loop zstd fuel part
                  (drop taken (b ∷ bs))
                  (record { stream = stream; pending = hint; disk = disk; flushes = more })))
      at_saved ih stream taken output hint more unfinished e w = tt
      at_saved ih stream taken output hint more (failed disk) e w = w
      at_saved ih stream taken output hint more (saved disk) e w =
          Joined-step fuel part b bs p stream taken output hint disk more _ e w (
            ih (drop taken (b ∷ bs))
              (record { stream = stream; pending = hint; disk = disk; flushes = more }))

      at_call :
          ((input : List ℕ) (q : Progress Stream)
            → Joined fuel part input q (decompress_loop zstd fuel part input q))
          → (called : Decompressed Stream) → zstd.decompress p.stream (b ∷ bs) ≡ called
          → (flushes : List (List WriteAnswer))
          → Joined (suc fuel) part (b ∷ bs) p (elim called [
            | zstd_error ↦ broken p.disk
            | progressed stream taken output hint ↦ elim flushes [
              | [] ↦ stuck
              | answers ∷ more ↦ after_flush (write_loop part answers output p.disk) (λ disk.
                  decompress_loop zstd fuel part
                    (drop taken (b ∷ bs))
                    (record { stream = stream; pending = hint; disk = disk; flushes = more }))
            ]
          ])
      at_call ih zstd_error e flushes = λ q t. refl
      at_call ih (progressed stream taken output hint) e [] = tt
      at_call ih (progressed stream taken output hint) e (answers ∷ more) =
          at_saved ih stream taken output hint more (write_loop part answers output p.disk) e
            (write_loop-LoopEnd part answers output p.disk)

  -- The same for the chunks of a file, each read from the disk as it is before the loop.
  pub decode_chunks : ℕ → Stream → ℕ → List (List ℕ) → Option (Stream × (ℕ × List ℕ))
  decode_chunks fuel stream hint [] = some (stream, (hint, []))
  decode_chunks fuel stream hint (chunk ∷ chunks) = elim (decode fuel stream hint chunk) [
    | none ↦ none
    | some (next, (hint', output)) ↦ with_output output (decode_chunks fuel next hint' chunks)
  ]

  unfoldable pub JoinedAll :
      ℕ → FilePath → List FilePath → Disk → Progress Stream → Looped Stream → Type 0
  JoinedAll fuel part paths before p (through next) =
      (bytes : List ℕ) × (decode_chunks fuel p.stream p.pending (read_all before paths)
        ≡ some (next.stream, (next.pending, bytes)))
      × (contents part next.disk ≡ contents part p.disk ++ bytes)
      × SameBut part before next.disk
  JoinedAll fuel part paths before p (broken disk) = SameBut part before disk
  JoinedAll fuel part paths before p stuck = Unit

  contents-SameBut :
      (part path : FilePath) (before after : Disk)
      → SameBut part before after
      → same part path ≡ false
      → contents path after ≡ contents path before
  unfolding contents
  contents-SameBut part path before after s d =
      ap (λ (o : Option (List ℕ)). elim o [ none ↦ [] | some bytes ↦ bytes ]) (s path d)

  JoinedAll-step :
      (fuel : ℕ) (part path : FilePath) (paths : List FilePath) (before : Disk)
      (p next : Progress Stream) (r : Looped Stream) (input : List ℕ)
      → input ≡ contents path before
      → Joined fuel part input p (through next)
      → JoinedAll fuel part paths before next r
      → JoinedAll fuel part (path ∷ paths) before p r
  unfolding Joined JoinedAll decode_chunks
  JoinedAll-step fuel part path paths before p next (through last) input e (output, d, c, s)
        (bytes, d', c', s') =
      (
        output ++ bytes,
        rw (sym e, decode_chunks) (rw (d, decode_chunks) (rw d' refl)),
        c' ∙ ap (λ l. l ++ bytes) c ∙ append_assoc (contents part p.disk) output bytes,
        s',
      )
  JoinedAll-step fuel part path paths before p next (broken disk) input e j s = s
  JoinedAll-step fuel part path paths before p next stuck input e j s = tt

  Joined-SameBut :
      (fuel : ℕ) (part : FilePath) (input : List ℕ) (p next : Progress Stream)
      → Joined fuel part input p (through next)
      → SameBut part p.disk next.disk
  unfolding Joined
  Joined-SameBut fuel part input p next (output, d, c, s) = s

  pub chunk_loop-JoinedAll :
      (fuel : ℕ) (readable : FilePath → Bool) (part : FilePath) (paths : List FilePath)
      (before : Disk) (p : Progress Stream)
      → All (λ path. same part path ≡ false) paths
      → SameBut part before p.disk
      → JoinedAll fuel part paths before p (chunk_loop zstd fuel readable part paths p)
  unfolding chunk_loop JoinedAll decode_chunks Joined
  chunk_loop-JoinedAll fuel readable part [] before p h s = ([], refl, sym (append-nil _), s)
  chunk_loop-JoinedAll fuel readable part ([] ∷ paths) before p h s = s
  chunk_loop-JoinedAll fuel readable part ((c ∷ path) ∷ paths) before p h s =
      at_chunk (λ next t. chunk_loop-JoinedAll fuel readable part paths before next h.1 t)
        (readable (c ∷ path)) (decompress_loop zstd fuel part (contents (c ∷ path) p.disk) p)
        (decompress_loop-Joined fuel part (contents (c ∷ path) p.disk) p)
    where
      at_chunk :
          ((next : Progress Stream)
            → SameBut part before next.disk
            → JoinedAll fuel part paths before next (chunk_loop zstd fuel readable part paths next))
          → (ok : Bool) (r : Looped Stream) → Joined fuel part (contents (c ∷ path) p.disk) p r
          → JoinedAll fuel part ((c ∷ path) ∷ paths) before p (
              if ok
              then after_chunk r (λ next. chunk_loop zstd fuel readable part paths next)
              else broken p.disk)
      at_chunk ih false r j = s
      at_chunk ih true (broken disk) j = λ q t. j q t ∙ s q t
      at_chunk ih true stuck j = tt
      at_chunk ih true (through next) j =
          JoinedAll-step fuel part (c ∷ path) paths before p next _ (contents (c ∷ path) p.disk)
            (contents-SameBut part (c ∷ path) before p.disk s h.0) j
            (ih next
              (λ q t. Joined-SameBut fuel part (contents (c ∷ path) p.disk) p next j q t ∙ s q t))
