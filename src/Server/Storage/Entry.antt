-- ===== src/Server/Storage/Entry.antt =====
-- What an entry of `payloads_` says of the chunks that were stored.
use super_voice.Base.{
  ℕ, suc, ◌<◌, ◌≡◌, ◌↔◌, refl, sym, ap, ◌∙◌, ◌⊎◌, inl, inr, true, false, ◌||◌, Option, some, List,
  [], ◌∷◌, ◌++◌, arith, ◌==◌, if◌then◌else◌, length, set, get_elem?, replicate, length-replicate,
  length-set, Bool-cases, ==→eq, eq→==, get_elem?-set_self, get_elem?-set_ne,
}
use super_voice.Server.Disk.{FilePath}
use super_voice.Server.Storage.{
  Storage, ChunkData, PayloadRecord, PayloadEntry, join, ends_with_slash, patch_file_name, no_entry,
  update_entry, adopt, is_empty, is_complete, contains, insert_index, grow,
}
use super_voice.Server.Storage.Slots.{
  filled, filled_full, full-filled, filled-set_empty, filled-set_file, filled-replicate,
  get_elem?-replicate, grow_enough, grow-nil, contains-insert_index, length-insert_new,
  length-insert_old,
}

-- Where chunk `i` of the file `file_id` is kept.
abbrev pub patch_path_of : FilePath → List ℕ → ℕ → FilePath
patch_path_of patches_dir file_id i = join (join patches_dir file_id) (patch_file_name i)

false-ne : false ≡ true → ⊥
false-ne q = cc

abbrev IsCons : FilePath → Type 0
IsCons p = (c : ℕ) × (cs : FilePath) × (p ≡ c ∷ cs)

append-IsCons : (xs : FilePath) (y : ℕ) (ys : FilePath) → IsCons (xs ++ (y ∷ ys))
append-IsCons [] y ys = (y, ys, refl)
append-IsCons (x ∷ xs) y ys = (x, xs ++ (y ∷ ys), refl)

-- The path is not empty.
pub patch_path_some : (dir : FilePath) (id : List ℕ) (i : ℕ) → IsCons (patch_path_of dir id i)
unfolding join patch_file_name
patch_path_some dir id i = elim (Bool-cases (ends_with_slash (join dir id))) [
  | inl e ↦ rw e (append-IsCons (join dir id) _ _)
  | inr e ↦ rw e (append-IsCons (join dir id) _ _)
]

-- The entry keeps the record of one file of `total_chunks` chunks: at each index the place holds the
-- chunk's path if the index was received, and is empty if not.
pub record Tracks (dir : FilePath) (id : List ℕ) (e : PayloadEntry) : Type 0 where
  pub file_id : e.info.file_id ≡ id
  pub patches_dir : e.info.patches_dir ≡ join dir id
  pub some_chunks : 0 < e.info.total_chunks
  pub sized : length e.info.chunk_files ≡ e.info.total_chunks
  pub places :
      (i : ℕ)
      → i < e.info.total_chunks
      → get_elem? e.info.chunk_files i
        ≡ some (if contains i e.received then patch_path_of dir id i else [])
  pub counted : filled e.info.chunk_files ≡ length e.received

-- One more chunk in the table and in the set.
abbrev Places : FilePath → List ℕ → ℕ → List FilePath → List ℕ → Type 0
Places dir id n files received =
    (length files ≡ n)
    × ((i : ℕ)
        → i < n
        → get_elem? files i ≡ some (if contains i received then patch_path_of dir id i else []))
    × (filled files ≡ length received)

module _ (dir : FilePath) (id : List ℕ) (n : ℕ) where
  Places-new : Places dir id n (replicate n []) []
  unfolding contains
  Places-new = (length-replicate n [], λ i h. get_elem?-replicate n i h, filled-replicate n)

  filled-store :
      (files : List FilePath) (received : List ℕ) (k : ℕ)
      → k < n
      → Places dir id n files received
      → filled (set files k (patch_path_of dir id k)) ≡ length (insert_index k received)
  filled-store files received k h p =
      let path = patch_path_some dir id k in
      elim (Bool-cases (contains k received)) [
        | inl old ↦
            let place : get_elem? files k ≡ some (path.0 ∷ path.1) =
              rw (old, path.2) at (p.1 k h) in
            rw (path.2, length-insert_old k received old)
              (filled-set_file files k path.0 path.0 path.1 path.1 place ∙ p.2)
        | inr new ↦
            let place : get_elem? files k ≡ some [] = rw new at (p.1 k h) in
            rw (path.2, length-insert_new k received new)
              (filled-set_empty files k path.0 path.1 place ∙ ap suc p.2)
      ]

  Places-store :
      (files : List FilePath) (received : List ℕ) (k : ℕ)
      → k < n
      → Places dir id n files received
      → Places dir id n (set files k (patch_path_of dir id k)) (insert_index k received)
  Places-store files received k h p = (
    length-set files k _ ∙ p.0,
    λ i hi. rw (contains-insert_index k i received) (at i hi (Bool-cases (i == k))),
    filled-store files received k h p,
  )
    where
      at :
          (i : ℕ)
          → i < n
          → ((i == k) ≡ true) ⊎ ((i == k) ≡ false)
          → get_elem? (set files k (patch_path_of dir id k)) i
            ≡ some (if i == k || contains i received then patch_path_of dir id i else [])
      at i hi (inl e) = rw e (rw (==→eq i k e) (get_elem?-set_self files k _ (omega (arith, p.0))))
      at i hi (inr d) =
          rw d (get_elem?-set_ne files k i _ (λ q. false-ne (sym d ∙ eq→== i k (sym q))) ∙ p.1 i hi)

-- An entry that is in step with its file counts as complete exactly if every index below its
-- number of chunks was received.
pub is_complete_iff :
    (dir : FilePath) (id : List ℕ) (e : PayloadEntry)
    → Tracks dir id e
    → (is_complete e ≡ true) ↔ ((i : ℕ) → i < e.info.total_chunks → contains i e.received ≡ true)
unfolding is_complete
is_complete_iff dir id e t = (λ c i h. all c i h (Bool-cases (contains i e.received)), back)
  where
    all :
        is_complete e ≡ true
        → (i : ℕ) → i < e.info.total_chunks
        → (contains i e.received ≡ true) ⊎ (contains i e.received ≡ false)
        → contains i e.received ≡ true
    all c i h (inl y) = y
    all c i h (inr n) =
        let place : get_elem? e.info.chunk_files i ≡ some [] = rw n at (t.places i h) in
        let count : length e.received ≡ e.info.total_chunks = ==→eq _ _ c in
        absurd (
          filled_full e.info.chunk_files i (omega (arith, t.counted, t.sized, count))
            (omega (arith, t.sized, h)) place)

    not_empty : {c : ℕ} {cs : FilePath} → ◌≡◌ {A = Option FilePath} (some []) (some (c ∷ cs)) → ⊥
    not_empty p = cc

    back : ((i : ℕ) → i < e.info.total_chunks → contains i e.received ≡ true) → is_complete e ≡ true
    back h =
        let full : filled e.info.chunk_files ≡ length e.info.chunk_files =
          full-filled e.info.chunk_files (λ i p q.
            let place : get_elem? e.info.chunk_files i ≡ some (patch_path_of dir id i) =
              rw (h i (omega (arith, t.sized, p))) at (t.places i (omega (arith, t.sized, p))) in
            let path = patch_path_some dir id i in not_empty (sym q ∙ place ∙ ap some path.2)) in
        eq→== _ _ (omega (arith, t.counted, t.sized, full))

module _ (s : Storage) (chunk : ChunkData) (now : ℕ) where
  abbrev id : List ℕ
  id = chunk.file_id

  abbrev stored : PayloadEntry → PayloadEntry
  stored =
      update_entry s chunk (join s.patches_dir id) (patch_path_of s.patches_dir id chunk.index) now

  is_empty-false : (ps : List FilePath) → 0 < length ps → is_empty ps ≡ false
  unfolding is_empty
  is_empty-false [] h = absurd (omega arith)
  is_empty-false (p ∷ ps) h = refl

  adopt_old :
      (dir : FilePath) (info : PayloadRecord)
      → 0 < length info.chunk_files
      → adopt s chunk dir info ≡ info
  unfolding adopt
  adopt_old dir info h = rw (is_empty-false info.chunk_files h) refl

  -- The first chunk of a file starts its record.
  pub update_new-Tracks :
      chunk.index < chunk.total_chunks
      → Tracks s.patches_dir id (stored no_entry)
        × ((stored no_entry).info.total_chunks ≡ chunk.total_chunks)
  unfolding update_entry adopt is_empty
  update_new-Tracks h =
      let pos : 0 < chunk.total_chunks = omega arith in
      let p : Places s.patches_dir id chunk.total_chunks (grow chunk.total_chunks []) [] =
        rw (grow-nil chunk.total_chunks) (Places-new s.patches_dir id chunk.total_chunks) in
      let q = Places-store s.patches_dir id chunk.total_chunks _ [] chunk.index h p in
      (
        record {
          file_id = refl;
          patches_dir = refl;
          some_chunks = pos;
          sized = q.0;
          places = q.1;
          counted = q.2;
        },
        refl,
      )

  -- A later chunk of the same number of chunks is added to it.
  pub update_old-Tracks :
      (e : PayloadEntry)
      → chunk.index < chunk.total_chunks
      → e.info.total_chunks ≡ chunk.total_chunks
      → Tracks s.patches_dir id e
      → Tracks s.patches_dir id (stored e) × ((stored e).info.total_chunks ≡ chunk.total_chunks)
  unfolding update_entry
  update_old-Tracks e h same t =
      let kept : adopt s chunk (join s.patches_dir id) e.info ≡ e.info =
        adopt_old (join s.patches_dir id) e.info (omega (arith, t.sized, t.some_chunks)) in
      let wide : grow chunk.total_chunks e.info.chunk_files ≡ e.info.chunk_files =
        grow_enough chunk.total_chunks e.info.chunk_files (t.sized ∙ same) in
      let q =
        Places-store s.patches_dir id e.info.total_chunks e.info.chunk_files e.received chunk.index
          (omega (arith, h, same)) (t.sized, t.places, t.counted) in
      rw (kept, wide)
        (
          record {
            file_id = t.file_id;
            patches_dir = t.patches_dir;
            some_chunks = t.some_chunks;
            sized = q.0;
            places = q.1;
            counted = q.2;
          },
          same,
        )
