-- ===== src/Server/Storage/Store.antt =====
-- What `store_chunk` keeps, and when it hands a record over.
use super_voice.Base.{
  ℕ, ◌<◌, ◌≡◌, sym, ap, ◌∙◌, ◌⊎◌, inl, inr, true, false, Option, none, some, List, arith,
  if◌then◌else◌, get_elem?, length, Bool-cases, Option-cases,
}
use mathlib.Core.List.{[]}
use mathlib.Core.Option.{some-injective}
use super_voice.Base.Map
use super_voice.Base.Map.{lookup-insert, lookup-insert_self, lookup-insert_ne}
use super_voice.Base.Text.{same, same→eq}
use super_voice.Server.Disk.{Disk, Saved, unfinished, saved, failed, save_file}
use super_voice.Server.Storage.{
  Storage, ChunkData, PayloadRecord, PayloadEntry, StoreCalls, join, verify_crc, entry_or_new,
  update_entry, is_complete, register, store_chunk,
}
use super_voice.Server.Storage.Entry.{
  Tracks, patch_path_of, is_complete_iff, update_new-Tracks, update_old-Tracks,
}

-- Every entry tracks its file.
abbrev pub Consistent : Storage → Type 0
Consistent s =
    (id : List ℕ) (e : PayloadEntry) → Map.lookup id s.payloads ≡ some e → Tracks s.patches_dir id e

-- The chunk names as many chunks as the entry of its file, if there is one.
abbrev pub Agrees : Storage → ChunkData → Type 0
Agrees s chunk =
    (e : PayloadEntry)
    → Map.lookup chunk.file_id s.payloads ≡ some e
    → e.info.total_chunks ≡ chunk.total_chunks

module _ (chunk : ChunkData) (calls : StoreCalls) (s : Storage) where
  -- The entry of the chunk's file with the chunk in it.
  abbrev pub entry_after : PayloadEntry
  entry_after =
      update_entry s chunk (join s.patches_dir chunk.file_id)
        (patch_path_of s.patches_dir chunk.file_id chunk.index) calls.now
        (entry_or_new (Map.lookup chunk.file_id s.payloads))

  abbrev pub handed_over : Option PayloadRecord
  handed_over = if is_complete entry_after then some entry_after.info else none

  -- A call that returns changed nothing but the disk, or put the entry in.
  abbrev Stored : Storage → Option PayloadRecord → Type 0
  Stored s' r =
      (s'.patches_dir ≡ s.patches_dir)
      × (((s'.payloads ≡ s.payloads) × (r ≡ none))
          ⊎ ((verify_crc chunk ≡ true)
              × (s'.payloads ≡ Map.insert chunk.file_id entry_after s.payloads)
              × (r ≡ handed_over)))

  register-Stored :
      (d : Disk) (s' : Storage) (r : Option PayloadRecord)
      → verify_crc chunk ≡ true
      → register chunk
          (join s.patches_dir chunk.file_id)
          (patch_path_of s.patches_dir chunk.file_id chunk.index)
          calls
          (record s { disk = d })
        ≡ some (s', r)
      → Stored s' r
  unfolding register
  register-Stored d s' r v h = ground arith

  -- What follows the save of the chunk.
  after_save : Saved → Option (Storage × Option PayloadRecord)
  after_save unfinished = none
  after_save (failed d) = some (record s { disk = d }, none)
  after_save (saved d) =
      register chunk (join s.patches_dir chunk.file_id)
        (patch_path_of s.patches_dir chunk.file_id chunk.index) calls (record s { disk = d })

  after_save-Stored :
      (sv : Saved) (s' : Storage) (r : Option PayloadRecord)
      → verify_crc chunk ≡ true
      → after_save sv ≡ some (s', r)
      → Stored s' r
  unfolding after_save
  after_save-Stored unfinished s' r v h = cc
  after_save-Stored (failed d) s' r v h = ground arith
  after_save-Stored (saved d) s' r v h = register-Stored d s' r v h

  saves :
      verify_crc chunk ≡ true
      → calls.create_ok ≡ true
      → after_save (
          save_file
            (patch_path_of s.patches_dir chunk.file_id chunk.index)
            chunk.payload
            calls.patch
            s.disk)
        ≡ store_chunk chunk calls s
  unfolding store_chunk after_save
  saves v c = ground arith

  skips :
      (verify_crc chunk ≡ false) ⊎ (calls.create_ok ≡ false)
      → ◌≡◌ {A = Option (Storage × Option PayloadRecord)}
          (some (s, none))
          (store_chunk chunk calls s)
  unfolding store_chunk
  skips h = ground arith

  pub store_chunk-Stored :
      (s' : Storage) (r : Option PayloadRecord)
      → store_chunk chunk calls s ≡ some (s', r)
      → Stored s' r
  store_chunk-Stored s' r h = go (Bool-cases (verify_crc chunk)) (Bool-cases calls.create_ok)
    where
      nothing :
          ◌≡◌ {A = Option (Storage × Option PayloadRecord)} (some (s, none)) (some (s', r))
          → Stored s' r
      nothing e = ground arith

      go :
          (verify_crc chunk ≡ true) ⊎ (verify_crc chunk ≡ false)
          → (calls.create_ok ≡ true) ⊎ (calls.create_ok ≡ false)
          → Stored s' r
      go (inl v) (inl c) = after_save-Stored _ s' r v (saves v c ∙ h)
      go (inl v) (inr c) = nothing (skips (inr c) ∙ h)
      go (inr v) _ = nothing (skips (inl v) ∙ h)

  -- The chunk's entry tracks the file.
  entry_after-Tracks :
      Consistent s
      → Agrees s chunk
      → chunk.index < chunk.total_chunks
      → Tracks s.patches_dir chunk.file_id entry_after
        × (entry_after.info.total_chunks ≡ chunk.total_chunks)
  entry_after-Tracks c a h = elim (Option-cases (Map.lookup chunk.file_id s.payloads)) [
    | inl absent ↦ rw absent (update_new-Tracks s chunk calls.now h)
    | inr (e, present) ↦
        rw present
          (update_old-Tracks s chunk calls.now e h (a e present) (c chunk.file_id e present))
  ]

-- A call of `store_chunk` that returns, for a chunk whose index is below its number of chunks and
-- agrees with what was stored of its file, keeps every entry in step with its file.
pub store_chunk-Consistent :
    (chunk : ChunkData) (calls : StoreCalls) (s s' : Storage) (r : Option PayloadRecord)
    → Consistent s
    → Agrees s chunk
    → chunk.index < chunk.total_chunks
    → store_chunk chunk calls s ≡ some (s', r)
    → Consistent s'
store_chunk-Consistent chunk calls s s' r c a h e id entry at =
    elim (store_chunk-Stored chunk calls s s' r e).1 [
      | inl (same_payloads, _) ↦ rw dirs (c id entry (ap (Map.lookup id) (sym same_payloads) ∙ at))
      | inr (_, inserted, _) ↦
          rw dirs
            (found (Bool-cases (same chunk.file_id id)) (ap (Map.lookup id) (sym inserted) ∙ at))
    ]
  where
    dirs : s'.patches_dir ≡ s.patches_dir
    dirs = (store_chunk-Stored chunk calls s s' r e).0

    found :
        (same chunk.file_id id ≡ true) ⊎ (same chunk.file_id id ≡ false)
        → Map.lookup id (Map.insert chunk.file_id (entry_after chunk calls s) s.payloads)
          ≡ some entry
        → Tracks s.patches_dir id entry
    found (inl y) q =
        let its : chunk.file_id ≡ id = same→eq chunk.file_id id y in
        let t = (entry_after-Tracks chunk calls s c a h).0 in
        let v = entry_after chunk calls s in
        let put : Map.lookup id (Map.insert chunk.file_id v s.payloads) ≡ some v =
          lookup-insert chunk.file_id id v s.payloads
          ∙ ap (λ b. if b then some v else Map.lookup id s.payloads) y in
        let this : entry_after chunk calls s ≡ entry = some-injective v entry (sym put ∙ q) in
        rw (← its, ← this) t
    found (inr n) q = c id entry (sym (lookup-insert_ne chunk.file_id id _ s.payloads n) ∙ q)

-- If every entry was in step with its file, and the chunk agrees with what was stored of its file
-- and has an index below its number of chunks, then a record that `store_chunk` hands over has the
-- number of chunks of that chunk, and each place of its table holds the path of the chunk of that
-- index.
pub store_chunk_complete :
    (chunk : ChunkData) (calls : StoreCalls) (s s' : Storage) (info : PayloadRecord)
    → Consistent s
    → Agrees s chunk
    → chunk.index < chunk.total_chunks
    → store_chunk chunk calls s ≡ some (s', some info)
    → (length info.chunk_files ≡ chunk.total_chunks)
      × (info.total_chunks ≡ chunk.total_chunks)
      × ((i : ℕ)
          → i < chunk.total_chunks
          → get_elem? info.chunk_files i ≡ some (patch_path_of s.patches_dir chunk.file_id i))
store_chunk_complete chunk calls s s' info c a h e =
    elim (store_chunk-Stored chunk calls s s' (some info) e).1 [
      | inl (_, nothing) ↦ absurd (some-ne-none nothing)
      | inr (_, _, handed) ↦ all (Bool-cases (is_complete (entry_after chunk calls s))) handed
    ]
  where
    entry : PayloadEntry
    entry = entry_after chunk calls s

    t : Tracks s.patches_dir chunk.file_id entry × (entry.info.total_chunks ≡ chunk.total_chunks)
    t = entry_after-Tracks chunk calls s c a h

    some-ne-none : {i : PayloadRecord} → some i ≡ none → ⊥
    some-ne-none p = cc

    place :
        is_complete entry ≡ true
        → (i : ℕ) → i < chunk.total_chunks
        → get_elem? entry.info.chunk_files i ≡ some (patch_path_of s.patches_dir chunk.file_id i)
    place y i below =
        let inside : i < entry.info.total_chunks = omega (arith, t.1, below) in
        t.0.places i inside
        ∙ ap (λ b. some (if b then patch_path_of s.patches_dir chunk.file_id i else []))
            ((is_complete_iff s.patches_dir chunk.file_id entry t.0).0 y i inside)

    all :
        (is_complete entry ≡ true) ⊎ (is_complete entry ≡ false)
        → some info ≡ handed_over chunk calls s
        → (length info.chunk_files ≡ chunk.total_chunks)
          × (info.total_chunks ≡ chunk.total_chunks)
          × ((i : ℕ)
              → i < chunk.total_chunks
              → get_elem? info.chunk_files i ≡ some (patch_path_of s.patches_dir chunk.file_id i))
    all (inr n) p = absurd (some-ne-none (p ∙ ap (λ b. if b then some entry.info else none) n))
    all (inl y) p =
        let same_info : info ≡ entry.info =
          some-injective info entry.info (p ∙ ap (λ b. if b then some entry.info else none) y) in
        rw same_info (t.0.sized ∙ t.1, t.1, place y)
