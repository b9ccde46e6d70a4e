-- ===== src/Server/Storage.antt =====
-- `class Storage` of FileRelay_.server/Server/src/storage.hpp. A method holds the mutex while it
-- works on `payloads_`; it takes what the operating system answers as arguments, and gives `none`
-- while a call of the system has not ended. Times are nanoseconds since the epoch, and lifetimes
-- signed seconds. Messages to the log are left out.
pub mod Slots
pub mod Entry
pub mod Store
pub mod Ttl
pub mod Tests
use super_voice.Base.{
  ℕ, zero, suc, ◌+◌, ◌*◌, ◌/◌, Bool, true, false, not, ◌&&◌, ◌||◌, Option, none, some, List, [],
  ◌∷◌, ◌++◌, ◌==◌, ltb, if◌then◌else◌, length, replicate, set, max, ◌-◌,
}
use super_voice.Base.Int.{ℤ, pos, negsuc, pos_part, neg_part, is_positive}
use super_voice.Base.Map
use super_voice.Base.Map.{Map}
use super_voice.Base.Text.{text, to_string, to_string_signed, same}
use super_voice.Crc.{bitwise_crc32}
use super_voice.Server.Disk.{Disk, FilePath, SaveCalls, Saved, unfinished, saved, failed, save_file}

pub record ChunkData : Type 0 where
  pub file_id : List ℕ
  pub original_name : List ℕ
  pub index : ℕ
  pub total_chunks : ℕ
  pub ttl : ℤ
  pub header_bytes : List ℕ
  pub payload : List ℕ
  pub header_crc : ℕ
  pub payload_crc : ℕ

-- A chunk file that is not there yet is the empty path.
pub record PayloadRecord : Type 0 where
  pub file_id : List ℕ
  pub original_name : List ℕ
  pub total_chunks : ℕ
  pub patches_dir : FilePath
  pub files_dir : FilePath
  pub chunk_files : List FilePath

-- `received` is a set: only its size and its insertion are used.
pub record PayloadEntry : Type 0 where
  pub info : PayloadRecord
  pub received : List ℕ
  pub last_update : ℕ
  pub ttl : ℤ
  pub state : List ℕ

pub record Storage : Type 0 where
  pub patches_dir : FilePath
  pub files_dir : FilePath
  pub default_ttl : ℤ
  pub payloads : Map PayloadEntry
  pub disk : Disk

-- `operator/` of `std::filesystem::path`: an absolute right side replaces the left one.
unfoldable pub ends_with_slash : FilePath → Bool
ends_with_slash [] = true
ends_with_slash (c ∷ []) = c == b'/'
ends_with_slash (c ∷ d ∷ cs) = ends_with_slash (d ∷ cs)

unfoldable pub join : FilePath → FilePath → FilePath
unfolding ends_with_slash
join dir [] = if ends_with_slash dir then dir else dir ++ (b'/' ∷ [])
join dir (c ∷ cs) =
    if c == b'/'
    then c ∷ cs
    else if ends_with_slash dir
    then dir ++ (c ∷ cs)
    else dir ++ (b'/' ∷ c ∷ cs)

pub patch_file_name : ℕ → FilePath
unfolding to_string
patch_file_name index = text "patch_" ++ (to_string index ++ text ".bin")

pub verify_crc : ChunkData → Bool
verify_crc chunk =
    if bitwise_crc32 chunk.header_bytes == chunk.header_crc
    then bitwise_crc32 chunk.payload == chunk.payload_crc
    else false

-- `std::set::insert`
pub contains : ℕ → List ℕ → Bool
contains i [] = false
contains i (x ∷ xs) = i == x || contains i xs

pub insert_index : ℕ → List ℕ → List ℕ
unfolding contains
insert_index i xs = if contains i xs then xs else i ∷ xs

-- `chunk_files.resize(std::max(chunk_files.size(), total_chunks))`: it never shrinks.
pub grow : ℕ → List FilePath → List FilePath
grow n xs = xs ++ replicate (n - length xs) []

-- The line of `ids.list`: a time point is cut to seconds.
pub manifest_line : PayloadEntry → List ℕ
manifest_line entry =
    entry.info.file_id
    ++ (text ","
        ++ (entry.info.original_name
            ++ (text ","
                ++ (to_string (entry.last_update / 1_000_000_000)
                    ++ (text ","
                        ++ (to_string_signed entry.ttl
                            ++ (text "," ++ (entry.state ++ text "\n"))))))))

-- The manifest is saved or not; nothing waits for the result.
pub persist_manifest : PayloadEntry → SaveCalls → Disk → Option Disk
unfolding join manifest_line
persist_manifest entry calls disk =
    elim (save_file (join entry.info.patches_dir (text "ids.list")) (manifest_line entry) calls
      disk) [ unfinished ↦ none | saved d ↦ some d | failed d ↦ some d ]

-- `payloads_[file_id]` makes an entry with nothing in it where there is none.
abbrev pub no_entry : PayloadEntry
no_entry = record {
  info = record {
    file_id = [];
    original_name = [];
    total_chunks = 0;
    patches_dir = [];
    files_dir = [];
    chunk_files = [];
  };
  received = [];
  last_update = 0;
  ttl = pos 0;
  state = text "partial";
}

abbrev pub entry_or_new : Option PayloadEntry → PayloadEntry
entry_or_new none = no_entry
entry_or_new (some entry) = entry

pub is_empty : List FilePath → Bool
is_empty [] = true
is_empty (p ∷ ps) = false

-- `if (entry.record.chunk_files.empty()) { ... }`
pub adopt : Storage → ChunkData → FilePath → PayloadRecord → PayloadRecord
unfolding is_empty
adopt s chunk manifest_dir info =
    if is_empty info.chunk_files
    then record info {
      file_id = chunk.file_id;
      original_name = chunk.original_name;
      total_chunks = chunk.total_chunks;
      patches_dir = manifest_dir;
      files_dir = s.files_dir;
    }
    else info

-- The entry after the chunk at `patch_path` was added at time `now`. Writing past the end of
-- `chunk_files` has no meaning in C++; here it changes nothing.
pub update_entry : Storage → ChunkData → FilePath → FilePath → ℕ → PayloadEntry → PayloadEntry
unfolding adopt grow insert_index
update_entry s chunk manifest_dir patch_path now entry =
    let info = adopt s chunk manifest_dir entry.info in
    let chunk_files = set (grow chunk.total_chunks info.chunk_files) chunk.index patch_path in
    let received = insert_index chunk.index entry.received in
    record {
      info = record info { chunk_files = chunk_files };
      received = received;
      last_update = now;
      ttl = if is_positive chunk.ttl then chunk.ttl else s.default_ttl;
      state = if length received == info.total_chunks then text "complete" else text "partial";
    }

pub is_complete : PayloadEntry → Bool
is_complete entry = length entry.received == entry.info.total_chunks

-- What the system answers to `store_chunk`.
pub record StoreCalls : Type 0 where
  pub create_ok : Bool
  pub patch : SaveCalls
  pub now : ℕ
  pub manifest : SaveCalls

-- The part of `store_chunk` under the mutex.
pub register :
    ChunkData → FilePath → FilePath → StoreCalls → Storage → Option (Storage × Option PayloadRecord)
unfolding update_entry is_complete
register chunk manifest_dir patch_path calls s =
    let entry =
      update_entry s chunk manifest_dir patch_path calls.now
        (entry_or_new (Map.lookup chunk.file_id s.payloads)) in
    elim (persist_manifest entry calls.manifest s.disk) [
      | none ↦ none
      | some d ↦ some (
        record s { payloads = Map.insert chunk.file_id entry s.payloads; disk = d },
        if is_complete entry then some entry.info else none,
      )
    ]

pub store_chunk : ChunkData → StoreCalls → Storage → Option (Storage × Option PayloadRecord)
store_chunk chunk calls s =
    if not (verify_crc chunk)
    then some (s, none)
    else if not calls.create_ok
    then some (s, none)
    else (let manifest_dir = join s.patches_dir chunk.file_id in
        let patch_path = join manifest_dir (patch_file_name chunk.index) in
        elim (save_file patch_path chunk.payload calls.patch s.disk) [
          | unfinished ↦ none
          | failed d ↦ some (record s { disk = d }, none)
          | saved d ↦ register chunk manifest_dir patch_path calls (record s { disk = d })
        ])

pub mark_published : List ℕ → Storage → Storage
mark_published file_id s = record s { payloads = Map.erase file_id s.payloads }

pub ready_from : Map PayloadEntry → List PayloadRecord
unfolding is_complete
ready_from [] = []
ready_from ((id, entry) ∷ rest) =
    if is_complete entry then entry.info ∷ ready_from rest else ready_from rest

pub ready_payloads : Storage → List PayloadRecord
unfolding ready_from
ready_payloads s = ready_from s.payloads

-- The loop of `update_ttl`: each entry's manifest is saved with the new lifetime.
pub update_entries : ℤ → Map PayloadEntry → List SaveCalls → Disk → Option (Map PayloadEntry × Disk)
update_entries new_ttl [] calls disk = some ([], disk)
update_entries new_ttl ((id, entry) ∷ rest) [] disk = none
update_entries new_ttl ((id, entry) ∷ rest) (c ∷ calls) disk =
    let entry' : PayloadEntry = record entry { ttl = new_ttl } in
    elim (persist_manifest entry' c disk) [
      | none ↦ none
      | some d ↦ elim (update_entries new_ttl rest calls d) [
        | none ↦ none
        | some (rest', d') ↦ some ((id, entry') ∷ rest', d')
      ]
    ]

pub update_ttl : ℤ → List SaveCalls → Storage → Option Storage
unfolding update_entries
update_ttl new_ttl calls s = elim (update_entries new_ttl s.payloads calls s.disk) [
  | none ↦ none
  | some (payloads, d) ↦ some (record s { default_ttl = new_ttl; payloads = payloads; disk = d })
]

-- `now - last_update > ttl`, with both sides brought over to sums of nanoseconds.
pub expired : ℕ → PayloadEntry → Bool
expired now entry =
    ltb (entry.last_update + 1_000_000_000 * pos_part entry.ttl)
      (now + 1_000_000_000 * neg_part entry.ttl)

-- `std::filesystem::remove_all` is an argument: the disk after it was called on a directory.
pub cleanup_from : (FilePath → Disk → Disk) → ℕ → Map PayloadEntry → Disk → Map PayloadEntry × Disk
unfolding expired
cleanup_from remove_all now [] disk = ([], disk)
cleanup_from remove_all now ((id, entry) ∷ rest) disk = elim (expired now entry) [
  | true ↦ cleanup_from remove_all now rest (remove_all entry.info.patches_dir disk)
  | false ↦ (let after = cleanup_from remove_all now rest disk in ((id, entry) ∷ after.0, after.1))
]

pub cleanup_expired : (FilePath → Disk → Disk) → ℕ → Storage → Storage
unfolding cleanup_from
cleanup_expired remove_all now s =
    let after = cleanup_from remove_all now s.payloads s.disk in
    record s { payloads = after.0; disk = after.1 }
