-- ===== src/Local/Disk.antt =====
-- What `MNNSaver::SaveASync` of src/MNNSaver.cpp does to the file system, with what a load then gives
-- (src/MNNLoader.cpp) in Disk/Created. A file is created, or emptied, by a `std::ofstream` before its
-- write is started, which begins at the start of the file. Other texts for the path of a file are left
-- out, and so is what else changes it meanwhile.
pub mod Ended
pub mod Created
use async_iomanager.Common.{
  is_empty, codes, ℕ, ◌+◌, ◌≤◌, ◌<◌, Bool, Bool-cases, true, false, Option, none, some, List, [],
  ◌∷◌, ◌++◌, Bytes, length, drop, take, subst, take_all, drop_all, append-nil, All, if◌then◌else◌,
  ◌≡◌, ◌⊎◌, inl, inr, refl, sym, ap, ◌∙◌, arith,
}
use async_iomanager.Io.{Files, success, Call, returned}
use async_iomanager.Manager.Maps.{same, same_self, same_iff}
use async_iomanager.Local.{
  Answer, no_directory, not_open, opened, Saving, start_write, save_files, begin_saving, save_async,
}
use async_iomanager.Local.Writes.{Answer-cases, started}
use async_iomanager.Local.Sync.{Disk, put, load_file}

-- `std::ofstream file( directoryWithFile, std::ios::binary )`, which is not asked whether it is open.
unfoldable pub create_file : Bytes → Disk → Disk
create_file filename disk = if disk.writable filename then put filename [] disk else disk

-- The loop of `SaveASync`, as far as it creates the files.
unfoldable pub create_files : Bytes → (ℕ → Answer) → ℕ → List Bytes → Disk → Disk
create_files dir answers i [] disk = disk
create_files dir answers i (name ∷ names) disk =
    let rest = create_files dir answers (i + 1) names (create_file (dir ++ name) disk) in
    elim (answers i) [
      | no_directory ↦ disk
      | not_open ↦ create_file (dir ++ name) disk
      | opened ↦ rest
    ]

-- The end of a write of which so many bytes came to the disk, over what the file has.
unfoldable pub end_write : Bytes × Bytes → ℕ → Disk → Disk
end_write (filename, content) n disk = elim (disk.contents filename) [
  | none ↦ disk
  | some old ↦ put filename (take n content ++ drop (length (take n content)) old) disk
]

-- Some of the started writes have ended, in any order, each with all its bytes.
pub data Ends (ws : List (Bytes × Bytes)) (disk : Disk) : List (Bytes × Bytes) → Disk → Type 0 where
  none_ended : Ends ws disk ws disk
  one_ended :
      {d : Disk} (before after : List (Bytes × Bytes)) (w : Bytes × Bytes) (n : ℕ)
      → Ends ws disk (before ++ w ∷ after) d
      → length w.1 ≤ n
      → Ends ws disk (before ++ after) (end_write w n d)

-- How many of some writes are to a file.
abbrev pub writes_to : Bytes → List (Bytes × Bytes) → ℕ
writes_to path [] = 0
writes_to path (w ∷ ws) = (if same path w.0 then 1 else 0) + writes_to path ws

-- All writes to the file have the same content.
abbrev pub Agree : Bytes → Bytes → List (Bytes × Bytes) → Type 0
Agree path content ws = All (λ w. same path w.0 ≡ true → w.1 ≡ content) ws
