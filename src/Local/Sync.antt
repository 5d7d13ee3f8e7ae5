-- ===== src/Local/Sync.antt =====
-- `MNNLoader::LoadFile` of src/MNNLoader.cpp and `MNNSaver::SaveFile` of src/MNNSaver.cpp, the
-- synchronous calls, on a file system. It has what stands under a path, and the paths that may be
-- read and written; directories are left out.
use async_iomanager.Common.{
  ℕ, ◌≤◌, Bool, true, Option, none, some, Bytes, codes, length, take, take_all, if◌then◌else◌, ◌≡◌,
  ◌≢◌, arith,
}
use async_iomanager.Io.{range_error, Call, returned, thrown}
use async_iomanager.Manager.Maps.{same, same_self, same_iff}

pub record Disk : Type 0 where
  pub contents : Bytes → Option Bytes
  pub readable : Bytes → Bool
  pub writable : Bytes → Bool

pub load_file : Disk → Bytes → Call Bytes
load_file disk filename = elim (disk.contents filename) [
  | none ↦ thrown (range_error (codes "File was not exist in system"))
  | some content ↦
      if disk.readable filename
      then returned content
      else thrown (range_error (codes "Can not open file"))
]

abbrev pub put : Bytes → Bytes → Disk → Disk
put filename content disk = record disk {
  contents = λ path. if same path filename then some content else disk.contents path;
}

-- A file is created or replaced. The stream is not asked whether the bytes were written: a disk with
-- too little room keeps only the first of them.
abbrev pub write_file : Disk → ℕ → Bytes → Bytes → Disk
write_file disk room filename content = put filename (take room content) disk

pub save_file : Disk → ℕ → Bytes → Option Bytes → Call (Unit {0}) × Disk
save_file disk room filename none =
    (thrown (range_error (codes "Can not save with null data")), disk)
save_file disk room filename (some content) =
    if disk.writable filename
    then (returned tt, write_file disk room filename content)
    else (thrown (range_error (codes "Can not create file for save")), disk)

pub load_file_existing :
    (disk : Disk) (filename content : Bytes)
    → disk.contents filename ≡ some content
    → disk.readable filename ≡ true
    → load_file disk filename ≡ returned content
unfolding load_file
load_file_existing disk filename content e may_read = ground arith

-- A save that returns has written the file: with room for it, a load of the file gives just the data
-- back, if the file may be read, and a load of any other file is as before.
pub load_file-save_file :
    (disk : Disk) (room : ℕ) (filename other : Bytes) (content : Bytes) (d' : Disk)
    → length content ≤ room
    → disk.readable filename ≡ true
    → other ≢ filename
    → save_file disk room filename (some content) ≡ (returned tt, d')
    → (load_file d' filename ≡ returned content) × (load_file d' other ≡ load_file disk other)
unfolding load_file save_file
load_file-save_file disk room filename other content d' fits may_read differs saved =
    ground (arith, take_all room content fits, same_self filename, same_iff other filename)

-- Where the disk has no room for all of the data, the save returns all the same, and a load gives back
-- what had room.
pub save_file-cut :
    (disk : Disk) (room : ℕ) (filename content : Bytes)
    → disk.readable filename ≡ true
    → disk.writable filename ≡ true
    → let (r, d') = save_file disk room filename (some content) in
      (r ≡ returned tt) × (load_file d' filename ≡ returned (take room content))
unfolding load_file save_file
save_file-cut disk room filename content may_read may_write = ground (arith, same_self filename)
