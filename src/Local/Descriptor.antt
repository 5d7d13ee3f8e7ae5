-- ===== src/Local/Descriptor.antt =====
-- src/FILECommon.cpp and include/FILECommon.hpp, `FILEDevice` on POSIX: who closes the file.
use async_iomanager.Common.{
  ℕ, ◌+◌, Bool, true, false, Option, none, some, List, [], ◌∷◌, ◌++◌, Bytes, ◌==◌, if◌then◌else◌,
  ◌≡◌, arith,
}

-- `O_RDONLY`, or `O_WRONLY | O_CREAT`.
pub data Flags : Type 0 where
  read_only write_create : Flags

pub record FileDevice : Type 0 where
  pub filename : Bytes
  pub flags : Flags
  -- `fd_`, where `none` is -1, and the descriptor that `file_` has
  pub fd : Option ℕ
  pub file : Option ℕ

-- The calls of the system: to open a file, and to close a descriptor; -1 is `none`.
pub data Op : Type 0 where
  open_file : Bytes → Flags → Op
  close_fd : Option ℕ → Op

-- The constructor, with its write mode.
pub file_device : Bytes → ℕ → FileDevice
file_device filename writemode = record {
  filename = filename;
  flags = if writemode == 0 then read_only else write_create;
  fd = none;
  file = none;
}

-- `Open`, with the descriptor that the system gives and whether `file_` takes it. The flag of the
-- result says that it failed.
pub open_device : FileDevice → Option ℕ → Bool → Bool × (FileDevice × List Op)
open_device d none assigned = (true, (record d { fd = none }, open_file d.filename d.flags ∷ []))
open_device d (some n) true =
    (false, (record d { fd = some n; file = some n }, open_file d.filename d.flags ∷ []))
open_device d (some n) false =
    (true, (record d { fd = none }, open_file d.filename d.flags ∷ close_fd (some n) ∷ []))

-- The destructor: `file_.close` closes the descriptor that `file_` has, and `close` that of `fd_`.
pub destroy : FileDevice → List Op
destroy d = (elim d.file [ none ↦ [] | some n ↦ close_fd (some n) ∷ [] ]) ++ close_fd d.fd ∷ []

abbrev pub closes : ℕ → Op → ℕ
closes n (close_fd (some m)) = if m == n then 1 else 0
closes n o = 0

-- How often a descriptor is closed.
abbrev pub closed : ℕ → List Op → ℕ
closed n [] = 0
closed n (o ∷ ops) = closes n o + closed n ops

-- Over the life of a device for a file that opens, its descriptor is closed once where `file_` does
-- not take it, and twice where it does.
pub closed_twice :
    (filename : Bytes) (writemode n : ℕ) (assigned : Bool)
    → let (failed, (d, ops)) = open_device (file_device filename writemode) (some n) assigned in
      (failed ≡ (if assigned then false else true))
      × (closed n (ops ++ destroy d) ≡ (if assigned then 2 else 1))
unfolding open_device file_device destroy
closed_twice filename writemode n true = ground arith
closed_twice filename writemode n false = ground arith
