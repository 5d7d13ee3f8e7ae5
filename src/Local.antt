-- ===== src/Local.antt =====
-- src/MNNLoader.cpp, src/MNNSaver.cpp and src/FILECommon.cpp: the loader and the saver of local
-- files. Whether a file opens, and whether its directory can be made, are answers of the system. The
-- saver's loop starts one write for each file; the end of a write is an event, and so is the run of
-- a posted `handle_write`.
pub mod Loading
pub mod Writes
pub mod Sync
pub mod Disk
pub mod Descriptor
mod Tests
use async_iomanager.Common.{
  ℕ, ◌+◌, ◌-◌, ◌%◌, ◌^◌, Bool, true, false, none, some, List, [], ◌∷◌, ◌++◌, Bytes, codes, filename,
  is_empty, length, leb, ◌==◌, if◌then◌else◌,
}
use async_iomanager.Io.{
  MnnLoaderError, mnn_loader, Files, ResultType, failure, success, Completion, failed, Exception,
  range_error, filesystem_error, bad_access, Call, returned, thrown, undefined, Action, op, call,
  post,
}

-- `FILEDevice`: its file, and whether it writes.
pub data Op : Type 0 where
  open_read : Bytes → Op
  async_read : Op

pub data State : Type 0 where
  reading finished : State

-- `async_read` of all data ends with an error's value, 2 for the end of the file.
pub data Event : Type 0 where
  read_done : ℕ → Bytes → Event

-- `MNNLoader::LoadASync`, with the answer of `FILEDevice::Open`.
pub load_async : Bytes → Bool → State × List (Action Op Completion)
load_async file opens = if opens then (reading, op (open_read file) ∷ op async_read ∷ []) else (
  finished,
  op (open_read file) ∷ post (failed (mnn_loader MnnLoaderError.file_open_fail)) ∷ [],
)

-- The lambda of `async_read`.
unfoldable pub on_read : Bytes → Bool → Bool → ℕ → Bytes → State × List (Action Op Completion)
on_read file parse save error buffer =
    if error == 2
    then (
      finished,
      call (record {
        buffers = success (some (record { paths = filename file ∷ []; contents = buffer ∷ [] }));
        parse = parse;
        save = save;
      })
          ∷ [],
    )
    else (finished, call (failed (mnn_loader MnnLoaderError.read_error)) ∷ [])

-- One event. When nothing is pending no read ends, and nothing changes.
unfoldable pub step : Bytes → Bool → Bool → State → Event → State × List (Action Op Completion)
step file parse save reading (read_done error buffer) = on_read file parse save error buffer
step file parse save finished e = (finished, [])

pub run : Bytes → Bool → Bool → State → List Event → State × List (Action Op Completion)
run file parse save s [] = (s, [])
run file parse save s (e ∷ es) =
    let (s', acts) = step file parse save s e in
    let (s'', bs) = run file parse save s' es in (s'', acts ++ bs)

-- The answers of the system when a file is about to be written: its directory cannot be made, it
-- does not open, or it opens.
pub data Answer : Type 0 where
  no_directory not_open opened : Answer

pub record Saving : Type 0 where
  -- `remainingWrites`, a `size_t`
  pub remaining_writes : ℕ
  -- the writes that were started, in their order, and the number of those that have not ended
  pub writes : List (Bytes × Bytes)
  pub pending : ℕ
  -- the posts of `handle_write` that have not run, and the calls of it
  pub posted : ℕ
  pub calls : ℕ
  pub location : Bytes

pub start_write : Bytes → Bytes → Saving → Saving
start_write file content s = record s {
  writes = s.writes ++ (file, content) ∷ [];
  pending = s.pending + 1;
}

abbrev post_handle_write : Saving → Saving
post_handle_write s = record s { posted = s.posted + 1 }

-- The loop over the files, from the file with a number on; a file without contents is read out of
-- bounds.
pub save_files :
    Bytes → (ℕ → Answer) → ℕ → List Bytes → List Bytes → Saving → Call (Unit {0}) × Saving
save_files dir answers i [] contents s = (returned tt, s)
save_files dir answers i (name ∷ names) [] s = elim (answers i) [
  | no_directory ↦ (thrown (filesystem_error (dir ++ name)), s)
  | not_open ↦ (returned tt, post_handle_write s)
  | opened ↦ (undefined, s)
]
save_files dir answers i (name ∷ names) (content ∷ contents) s =
    let rest =
      save_files dir answers (i + 1) names contents (start_write (dir ++ name) content s) in
    elim (answers i) [
      | no_directory ↦ (thrown (filesystem_error (dir ++ name)), s)
      | not_open ↦ (returned tt, post_handle_write s)
      | opened ↦ rest
    ]

-- The saver before its loop.
abbrev pub begin_saving : Bytes → Bool → List Bytes → Saving
begin_saving dir save_location names = record {
  remaining_writes = length names;
  writes = [];
  pending = 0;
  posted = 0;
  calls = 0;
  location = if save_location then codes "file://" ++ dir else [];
}

-- `MNNSaver::SaveASync`; the fresh name is the text of a random UUID. The value of a result that
-- failed cannot be taken, and a null pointer has no files.
pub save_async : Bytes → ResultType → Bool → Bytes → (ℕ → Answer) → Call (Unit {0}) × Saving
save_async file (failure e) save_location fresh answers =
    (thrown bad_access, begin_saving [] false [])
save_async file (success none) save_location fresh answers = (undefined, begin_saving [] false [])
save_async file (success (some f)) save_location fresh answers =
    if length f.contents == 0
    then (thrown (range_error (codes "Can not save with null data")), begin_saving [] false [])
    else (let dir = if is_empty file then fresh ++ codes "/" else file in
        save_files dir answers 0 f.paths f.contents (begin_saving dir save_location f.paths))

pub data Completed : Type 0 where
  write_done run_posted : Completed

-- The lambda of `async_write`.
pub on_write : Saving → Saving
on_write s =
    let left = (s.remaining_writes + (2 ^ 64 - 1)) % 2 ^ 64 in
    record s {
      remaining_writes = left;
      pending = s.pending - 1;
      calls = s.calls + (if leb left 0 then 1 else 0);
    }

-- One event, if it is due.
pub complete : Saving → Completed → Saving
complete s write_done = if s.pending == 0 then s else on_write s
complete s run_posted =
    if s.posted == 0 then s else record s { posted = s.posted - 1; calls = s.calls + 1 }

pub complete_all : Saving → List Completed → Saving
complete_all s [] = s
complete_all s (c ∷ cs) = complete_all (complete s c) cs
