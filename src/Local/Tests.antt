-- ===== src/Local/Tests.antt =====
-- Loads and saves of local files (src/MNNLoader.cpp, src/MNNSaver.cpp), and the theorems about them.
use async_iomanager.Common.{
  ℕ, ◌+◌, ◌≤◌, true, false, some, List, [], ◌∷◌, Bytes, codes, ◌⊎◌, ◌≡◌, refl, arith, if◌then◌else◌,
  ◌==◌,
}
use async_iomanager.Io.{Files, success, returned}
use async_iomanager.Local.{
  Answer, not_open, opened, Saving, start_write, save_files, save_async, write_done, run_posted,
  complete_all,
}
use async_iomanager.Local.Sync.{Disk, load_file}
use async_iomanager.Local.Disk.{create_file, create_files, end_write, Ends, none_ended, one_ended}
use async_iomanager.Local.Disk.Created.{save_async-load_file}
use async_iomanager.Local.Writes.{save_async-plan, save_async_once}

abbrev two_files : Files
two_files = record { paths = codes "a" ∷ codes "b" ∷ []; contents = codes "one" ∷ codes "two" ∷ [] }

-- The second of two files does not open: the first is still written, and the end is reported once.
abbrev second_fails : ℕ → Answer
second_fails i = if i == 1 then not_open else opened

abbrev half : Saving
half = record {
  remaining_writes = 2;
  writes = (codes "dir/a", codes "one") ∷ [];
  pending = 1;
  posted = 1;
  calls = 0;
  location = codes "file://dir/";
}

half-returned :
    save_async (codes "dir/") (success (some two_files)) true (codes "id") second_fails
    ≡ (returned tt, half)
unfolding save_async save_files start_write
half-returned = refl

save_async_once_example :
    ((complete_all half (run_posted ∷ write_done ∷ [])).calls ≤ 1)
    × ((1
          ≤ (complete_all half (run_posted ∷ write_done ∷ [])).pending
            + (complete_all half (run_posted ∷ write_done ∷ [])).posted)
        ⊎ ((complete_all half (run_posted ∷ write_done ∷ [])).calls ≡ 1))
save_async_once_example =
    save_async_once (codes "dir/") (codes "id") two_files true second_fails half
      (run_posted ∷ write_done ∷ []) half-returned (omega arith) (omega arith)

save_async-plan_example :
    (left : List (Bytes × Bytes)) × ((codes "dir/a", codes "one") ∷ left
      ≡ (codes "dir/a", codes "one") ∷ (codes "dir/b", codes "two") ∷ [])
    × ((1 ≤ half.posted) ⊎ (left ≡ []))
    × (codes "file://dir/" ≡ codes "file://dir/")
save_async-plan_example =
    save_async-plan (codes "dir/") (codes "id") two_files second_fails half half-returned

abbrev no_names : Files
no_names = record { paths = []; contents = codes "one" ∷ [] }

abbrev none_begun : Saving
none_begun = record {
  remaining_writes = 0;
  writes = [];
  pending = 0;
  posted = 0;
  calls = 0;
  location = [];
}

none_begun-returned :
    save_async (codes "dir/") (success (some no_names)) false (codes "id") second_fails
    ≡ (returned tt, none_begun)
unfolding save_async save_files
none_begun-returned = refl

-- The file has a longer content before the save.
abbrev old_disk : Disk
old_disk = record {
  contents = λ path. some (codes "longer");
  readable = λ path. true;
  writable = λ path. true;
}

abbrev emptied : Disk
emptied = create_files (codes "dir/") second_fails 0 two_files.paths old_disk

abbrev new_disk : Disk
new_disk = end_write (codes "dir/a", codes "one") 3 emptied

first_ended : Ends half.writes emptied [] new_disk
first_ended = one_ended [] [] (codes "dir/a", codes "one") 3 none_ended (omega arith)

save_async-load_file_example : load_file new_disk (codes "dir/a") ≡ returned (codes "one")
unfolding create_files create_file end_write
save_async-load_file_example =
    save_async-load_file (codes "dir/") (codes "id") two_files true second_fails half old_disk
      new_disk (codes "dir/a") (codes "one") half-returned refl (omega arith) ((λ e. refl), tt)
      first_ended refl
