-- ===== src/Local/Disk/Created.antt =====
-- What `MNNSaver::SaveASync` of src/MNNSaver.cpp leaves, read again (src/MNNLoader.cpp).
use async_iomanager.Common.{
  is_empty, codes, ℕ, ◌+◌, ◌<◌, Bool, Bool-cases, true, some, List, [], ◌∷◌, ◌++◌, Bytes,
  if◌then◌else◌, ◌≡◌, inl, inr, ap, ◌∙◌, arith,
}
use async_iomanager.Io.{Files, success, Call, returned}
use async_iomanager.Manager.Maps.{same, same_iff}
use async_iomanager.Local.{Answer, Saving, start_write, save_files, begin_saving, save_async}
use async_iomanager.Local.Writes.{Answer-cases, started}
use async_iomanager.Local.Sync.{Disk, load_file, load_file_existing}
use async_iomanager.Local.Disk.{create_file, create_files, Ends, writes_to, Agree}
use async_iomanager.Local.Disk.Ended.{Ends-HasOrAwaits}

module _ (path : Bytes) where
  create_file-writable :
      (filename : Bytes) (disk : Disk) → (create_file filename disk).writable ≡ disk.writable
  unfolding create_file
  create_file-writable filename disk = ground arith

  create_file-empty :
      (filename : Bytes) (disk : Disk)
      → disk.contents path ≡ some []
      → (create_file filename disk).contents path ≡ some []
  unfolding create_file
  create_file-empty filename disk e = ground arith

  create_files-empty :
      (dir : Bytes) (answers : ℕ → Answer) (i : ℕ) (names : List Bytes) (disk : Disk)
      → disk.contents path ≡ some []
      → (create_files dir answers i names disk).contents path ≡ some []
  unfolding create_files
  create_files-empty dir answers i [] disk e = e
  create_files-empty dir answers i (name ∷ names) disk e =
      let first = create_file-empty (dir ++ name) disk e in
      ground (
        arith,
        first,
        create_files-empty dir answers (i + 1) names (create_file (dir ++ name) disk) first,
      )

  create_file-hit :
      (filename : Bytes) (disk : Disk)
      → same path filename ≡ true
      → disk.writable path ≡ true
      → (create_file filename disk).contents path ≡ some []
  unfolding create_file
  create_file-hit filename disk hit may_write = ground (arith, same_iff path filename)

  writes_to-append :
      (us vs : List (Bytes × Bytes))
      → writes_to path (us ++ vs) ≡ writes_to path us + writes_to path vs
  writes_to-append [] vs = omega arith
  writes_to-append (u ∷ us) vs = omega (arith, writes_to-append us vs)

  -- A file with a started write was created, and is empty.
  save_files-created :
      (dir : Bytes) (answers : ℕ → Answer) (i : ℕ) (names contents : List Bytes) (s : Saving)
      (disk : Disk)
      → disk.writable path ≡ true
      → let (r, s') = save_files dir answers i names contents s in
        r ≡ returned tt
        → writes_to path s.writes < writes_to path s'.writes
        → (create_files dir answers i names disk).contents path ≡ some []
  unfolding save_files create_files start_write
  save_files-created dir answers i [] contents s disk may_write h more = absurd (omega arith)
  save_files-created dir answers i (name ∷ names) [] s disk may_write h more =
      elim (Answer-cases (answers i)) [
        | inl e ↦ absurd (ground (arith, h, e))
        | inr (inl e) ↦ absurd (ground (arith, more, e))
        | inr (inr e) ↦ absurd (ground (arith, h, e))
      ]
  save_files-created dir answers i (name ∷ names) (c ∷ contents) s disk may_write h more =
      let d' = create_file (dir ++ name) disk in
      let s' = start_write (dir ++ name) c s in
      let writable = ap (λ (f : Bytes → Bool). f path) (create_file-writable (dir ++ name) disk) in
      let started = writes_to-append s.writes ((dir ++ name, c) ∷ []) in
      elim (Answer-cases (answers i)) [
        | inl e ↦ absurd (ground (arith, h, e))
        | inr (inl e) ↦ absurd (ground (arith, more, e))
        | inr (inr e) ↦
            rw (create_files, e)
              (elim (Bool-cases (same path (dir ++ name))) [
                | inl hit ↦
                    create_files-empty dir answers (i + 1) names d'
                      (create_file-hit (dir ++ name) disk hit may_write)
                | inr miss ↦
                    save_files-created dir answers (i + 1) names contents s' d'
                      (writable ∙ may_write) (ground (arith, h, e))
                      (ground (arith, more, e, started, miss))
              ])
      ]

-- A save of local files that returns, once all the writes that it started have ended with all their
-- bytes, in any order: a load of a file gives the content that was to be written to it, where there is
-- one such content, and the file may be written and then read; also if another file did not open.
pub save_async-load_file :
    (file fresh : Bytes) (f : Files) (save_location : Bool) (answers : ℕ → Answer) (s : Saving)
    (disk disk' : Disk) (path content : Bytes)
    → let dir = if is_empty file then fresh ++ codes "/" else file in
      save_async file (success (some f)) save_location fresh answers ≡ (returned tt, s)
      → disk.writable path ≡ true
      → 0 < writes_to path s.writes
      → Agree path content s.writes
      → Ends s.writes (create_files dir answers 0 f.paths disk) [] disk'
      → disk'.readable path ≡ true
      → load_file disk' path ≡ returned content
save_async-load_file file fresh f save_location answers s disk disk' path content h may_write
      some_write agree ended may_read =
    let dir = if is_empty file then fresh ++ codes "/" else file in
    let e = started file fresh f save_location answers s h in
    let begun = begin_saving dir save_location f.paths in
    let written = ap (λ (r : Call (Unit {0}) × Saving). writes_to path r.1.writes) e in
    let empty =
      save_files-created path dir answers 0 f.paths f.contents begun disk may_write
        (ap (λ (r : Call (Unit {0}) × Saving). r.0) e) (omega (arith, written, some_write)) in
    let (a, k) =
      Ends-HasOrAwaits path content s.writes (create_files dir answers 0 f.paths disk) [] disk'
        ended agree (inr (empty, some_write)) in
    load_file_existing disk' path content (ground (arith, k)) may_read
