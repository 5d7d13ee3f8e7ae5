-- ===== src/IpfsSaver/Balance.antt =====
-- When a publication reports its end, and what it leaves behind (src/IPFSSaver.cpp).
use async_iomanager.Common.{
  ℕ, ◌+◌, Bool, true, false, ◌&&◌, ◌⊎◌, none, some, List, [], ◌∷◌, ◌++◌, Bytes, length, ◌==◌,
  if◌then◌else◌, ◌≡◌, arith,
}
use async_iomanager.Io.{ResultType, failure, success, Action, op, made, made-append}
use async_iomanager.IpfsSaver.{
  Op, create_temp_file, create_temp_dir, remove_temp, publish_directory, Actions, State, publishing,
  thrown, remove_then, on_cid, report, finished, Event, Setting, write_files, publish, save_single,
  save_directory, save_async, on_published, step, run,
}

abbrev creates : Action Op (Unit {0}) → ℕ
creates (op (create_temp_file content)) = 1
creates (op create_temp_dir) = 1
creates a = 0

abbrev removes : Action Op (Unit {0}) → ℕ
removes (op remove_temp) = 1
removes a = 0

-- How many temporary files and directories were created, and how many removed.
abbrev pub created : Actions → ℕ
created [] = 0
created (a ∷ acts) = creates a + created acts

abbrev pub removed : Actions → ℕ
removed [] = 0
removed (a ∷ acts) = removes a + removed acts

created-append : (acts bs : Actions) → created (acts ++ bs) ≡ created acts + created bs
created-append [] bs = omega arith
created-append (a ∷ acts) bs = omega (arith, created-append acts bs)

removed-append : (acts bs : Actions) → removed (acts ++ bs) ≡ removed acts + removed bs
removed-append [] bs = omega arith
removed-append (a ∷ acts) bs = omega (arith, removed-append acts bs)

-- 1 unless the callback was made.
abbrev pub owes : State → ℕ
owes publishing = 1
owes finished = 0
owes (thrown left) = 1

-- 1 while there is a temporary file or directory.
abbrev pub kept : State → ℕ
kept publishing = 1
kept finished = 0
kept (thrown left) = if left then 1 else 0

abbrev pub is_thrown : State → Bool
is_thrown (thrown left) = true
is_thrown s = false

-- One report for an end, one removal for each creation by then, and no exception where the calls
-- outside the `try` return.
abbrev pub Balanced : Setting → State × Actions → Type 0
Balanced t r =
    (made r.1 + owes r.0 ≡ 1)
    × (created r.1 ≡ removed r.1 + kept r.0)
    × ((is_thrown r.0 ≡ false) ⊎ (t.removes && t.temp_path ≡ false))

write_files-counts :
    (opens : ℕ → Bool) (i : ℕ) (names contents : List Bytes)
    → let acts = write_files opens i names contents in
      (made acts ≡ 0) × (created acts ≡ 0) × (removed acts ≡ 0)
unfolding write_files
write_files-counts opens i [] contents = ground arith
write_files-counts opens i (n ∷ ns) [] = ground arith
write_files-counts opens i (n ∷ ns) (c ∷ cs) =
    ground (arith, write_files-counts opens (i + 1) ns cs)

save_single-Balanced :
    (t : Setting) (contents : List Bytes)
    → length contents ≡ 1
    → Balanced t (save_single t contents)
unfolding save_single publish remove_then
save_single-Balanced t contents h = ground arith

save_directory-Balanced :
    (t : Setting) (names contents : List Bytes) → Balanced t (save_directory t names contents)
unfolding save_directory publish remove_then
save_directory-Balanced t names contents =
    let acts = write_files t.creates 0 names contents in
    let rest = (publish t publish_directory).1 in
    ground (
      arith,
      write_files-counts t.creates 0 names contents,
      made-append acts rest,
      created-append acts rest,
      removed-append acts rest,
    )

pub save_async-Balanced : (t : Setting) (value : ResultType) → Balanced t (save_async t value)
unfolding save_async
save_async-Balanced t (failure e) = ground arith
save_async-Balanced t (success none) = ground arith
save_async-Balanced t (success (some f)) =
    ground (arith, save_single-Balanced t f.contents, save_directory-Balanced t f.paths f.contents)

pub step-counts :
    (t : Setting) (s : State) (e : Event)
    → let (s', acts) = step t s e in
      (made acts + owes s' ≡ owes s)
      × (created acts ≡ 0)
      × (removed acts + kept s' ≡ kept s)
      × ((is_thrown s' ≡ is_thrown s) ⊎ (t.removes && t.temp_path ≡ false))
unfolding step on_published remove_then on_cid report
step-counts t s e = ground arith

run-counts :
    (t : Setting) (s : State) (es : List Event)
    → let (s', acts) = run t s es in
      (made acts + owes s' ≡ owes s)
      × (created acts ≡ 0)
      × (removed acts + kept s' ≡ kept s)
      × ((is_thrown s' ≡ is_thrown s) ⊎ (t.removes && t.temp_path ≡ false))
unfolding run
run-counts t s [] = ground arith
run-counts t s (e ∷ es) =
    let (s', acts) = step t s e in
    let bs = (run t s' es).1 in
    ground (
      arith,
      step-counts t s e,
      run-counts t s' es,
      made-append acts bs,
      created-append acts bs,
      removed-append acts bs,
    )

-- A publication makes its callback exactly once, when it has finished and not before, and by then it
-- has removed the temporary file or directory that it created; whatever was to be saved, what fails
-- on the way, and what Bitswap answers. It finishes, or Bitswap has not answered, unless an exception
-- leaves it: then the callback is not made, and that happens only where the place for temporary files
-- is not known, or the temporary file or directory cannot be removed.
pub save_async_balanced :
    (t : Setting) (value : ResultType) (es : List Event)
    → let (s, acts) = save_async t value in
      let (s', bs) = run t s es in
      (made (acts ++ bs) ≡ (if owes s' == 0 then 1 else 0))
      × (created (acts ++ bs) ≡ removed (acts ++ bs) + kept s')
      × ((is_thrown s' ≡ false) ⊎ (t.removes && t.temp_path ≡ false))
save_async_balanced t value es =
    let (s, acts) = save_async t value in
    let bs = (run t s es).1 in
    ground (
      arith,
      save_async-Balanced t value,
      run-counts t s es,
      made-append acts bs,
      created-append acts bs,
      removed-append acts bs,
    )
