-- ===== src/Local/Writes.antt =====
-- When a save of local files calls `handle_write` (src/MNNSaver.cpp, `MNNSaver::SaveASync`).
use async_iomanager.Common.{
  is_empty, codes, subst, ap, sym, append_assoc, ◌∙◌, ℕ, zero, suc, ◌+◌, ◌≤◌, ◌<◌, ◌^◌, Bool, true,
  inl, inr, some, List, [], ◌∷◌, ◌++◌, Bytes, length, ◌==◌, if◌then◌else◌, ◌≡◌, refl, arith, ◌⊎◌,
}
use async_iomanager.Io.{Files, success, Call, returned}
use async_iomanager.Local.{
  Answer, no_directory, not_open, opened, Saving, start_write, save_files, begin_saving, save_async,
  Completed, on_write, complete, complete_all,
}

-- How the loop leaves the counts: a write for every file, or fewer and one post.
abbrev Started : ℕ → Saving → Saving → Type 0
Started n s s' =
    (s'.remaining_writes ≡ s.remaining_writes)
    × (s'.calls ≡ s.calls)
    × (((s'.posted ≡ s.posted) × (s'.pending ≡ s.pending + n))
        ⊎ ((s'.posted ≡ s.posted + 1) × (s'.pending + 1 ≤ s.pending + n)))

save_files-Started :
    (dir : Bytes) (answers : ℕ → Answer) (i : ℕ) (names contents : List Bytes) (s : Saving)
    → (save_files dir answers i names contents s).0 ≡ returned tt
    → Started (length names) s (save_files dir answers i names contents s).1
unfolding save_files start_write
save_files-Started dir answers i [] contents s h = ground arith
save_files-Started dir answers i (name ∷ names) [] s h = ground arith
save_files-Started dir answers i (name ∷ names) (content ∷ contents) s h = ground (
  arith,
  save_files-Started dir answers (i + 1) names contents (start_write (dir ++ name) content s),
)

-- Every file has its write, and the counter is what is pending; or the loop has stopped at a file
-- that does not open, its post is the call, and the counter never comes to 0.
abbrev pub IsCounted : Saving → Type 0
IsCounted s =
    (s.remaining_writes < 2 ^ 64)
    × (((s.posted + s.calls ≡ 1) × (s.pending < s.remaining_writes))
        ⊎ ((s.posted ≡ 0)
            × (s.pending ≡ s.remaining_writes)
            × (s.calls ≡ (if s.remaining_writes == 0 then 1 else 0))))

pub complete-IsCounted : (s : Saving) (c : Completed) → IsCounted s → IsCounted (complete s c)
unfolding complete on_write
complete-IsCounted s c h = ground arith

-- Over every event `handle_write` is called at most once in all, and no call is taken back.
pub complete-calls :
    (s : Saving) (c : Completed) → IsCounted s → (s.calls ≤ 1) × (s.calls ≤ (complete s c).calls)
unfolding complete on_write
complete-calls s c h = ground arith

complete_all-IsCounted :
    (s : Saving) (cs : List Completed) → IsCounted s → IsCounted (complete_all s cs)
unfolding complete_all
complete_all-IsCounted s [] h = h
complete_all-IsCounted s (c ∷ cs) h =
    complete_all-IsCounted (complete s c) cs (complete-IsCounted s c h)

pub started :
    (file fresh : Bytes) (f : Files) (save_location : Bool) (answers : ℕ → Answer) (s : Saving)
    → save_async file (success (some f)) save_location fresh answers ≡ (returned tt, s)
    → let dir = if is_empty file then fresh ++ codes "/" else file in
      save_files dir answers 0 f.paths f.contents (begin_saving dir save_location f.paths)
      ≡ (returned tt, s)
unfolding save_async
started file fresh f save_location answers s h = ground arith

save_async-Started :
    (file fresh : Bytes) (f : Files) (save_location : Bool) (answers : ℕ → Answer) (s : Saving)
    → save_async file (success (some f)) save_location fresh answers ≡ (returned tt, s)
    → (dir : Bytes) × Started (length f.paths) (begin_saving dir save_location f.paths) s
save_async-Started file fresh f save_location answers s h =
    let e = started file fresh f save_location answers s h in
    let dir = if is_empty file then fresh ++ codes "/" else file in
    (
      dir,
      subst
          (λ (r : Call (Unit {0}) × Saving).
            Started (length f.paths) (begin_saving dir save_location f.paths) r.1)
          e
          (save_files-Started dir answers 0 f.paths f.contents
            (begin_saving dir save_location f.paths)
            (ap (λ (r : Call (Unit {0}) × Saving). r.0) e)),
    )

-- A save of one or more local files that returns calls `handle_write` once when every write that it
-- started has ended and its posts have run, and never twice, whichever file does not open. Where it
-- has more files than a `size_t` counts nothing is said.
pub save_async_once :
    (file fresh : Bytes) (f : Files) (save_location : Bool) (answers : ℕ → Answer) (s : Saving)
    (cs : List Completed)
    → save_async file (success (some f)) save_location fresh answers ≡ (returned tt, s)
    → 1 ≤ length f.paths
    → length f.paths < 2 ^ 64
    → ((complete_all s cs).calls ≤ 1)
      × ((1 ≤ (complete_all s cs).pending + (complete_all s cs).posted)
          ⊎ ((complete_all s cs).calls ≡ 1))
save_async_once file fresh f save_location answers s cs h h1 h2 =
    let (dir, k) = save_async-Started file fresh f save_location answers s h in
    let c = complete_all-IsCounted s cs (ground (arith, k)) in ground (arith, c)

complete_idle : (s : Saving) (c : Completed) → s.pending ≡ 0 → s.posted ≡ 0 → complete s c ≡ s
unfolding complete
complete_idle s c p q = ground arith

complete_all_idle :
    (s : Saving) (cs : List Completed) → s.pending ≡ 0 → s.posted ≡ 0 → complete_all s cs ≡ s
unfolding complete_all
complete_all_idle s [] p q = refl
complete_all_idle s (c ∷ cs) p q =
    ap (λ x. complete_all x cs) (complete_idle s c p q) ∙ complete_all_idle s cs p q

-- A save without file names that returns never calls `handle_write`.
pub no_files_silent :
    (file fresh : Bytes) (f : Files) (save_location : Bool) (answers : ℕ → Answer) (s : Saving)
    (cs : List Completed)
    → save_async file (success (some f)) save_location fresh answers ≡ (returned tt, s)
    → f.paths ≡ []
    → (complete_all s cs).calls ≡ 0
no_files_silent file fresh f save_location answers s cs h e =
    let (dir, k) = save_async-Started file fresh f save_location answers s h in
    let n = ap length e in
    ground (
      arith,
      k,
      n,
      ap (λ (x : Saving). x.calls)
          (complete_all_idle s cs (ground (arith, k, n)) (ground (arith, k, n))),
    )

-- The files below a directory, with their contents.
abbrev pub plan : Bytes → List Bytes → List Bytes → List (Bytes × Bytes)
plan dir (name ∷ names) (content ∷ contents) = (dir ++ name, content) ∷ plan dir names contents
plan dir names contents = []

pub Answer-cases : (a : Answer) → (a ≡ no_directory) ⊎ (a ≡ not_open) ⊎ (a ≡ opened)
Answer-cases no_directory = inl refl
Answer-cases not_open = inr (inl refl)
Answer-cases opened = inr (inr refl)

save_files-plan :
    (dir : Bytes) (answers : ℕ → Answer) (i : ℕ) (names contents : List Bytes) (s : Saving)
    → let (r, s') = save_files dir answers i names contents s in
      r ≡ returned tt
      → (left : List (Bytes × Bytes)) × (s'.writes ++ left ≡ s.writes ++ plan dir names contents)
        × (s'.posted ≡ s.posted → left ≡ [])
        × (s'.location ≡ s.location)
unfolding save_files start_write
save_files-plan dir answers i [] contents s h = ([], refl, (λ e. refl), refl)
save_files-plan dir answers i (name ∷ names) [] s h = elim (Answer-cases (answers i)) [
  | inl e ↦ absurd (ground (arith, h, e))
  | inr (inl e) ↦ rw (save_files, e) ([], refl, (λ k. refl), refl)
  | inr (inr e) ↦ absurd (ground (arith, h, e))
]
save_files-plan dir answers i (name ∷ names) (content ∷ contents) s h =
    let s' = start_write (dir ++ name) content s in
    elim (Answer-cases (answers i)) [
      | inl e ↦ absurd (ground (arith, h, e))
      | inr (inl e) ↦
          rw (save_files, e)
            (
              (dir ++ name, content) ∷ plan dir names contents,
              refl,
              (λ k. absurd (omega arith)),
              refl,
            )
      | inr (inr e) ↦
          let (left, w, p, l) =
            save_files-plan dir answers (i + 1) names contents s' (ground (arith, h, e)) in
          rw (save_files, e)
            (
              left,
              w ∙ append_assoc s.writes ((dir ++ name, content) ∷ []) (plan dir names contents),
              p,
              l,
            )
    ]

none_or_some : {P : Type 0} (n : ℕ) → (n ≡ 0 → P) → (1 ≤ n) ⊎ P
none_or_some zero f = inr (f refl)
none_or_some (suc n) f = inl (omega arith)

-- A save of local files that returns has started the writes of some first files, in their order,
-- each with its contents below the directory of the save; of all of them where it has not reported a
-- file that does not open. The reported location is that directory.
pub save_async-plan :
    (file fresh : Bytes) (f : Files) (answers : ℕ → Answer) (s : Saving)
    → save_async file (success (some f)) true fresh answers ≡ (returned tt, s)
    → let dir = if is_empty file then fresh ++ codes "/" else file in
      (left : List (Bytes × Bytes)) × (s.writes ++ left ≡ plan dir f.paths f.contents)
      × ((1 ≤ s.posted) ⊎ (left ≡ []))
      × (s.location ≡ codes "file://" ++ dir)
save_async-plan file fresh f answers s h =
    let dir = if is_empty file then fresh ++ codes "/" else file in
    let e = started file fresh f true answers s h in
    let (left, w, p, l) =
      save_files-plan dir answers 0 f.paths f.contents (begin_saving dir true f.paths)
        (ap (λ (r : Call (Unit {0}) × Saving). r.0) e) in
    let at = ap (λ (r : Call (Unit {0}) × Saving). r.1) (sym e) in
    (
      left,
      ap (λ (x : Saving). x.writes ++ left) at ∙ w,
      none_or_some s.posted (λ k. p (ap (λ (x : Saving). x.posted) (sym at) ∙ k)),
      ap (λ (x : Saving). x.location) at ∙ l,
    )
