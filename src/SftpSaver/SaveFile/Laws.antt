-- ===== src/SftpSaver/SaveFile/Laws.antt =====
-- The blocking upload of one file: its session, its bytes and its end (src/SFTPSaver.cpp,
-- `SFTPSaver::SaveFile`).
use async_iomanager.Common.{
  ℕ, ◌+◌, ◌≤◌, Bool, true, false, Bool-cases, inl, inr, Option, none, some, List, [], ◌∷◌, ◌++◌,
  Bytes, length, take, drop, take-append-drop, drop-drop, drop_all, ltb, All, ◌≡◌, ◌≢◌, ◌⊎◌, refl,
  sym, ap, ◌∙◌, arith,
}
use async_iomanager.Io.{Call, returned, thrown, undefined}
use async_iomanager.Url.Sftp.{SftpUrl, parse_sftp_url}
use async_iomanager.SftpUpload.{Op, session_handshake, sftp_write, session_free, wrote}
use async_iomanager.SftpSaver.{no_url}
use async_iomanager.SftpSaver.SaveFile.{
  Answers, Progress, ended, in_write, write_all, open_stage, init_stage, auth_stage,
  handshake_stage, connect_stage, save_file,
}

abbrev frees : Op → ℕ
frees session_free = 1
frees o = 0

abbrev sessions : Op → ℕ
sessions (session_handshake r) = 1
sessions o = 0

-- How many sessions were given back, and how many were begun.
abbrev pub freed : List Op → ℕ
freed [] = 0
freed (o ∷ ops) = frees o + freed ops

abbrev pub begun_sessions : List Op → ℕ
begun_sessions [] = 0
begun_sessions (o ∷ ops) = sessions o + begun_sessions ops

abbrev finished : Progress → ℕ
finished (ended r) = 1
finished (in_write total) = 0

write_all-freed :
    (content : Bytes) (total : ℕ) (answers : List (Option ℕ))
    → let (p, ops) = write_all content total answers in
      (freed ops ≡ finished p) × (begun_sessions ops ≡ 0)
unfolding write_all
write_all-freed content total [] = ground arith
write_all-freed content total (none ∷ answers) = ground arith
write_all-freed content total (some n ∷ answers) =
    ground (arith, write_all-freed content (total + n) answers)

module _ (u : SftpUrl) (content : Bytes) (a : Answers) (writes : List (Option ℕ)) where
  open_stage-freed :
      let (p, ops) = open_stage u content a writes in
      (freed ops ≡ finished p) × (begun_sessions ops ≡ 0)
  unfolding open_stage
  open_stage-freed = ground (arith, write_all-freed content 0 writes)

  init_stage-freed :
      let (p, ops) = init_stage u content a writes in
      (freed ops ≡ finished p) × (begun_sessions ops ≡ 0)
  unfolding init_stage
  init_stage-freed = ground (arith, open_stage-freed)

  auth_stage-freed :
      let (p, ops) = auth_stage u content a writes in
      (freed ops ≡ finished p) × (begun_sessions ops ≡ 0)
  unfolding auth_stage
  auth_stage-freed = ground (arith, init_stage-freed)

  handshake_stage-freed :
      let (p, ops) = handshake_stage u content a writes in
      (freed ops ≡ finished p) × (begun_sessions ops ≡ 1)
  unfolding handshake_stage
  handshake_stage-freed = ground (arith, auth_stage-freed)

-- The blocking save gives back, when it has returned or thrown, every session that it began, at
-- whatever call it fails.
pub save_file_frees :
    (file : Bytes) (value : Option Bytes) (a : Answers) (writes : List (Option ℕ))
    (r : Call (Unit {0})) (ops : List Op)
    → save_file file value a writes ≡ (ended r, ops)
    → freed ops ≡ begun_sessions ops
unfolding save_file connect_stage
save_file_frees file none a writes r ops h = ground (arith, h)
save_file_frees file (some content) a writes r ops h =
    ground (arith, h, handshake_stage-freed (parse_sftp_url file no_url).1 content a writes)

abbrev taken : Op → Bytes
taken (sftp_write offered (wrote n)) = take n offered
taken o = []

-- The bytes that the server took, in the order in which it took them.
abbrev pub stored : List Op → Bytes
stored [] = []
stored (o ∷ ops) = taken o ++ stored ops

-- The answers that let the loop go on: it stops at an error, and never ends if no byte is written.
abbrev pub moves : Option ℕ → Bool
moves none = true
moves (some n) = ltb 0 n

abbrev is_returned : Progress → Bool
is_returned (ended (returned x)) = true
is_returned p = false

piece :
    (content : Bytes) (total n : ℕ)
    → take n (drop total content) ++ drop (total + n) content ≡ drop total content
piece content total n = rw⁻¹ (drop-drop total n content) (take-append-drop n (drop total content))

write_all-stored :
    (content : Bytes) (total : ℕ) (answers : List (Option ℕ))
    → let (p, ops) = write_all content total answers in
      is_returned p ≡ true → stored ops ≡ drop total content
unfolding write_all
write_all-stored content total [] h = ground (arith, h, drop_all total content)
write_all-stored content total (none ∷ answers) h = ground (arith, h, drop_all total content)
write_all-stored content total (some n ∷ answers) h =
    elim (Bool-cases (ltb total (length content))) [
      | inl e ↦ rw e (
          ap (λ x. take n (drop total content) ++ x)
            (write_all-stored content (total + n) answers (ground (arith, h, e)))
          ∙ piece content total n)
      | inr e ↦ rw e (sym (drop_all total content (ground arith)))
    ]

write_all_ends :
    (content : Bytes) (total : ℕ) (answers : List (Option ℕ))
    → All (λ n. moves n ≡ true) answers
    → length content ≤ total + length answers
    → finished (write_all content total answers).0 ≡ 1
unfolding write_all
write_all_ends content total [] h enough = ground arith
write_all_ends content total (none ∷ answers) h enough = ground arith
write_all_ends content total (some n ∷ answers) (h, hs) enough =
    ground (arith, write_all_ends content (total + n) answers hs (ground arith))

ended_with : (p : Progress) → finished p ≡ 1 → (r : Call (Unit {0})) × (p ≡ ended r)
ended_with (ended r) h = (r, refl)
ended_with (in_write total) h = absurd (omega arith)

-- What the stages say of the loop within them.
Wrote : Bytes → Progress × List Op → Type 0
Wrote content r = (is_returned r.0 ≡ true → stored r.1 ≡ content) × (finished r.0 ≡ 1)

module _ (u : SftpUrl) (content : Bytes) (a : Answers) (writes : List (Option ℕ))
    (moving : All (λ n. moves n ≡ true) writes) (enough : length content ≤ length writes) where
  open_stage-Wrote : Wrote content (open_stage u content a writes)
  unfolding Wrote open_stage
  open_stage-Wrote = ground (
    arith,
    write_all-stored content 0 writes,
    write_all_ends content 0 writes moving (omega arith),
  )

  init_stage-Wrote : Wrote content (init_stage u content a writes)
  unfolding Wrote init_stage
  init_stage-Wrote = ground (arith, open_stage-Wrote)

  auth_stage-Wrote : Wrote content (auth_stage u content a writes)
  unfolding Wrote auth_stage
  auth_stage-Wrote = ground (arith, init_stage-Wrote)

  handshake_stage-Wrote : Wrote content (handshake_stage u content a writes)
  unfolding Wrote handshake_stage
  handshake_stage-Wrote = ground (arith, auth_stage-Wrote)

returned_or_not : {P : Type 0} (r : Call (Unit {0})) → (r ≡ returned tt → P) → (r ≢ returned tt) ⊎ P
returned_or_not (returned tt) f = inr (f refl)
returned_or_not (thrown e) f = inl (λ k. cc)
returned_or_not undefined f = inl (λ k. cc)

-- If each write fails or takes a byte, and there are as many answers as bytes, the blocking save
-- returns or throws; and where it returns, the server has taken exactly the file.
pub save_file_exact :
    (file content : Bytes) (a : Answers) (writes : List (Option ℕ))
    → All (λ n. moves n ≡ true) writes
    → length content ≤ length writes
    → let (p, ops) = save_file file (some content) a writes in
      (r : Call (Unit {0})) × (p ≡ ended r) × ((r ≢ returned tt) ⊎ (stored ops ≡ content))
unfolding save_file connect_stage Wrote
save_file_exact file content a writes moving enough =
    let u = (parse_sftp_url file no_url).1 in
    let w = handshake_stage-Wrote u content a writes moving enough in
    let (p, ops) = save_file file (some content) a writes in
    let (r, e) : (r : Call (Unit {0})) × (p ≡ ended r) = ended_with p (ground (arith, w)) in
    (r, e, returned_or_not r (λ f. ground (arith, w, e, f)))
