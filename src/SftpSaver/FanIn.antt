-- ===== src/SftpSaver/FanIn.antt =====
-- When a save of several files calls `handle_write` (src/SFTPSaver.cpp, `SFTPSaver::SaveASync`).
use async_iomanager.Common.{
  subst, ap, Bool-cases, inl, inr, ◌&&◌, ℕ, zero, suc, ◌+◌, ◌-◌, ◌≤◌, ◌<◌, ◌^◌, Bool, true, none,
  some, List, [], ◌∷◌, Bytes, length, All, ◌==◌, if◌then◌else◌, ◌≡◌, refl, arith,
}
use async_iomanager.Io.{Files, ResultType, failure, success}
use async_iomanager.Url.Sftp.{SftpUrl, parse_sftp_url}
use async_iomanager.SftpUpload.{Device, idle, finished, start_sftp_upload}
use async_iomanager.SftpUpload
use async_iomanager.SftpUpload.Delivery.{due, step-due, start-due}
use async_iomanager.SftpSaver.{
  Upload, Saving, Event, upload, run_posted, device_for, start_upload, start_uploads, posts, no_url,
  start_saving, save_async, saving, decrement, write_done, step_upload, step_at, step, run,
}

-- Whether an upload has not ended, as a number.
abbrev waits : SftpUpload.State → ℕ
waits finished = 0
waits _ = 1

-- How many uploads have not ended.
pub unended : List Upload → ℕ
unended [] = 0
unended (u ∷ us) = waits u.state + unended us

abbrev pub Reports : Upload → Type 0
Reports u = u.device.handle_write ≡ true

due-waits : (d : Device) (s : SftpUpload.State) → d.handle_write ≡ true → due d s + waits s ≡ 1
due-waits d s h = ground arith

step_upload-unended :
    (u : Upload) (e : SftpUpload.Event)
    → Reports u
    → ((step_upload u e).1 + waits (step_upload u e).0.state ≡ waits u.state)
      × Reports (step_upload u e).0
unfolding step_upload
step_upload-unended u e h =
    let s = (SftpUpload.step u.device u.state e).0 in
    (
      omega (
        arith,
        step-due u.device u.state e,
        due-waits u.device u.state h,
        due-waits u.device s h,
      ),
      h,
    )

step_at-unended :
    (i : ℕ) (e : SftpUpload.Event) (us : List Upload)
    → All Reports us
    → ((step_at i e us).1 + unended (step_at i e us).0 ≡ unended us)
      × All Reports (step_at i e us).0
unfolding step_at unended
step_at-unended i e [] h = (omega arith, tt)
step_at-unended zero e (u ∷ us) (h, hs) =
    let (k, h') = step_upload-unended u e h in (omega arith, (h', hs))
step_at-unended (suc i) e (u ∷ us) (h, hs) =
    let (k, hs') = step_at-unended i e us hs in (omega arith, (h, hs'))

start_uploads-unended :
    (u : SftpUrl) (save_location : Bool) (resolved : ℕ → Bool) (i : ℕ) (names contents : List Bytes)
    → length names ≡ length contents
    → let us = start_uploads u save_location resolved i names contents in
      (posts us + unended us ≡ length names) × All Reports us
unfolding start_uploads start_upload posts unended device_for
start_uploads-unended u save_location resolved i [] [] h = (omega arith, tt)
start_uploads-unended u save_location resolved i [] (c ∷ cs) h = absurd (omega arith)
start_uploads-unended u save_location resolved i (n ∷ ns) [] h = absurd (omega arith)
start_uploads-unended u save_location resolved i (n ∷ ns) (c ∷ cs) h =
    let d = device_for u save_location n c in
    let (k, hs) = start_uploads-unended u save_location resolved (i + 1) ns cs (omega arith) in
    (
      omega (
        arith,
        start-due d (resolved i),
        due-waits d (start_sftp_upload d idle (resolved i)).0 refl,
      ),
      (refl, hs),
    )

decrement-suc : (n : ℕ) → 1 ≤ n → n < 2 ^ 64 → decrement n ≡ n - 1
unfolding decrement
decrement-suc n h1 h2 = omega arith

-- The counter is what is posted and what is still to be posted; `handle_write` was called, once, if
-- it is 0.
pub record IsCounted (s : Saving) : Type 0 where
  pub reports : All Reports s.uploads
  pub counted : s.remaining_writes ≡ s.posted + unended s.uploads
  pub bounded : s.remaining_writes < 2 ^ 64
  pub called : s.calls ≡ (if s.remaining_writes == 0 then 1 else 0)

write_done-IsCounted : (s : Saving) → 1 ≤ s.posted → IsCounted s → IsCounted (write_done s)
unfolding write_done
write_done-IsCounted s h c =
    let e = decrement-suc s.remaining_writes (omega (arith, c.counted)) c.bounded in
    record {
      reports = c.reports;
      counted = rw e (omega (arith, c.counted));
      bounded = rw e (omega (arith, c.bounded));
      called = rw e (ground (arith, c.counted, c.called));
    }

pub step-IsCounted : (s : Saving) (e : Event) → IsCounted s → IsCounted (step s e)
unfolding step write_done
step-IsCounted s (upload i e) c =
    let (k, hs) = step_at-unended i e s.uploads c.reports in
    record {
      reports = hs;
      counted = omega (arith, c.counted);
      bounded = c.bounded;
      called = c.called;
    }
step-IsCounted s run_posted c = elim (Bool-cases (s.posted == 0)) [
  | inl e ↦ rw e c
  | inr e ↦ rw e (write_done-IsCounted s (ground arith) c)
]

-- No call is taken back.
pub step-calls : (s : Saving) (e : Event) → s.calls ≤ (step s e).calls
unfolding step write_done
step-calls s (upload i e) = omega arith
step-calls s run_posted = ground arith

run-IsCounted : (s : Saving) (es : List Event) → IsCounted s → IsCounted (run s es)
unfolding run
run-IsCounted s [] c = c
run-IsCounted s (e ∷ es) c = run-IsCounted (step s e) es (step-IsCounted s e c)

length-start_uploads :
    (u : SftpUrl) (save_location : Bool) (resolved : ℕ → Bool) (i : ℕ) (names contents : List Bytes)
    → length names ≡ length contents
    → length (start_uploads u save_location resolved i names contents) ≡ length names
unfolding start_uploads
length-start_uploads u save_location resolved i [] [] h = refl
length-start_uploads u save_location resolved i [] (c ∷ cs) h = absurd (omega arith)
length-start_uploads u save_location resolved i (n ∷ ns) [] h = absurd (omega arith)
length-start_uploads u save_location resolved i (n ∷ ns) (c ∷ cs) h =
    omega (arith, length-start_uploads u save_location resolved (i + 1) ns cs (omega arith))

start-IsCounted :
    (file : Bytes) (f : Files) (save_location : Bool) (resolved : ℕ → Bool)
    → length f.paths ≡ length f.contents
    → 1 ≤ length f.paths
    → length f.paths < 2 ^ 64
    → IsCounted (start_saving file f save_location resolved)
start-IsCounted file f save_location resolved h h1 h2 =
    let u = (parse_sftp_url file no_url).1 in
    let (k, hs) = start_uploads-unended u save_location resolved 0 f.paths f.contents h in
    record { reports = hs; counted = omega arith; bounded = h2; called = ground arith }

pub started :
    (file : Bytes) (f : Files) (save_location : Bool) (resolved : ℕ → Bool) (s : Saving)
    → save_async file (success (some f)) save_location resolved ≡ saving s
    → (1 ≤ length f.paths)
      × (length f.paths ≡ length f.contents)
      × (start_saving file f save_location resolved ≡ s)
unfolding save_async
started file f save_location resolved s h = ground arith

pub save_async-IsCounted :
    (file : Bytes) (value : ResultType) (save_location : Bool) (resolved : ℕ → Bool) (s : Saving)
    → save_async file value save_location resolved ≡ saving s
    → length s.uploads < 2 ^ 64
    → IsCounted s
unfolding save_async
save_async-IsCounted file (failure e) save_location resolved s h b = absurd (ground (arith, h))
save_async-IsCounted file (success none) save_location resolved s h b = absurd (ground (arith, h))
save_async-IsCounted file (success (some f)) save_location resolved s h b =
    let (some_files, paired, at) = started file f save_location resolved s h in
    let u = (parse_sftp_url file no_url).1 in
    subst IsCounted at (
      start-IsCounted file f save_location resolved paired some_files (
        omega (
          arith,
          b,
          ap (λ (x : Saving). length x.uploads) at,
          length-start_uploads u save_location resolved 0 f.paths f.contents paired,
        )))

-- A save that starts uploads calls `handle_write` exactly once: when every upload has ended and
-- every lambda that they posted has run, and not before, whatever the order of the events. Where it
-- has more uploads than a `size_t` counts nothing is said.
pub handle_write_once :
    (file : Bytes) (value : ResultType) (save_location : Bool) (resolved : ℕ → Bool) (s : Saving)
    (es : List Event)
    → save_async file value save_location resolved ≡ saving s
    → length s.uploads < 2 ^ 64
    → (run s es).calls
      ≡ (if (run s es).posted == 0 && unended (run s es).uploads == 0 then 1 else 0)
handle_write_once file value save_location resolved s es h b =
    let c = run-IsCounted s es (save_async-IsCounted file value save_location resolved s h b) in
    ground (arith, c.counted, c.called)

pub none_unended : (us : List Upload) → unended us ≡ 0 → All (λ u. u.state ≡ finished) us
unfolding unended
none_unended [] h = tt
none_unended (u ∷ us) h = (ground arith, none_unended us (omega arith))
