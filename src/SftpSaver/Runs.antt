-- ===== src/SftpSaver/Runs.antt =====
-- What the uploads of a save do: each is a run of its own device (src/SFTPSaver.cpp,
-- `SFTPSaver::SaveASync`).
use async_iomanager.Common.{
  Bool-cases, inl, inr, some, ℕ, zero, suc, ◌+◌, ◌≤◌, ◌<◌, ◌^◌, Bool, List, [], ◌∷◌, ◌++◌, Bytes,
  length, All, ◌==◌, ◌≡◌, refl, sym, ap, ◌∙◌, subst, arith, map,
}
use async_iomanager.Io.{Files, success}
use async_iomanager.Url.Sftp.{SftpUrl, parse_sftp_url}
use async_iomanager.SftpUpload.{Device, Actions, idle, finished, start_sftp_upload}
use async_iomanager.SftpUpload
use async_iomanager.SftpUpload.Delivery.{upload-snoc, upload-start}
use async_iomanager.SftpUpload.Delivery
use async_iomanager.SftpUpload.Writes.{stored}
use async_iomanager.SftpUpload.Content.{stored_prefix}
use async_iomanager.SftpUpload.Cleanup.{Released, opened, freed, freed_iff_opened}
use async_iomanager.SftpSaver.{
  Upload, Saving, Event, upload, run_posted, device_for, start_upload, start_uploads, no_url,
  save_async, saving, write_done, step_upload, step_at, step, run,
}
use async_iomanager.SftpSaver.Planned.{Planned, start_uploads-Planned}
use async_iomanager.SftpSaver.FanIn.{unended, handle_write_once, none_unended, started}

-- An upload in the state, and with the actions, of a run of its device.
pub record IsRun (u : Upload) : Type 0 where
  pub resolved : Bool
  pub events : List SftpUpload.Event
  pub outcome : Delivery.upload u.device resolved events ≡ (u.state, u.acts)

step_upload-IsRun : (u : Upload) (e : SftpUpload.Event) → IsRun u → IsRun (step_upload u e).0
unfolding step_upload
step_upload-IsRun u e r = record {
  resolved = r.resolved;
  events = r.events ++ e ∷ [];
  outcome =
      upload-snoc u.device r.resolved r.events e
      ∙ ap
          (λ (x : SftpUpload.State × Actions).
            ((SftpUpload.step u.device x.0 e).0, x.1 ++ (SftpUpload.step u.device x.0 e).1))
          r.outcome;
}

step_at-IsRun :
    (i : ℕ) (e : SftpUpload.Event) (us : List Upload) → All IsRun us → All IsRun (step_at i e us).0
unfolding step_at
step_at-IsRun i e [] h = tt
step_at-IsRun zero e (u ∷ us) (h, hs) = (step_upload-IsRun u e h, hs)
step_at-IsRun (suc i) e (u ∷ us) (h, hs) = (h, step_at-IsRun i e us hs)

step-IsRun : (s : Saving) (e : Event) → All IsRun s.uploads → All IsRun (step s e).uploads
unfolding step write_done
step-IsRun s (upload i e) h = step_at-IsRun i e s.uploads h
step-IsRun s run_posted h = elim (Bool-cases (s.posted == 0)) [ inl e ↦ rw e h | inr e ↦ rw e h ]

run-IsRun : (s : Saving) (es : List Event) → All IsRun s.uploads → All IsRun (run s es).uploads
unfolding run
run-IsRun s [] h = h
run-IsRun s (e ∷ es) h = run-IsRun (step s e) es (step-IsRun s e h)

start_uploads-IsRun :
    (u : SftpUrl) (save_location : Bool) (resolved : ℕ → Bool) (i : ℕ) (names contents : List Bytes)
    → All IsRun (start_uploads u save_location resolved i names contents)
unfolding start_uploads start_upload
start_uploads-IsRun u save_location resolved i [] cs = tt
start_uploads-IsRun u save_location resolved i (n ∷ ns) [] = tt
start_uploads-IsRun u save_location resolved i (n ∷ ns) (c ∷ cs) =
    let d = device_for u save_location n c in
    (
      record { resolved = resolved i; events = []; outcome = upload-start d (resolved i) },
      start_uploads-IsRun u save_location resolved (i + 1) ns cs,
    )

-- The devices are never replaced.
abbrev pub devices : List Upload → List Device
devices us = map (λ (u : Upload). u.device) us

step_at-devices :
    (i : ℕ) (e : SftpUpload.Event) (us : List Upload) → devices (step_at i e us).0 ≡ devices us
unfolding step_at step_upload
step_at-devices i e [] = refl
step_at-devices zero e (u ∷ us) = refl
step_at-devices (suc i) e (u ∷ us) = ap (λ ds. u.device ∷ ds) (step_at-devices i e us)

step-devices : (s : Saving) (e : Event) → devices (step s e).uploads ≡ devices s.uploads
unfolding step write_done
step-devices s (upload i e) = step_at-devices i e s.uploads
step-devices s run_posted = ground arith

run-devices : (s : Saving) (es : List Event) → devices (run s es).uploads ≡ devices s.uploads
unfolding run
run-devices s [] = refl
run-devices s (e ∷ es) = run-devices (step s e) es ∙ step-devices s e

-- An upload that has ended: its server holds some first bytes of the file, and each kind of call of
-- its cleanup was made as often as its file was opened.
pub record IsEnded (u : Upload) : Type 0 where
  pub over : u.state ≡ finished
  pub rest : Bytes
  pub kept : stored u.acts ++ rest ≡ u.device.file_content
  pub balanced : (kind : Released) → freed kind u.acts ≡ opened u.acts

IsRun-IsEnded : (u : Upload) → IsRun u → u.state ≡ finished → IsEnded u
IsRun-IsEnded u r f =
    let (rest, kept) = stored_prefix u.device r.resolved r.events in
    record {
      over = f;
      rest = rest;
      kept = ap (λ (x : SftpUpload.State × Actions). stored x.1 ++ rest) (sym r.outcome) ∙ kept;
      balanced = λ kind.
          subst (λ (x : SftpUpload.State × Actions). freed kind x.1 ≡ opened x.1) r.outcome
            (freed_iff_opened kind u.device r.resolved r.events
              (ap (λ (x : SftpUpload.State × Actions). x.0) r.outcome ∙ f));
    }

runs-IsEnded : (us : List Upload) → All IsRun us → All (λ u. u.state ≡ finished) us → All IsEnded us
runs-IsEnded [] h k = tt
runs-IsEnded (u ∷ us) (h, hs) (k, ks) = (IsRun-IsEnded u h k, runs-IsEnded us hs ks)

-- When a save of some files has called `handle_write`, there is one upload for each file, in their
-- order, with the login and the host of the URL, below its path and with the content of the file; and
-- each has ended: its server holds some first bytes of that file, and each of the five calls of its
-- cleanup (handle, subsystem, connection, session, library) was made as often as its file was opened.
pub handle_write-IsEnded :
    (file : Bytes) (f : Files) (save_location : Bool) (resolved : ℕ → Bool) (s : Saving)
    (es : List Event)
    → save_async file (success (some f)) save_location resolved ≡ saving s
    → length s.uploads < 2 ^ 64
    → 1 ≤ (run s es).calls
    → Planned (parse_sftp_url file no_url).1 f.paths f.contents (devices (run s es).uploads)
      × All IsEnded (run s es).uploads
handle_write-IsEnded file f save_location resolved s es h b called =
    let u = (parse_sftp_url file no_url).1 in
    let at = (started file f save_location resolved s h).2 in
    let first = start_uploads-IsRun u save_location resolved 0 f.paths f.contents in
    let none_waits : unended (run s es).uploads ≡ 0 =
      ground (arith, handle_write_once file (success (some f)) save_location resolved s es h b) in
    (
      subst (Planned u f.paths f.contents)
          (ap (λ (x : Saving). devices x.uploads) at ∙ sym (run-devices s es))
          (start_uploads-Planned u save_location resolved 0 f.paths f.contents),
      runs-IsEnded (run s es).uploads
          (run-IsRun s es (subst (λ (x : Saving). All IsRun x.uploads) at first))
          (none_unended (run s es).uploads none_waits),
    )
