-- ===== src/SftpSaver/Tests.antt =====
-- Saves of several files over SFTP (src/SFTPSaver.cpp), and the theorems about them.
use async_iomanager.Common.{
  ℕ, Option, ◌==◌, ◌&&◌, true, false, some, List, [], ◌∷◌, Bytes, codes, length, All, if◌then◌else◌,
  ◌≢◌, ◌⊎◌, ◌≡◌, refl, arith,
}
use async_iomanager.Io.{Call, returned, thrown, runtime_error, Files, success}
use async_iomanager.Url.Sftp.{parse_sftp_url}
use async_iomanager.SftpUpload.{
  ok, again, wrote, WriteRc, Ssh, ready, do_write_callback, start_sftp_cleanup, finish_upload,
  after_write, start_sftp_write_blocks, after_open, start_sftp_open, after_init, start_create_sftp,
  after_auth, start_sftp_auth, after_handshake, start_sftp_handshake, on_connect, start_sftp_upload,
}
use async_iomanager.SftpUpload
use async_iomanager.SftpUpload.Cleanup
use async_iomanager.SftpSaver.{
  Saving, Upload, post_handle_write, saving, Event, upload, run_posted, full_file_path, no_url,
  start_upload, device_for, posts, decrement, write_done, step_upload, step_at, step, start_uploads,
  start_saving, save_async, run,
}
use async_iomanager.SftpSaver.SaveFile.{
  Answers, ended, connect_stage, handshake_stage, auth_stage, save_file,
}
use async_iomanager.SftpSaver.SaveFile.Laws.{
  freed, begun_sessions, save_file_frees, stored, save_file_exact,
}
use async_iomanager.SftpSaver.FanIn.{unended, handle_write_once}
use async_iomanager.SftpSaver.Planned.{Planned}
use async_iomanager.SftpSaver.Runs.{devices, IsEnded, handle_write-IsEnded}

-- The path of the URL and the name of the file are joined by one slash.
joined : full_file_path (codes "/dir") (codes "a") ≡ codes "/dir/a"
unfolding full_file_path
joined = refl

joined_once : full_file_path (codes "/dir/") (codes "a") ≡ codes "/dir/a"
unfolding full_file_path
joined_once = refl

abbrev url : Bytes
url = codes "me:secret@localhost/dir"

abbrev two_files : Files
two_files = record { paths = codes "a" ∷ codes "b" ∷ []; contents = codes "one" ∷ codes "two" ∷ [] }

-- Nothing to save: `handle_write` is posted.
nothing_saved :
    save_async url (success (some (record { paths = []; contents = [] }))) true (λ i. true)
    ≡ post_handle_write
unfolding save_async
nothing_saved = refl

abbrev begun : Saving
begun = start_saving url two_files true (λ i. true)

begun-saving : save_async url (success (some two_files)) true (λ i. true) ≡ saving begun
unfolding save_async
begun-saving = refl

begun-length : length begun.uploads ≡ 2
unfolding start_uploads
begun-length = refl

abbrev all_ok : WriteRc → Ssh
all_ok w = record { handshake = ok; auth = ok; init = ok; open_file = ok; write = w }

-- The second upload ends first.
abbrev events : List Event
events =
    upload 0 (ready false (all_ok again))
    ∷ upload 1 (ready false (all_ok (wrote 3)))
    ∷ run_posted
    ∷ upload 0 (ready false (all_ok (wrote 3)))
    ∷ run_posted
    ∷ []

handle_write_once_example :
    (run begun events).calls
    ≡ (if (run begun events).posted == 0 && unended (run begun events).uploads == 0 then 1 else 0)
handle_write_once_example =
    handle_write_once url (success (some two_files)) true (λ i. true) begun events begun-saving
      (omega (arith, begun-length))

called : (run begun events).calls ≡ 1
unfolding do_write_callback start_sftp_cleanup finish_upload after_write start_sftp_write_blocks
    after_open start_sftp_open after_init start_create_sftp after_auth start_sftp_auth
    after_handshake start_sftp_handshake on_connect SftpUpload.step start_sftp_upload start_upload
    start_uploads device_for posts decrement write_done step_upload step_at step run
called = refl

-- What an upload waits for, with its calls of `libssh2_exit`.
abbrev at : List Upload → List (SftpUpload.State × ℕ)
at [] = []
at (u ∷ us) = (u.state, Cleanup.freed Cleanup.library u.acts) ∷ at us

-- The first upload still writes when the second one has called `libssh2_exit`.
exits_early :
    at
      (run begun (
        upload 0 (ready false (all_ok again))
        ∷ upload 1 (ready false (all_ok (wrote 3)))
        ∷ [])).uploads
    ≡ (SftpUpload.in_write 0, 0) ∷ (SftpUpload.finished, 1) ∷ []
unfolding do_write_callback start_sftp_cleanup finish_upload after_write start_sftp_write_blocks
    after_open start_sftp_open after_init start_create_sftp after_auth start_sftp_auth
    after_handshake start_sftp_handshake on_connect SftpUpload.step start_sftp_upload start_upload
    start_uploads device_for posts decrement write_done step_upload step_at step run
exits_early = refl

handle_write-IsEnded_example :
    Planned
      (parse_sftp_url url no_url).1
      (codes "a" ∷ codes "b" ∷ [])
      (codes "one" ∷ codes "two" ∷ [])
      (devices (run begun events).uploads)
    × All IsEnded (run begun events).uploads
handle_write-IsEnded_example =
    handle_write-IsEnded url two_files true (λ i. true) begun events begun-saving
      (omega (arith, begun-length)) (omega (arith, called))

-- The authentication of a blocking save fails.
abbrev refused : Answers
refused = record {
  initialised = true;
  connected = true;
  handshake = true;
  auth = false;
  init = true;
  open_file = true;
}

refused-thrown : save_file url (some (codes "one")) refused [] ≡ (
  ended (thrown (runtime_error (codes "SFTP authentication failed"))),
  (save_file url (some (codes "one")) refused []).1,
)
unfolding save_file connect_stage handshake_stage auth_stage
refused-thrown = refl

save_file_frees_example :
    freed (save_file url (some (codes "one")) refused []).1
    ≡ begun_sessions (save_file url (some (codes "one")) refused []).1
save_file_frees_example =
    save_file_frees url (some (codes "one")) refused []
      (thrown (runtime_error (codes "SFTP authentication failed")))
      (save_file url (some (codes "one")) refused []).1 refused-thrown

abbrev granted : Answers
granted = record refused { auth = true }

abbrev three_writes : List (Option ℕ)
three_writes = some 1 ∷ some 1 ∷ some 1 ∷ []

save_file_exact_example :
    (r : Call (Unit {0})) × ((save_file url (some (codes "one")) granted three_writes).0 ≡ ended r)
    × ((r ≢ returned tt)
        ⊎ (stored (save_file url (some (codes "one")) granted three_writes).1 ≡ codes "one"))
save_file_exact_example =
    save_file_exact url (codes "one") granted three_writes (refl, (refl, (refl, tt))) (omega arith)
