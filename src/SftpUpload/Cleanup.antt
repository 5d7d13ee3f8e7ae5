-- ===== src/SftpUpload/Cleanup.antt =====
-- When an upload gives back its handle, subsystem and session (src/SFTPSaver.cpp,
-- `SFTPUploadDevice::StartSFTPCleanup`).
use async_iomanager.Common.{ℕ, ◌+◌, Bool, List, [], ◌∷◌, ◌++◌, ◌≡◌, ap, arith}
use async_iomanager.Io.{Action, op}
use async_iomanager.SftpUpload.{
  Device, ok, Op, sftp_open, close_handle, sftp_shutdown, session_disconnect, session_free,
  libssh2_exit, Ssh, State, idle, connecting, in_handshake, in_auth, in_init, in_open, in_write,
  finished, Event, ready, Actions, do_write_callback, fail, start_sftp_cleanup, finish_upload,
  after_write, start_sftp_write_blocks, after_open, start_sftp_open, after_init, start_create_sftp,
  after_auth, start_sftp_auth, after_handshake, start_sftp_handshake, on_connect, step, run,
  start_sftp_upload,
}
use async_iomanager.SftpUpload.Delivery.{upload}

abbrev opens : Action Op (Unit {0}) → ℕ
opens (op (sftp_open path ok)) = 1
opens a = 0

-- The calls of a cleanup.
pub data Released : Type 0 where
  handle subsystem connection session library : Released

abbrev same_kind : Released → Released → ℕ
same_kind handle handle = 1
same_kind subsystem subsystem = 1
same_kind connection connection = 1
same_kind session session = 1
same_kind library library = 1
same_kind a b = 0

abbrev frees : Released → Action Op (Unit {0}) → ℕ
frees kind (op close_handle) = same_kind kind handle
frees kind (op sftp_shutdown) = same_kind kind subsystem
frees kind (op session_disconnect) = same_kind kind connection
frees kind (op session_free) = same_kind kind session
frees kind (op libssh2_exit) = same_kind kind library
frees kind a = 0

-- How often a file was opened, and how often a call of the cleanup was made.
abbrev pub opened : Actions → ℕ
opened [] = 0
opened (a ∷ acts) = opens a + opened acts

abbrev pub freed : Released → Actions → ℕ
freed kind [] = 0
freed kind (a ∷ acts) = frees kind a + freed kind acts

-- Whether a file is open.
abbrev pub held : State → ℕ
held (in_write total) = 1
held _ = 0

opened-append : (acts bs : Actions) → opened (acts ++ bs) ≡ opened acts + opened bs
opened-append [] bs = omega arith
opened-append (a ∷ acts) bs = omega (arith, opened-append acts bs)

module _ (kind : Released) where
  freed-append : (acts bs : Actions) → freed kind (acts ++ bs) ≡ freed kind acts + freed kind bs
  freed-append [] bs = omega arith
  freed-append (a ∷ acts) bs = omega (arith, freed-append acts bs)

  finish_upload-freed :
      (d : Device)
      → (freed kind (finish_upload d).1 ≡ 1)
        × (opened (finish_upload d).1 ≡ 0)
        × (held (finish_upload d).0 ≡ 0)
  unfolding finish_upload start_sftp_cleanup do_write_callback
  finish_upload-freed d = ground arith

  fail-freed :
      (d : Device) → (freed kind (fail d).1 ≡ 0) × (opened (fail d).1 ≡ 0) × (held (fail d).0 ≡ 0)
  unfolding fail do_write_callback
  fail-freed d = ground arith

  write_blocks-freed :
      (d : Device) (ssh : Ssh) (total : ℕ)
      → let (s, acts) = start_sftp_write_blocks d ssh total in
        (1 + opened acts ≡ held s + freed kind acts)
  unfolding start_sftp_write_blocks after_write
  write_blocks-freed d ssh total = ground (arith, finish_upload-freed d)

  open-freed :
      (d : Device) (ssh : Ssh)
      → let (s, acts) = start_sftp_open d ssh in opened acts ≡ held s + freed kind acts
  unfolding start_sftp_open after_open
  open-freed d ssh = ground (arith, write_blocks-freed d ssh 0, fail-freed d)

  init-freed :
      (d : Device) (ssh : Ssh)
      → let (s, acts) = start_create_sftp d ssh in opened acts ≡ held s + freed kind acts
  unfolding start_create_sftp after_init
  init-freed d ssh = ground (arith, open-freed d ssh, fail-freed d)

  auth-freed :
      (d : Device) (ssh : Ssh)
      → let (s, acts) = start_sftp_auth d ssh in opened acts ≡ held s + freed kind acts
  unfolding start_sftp_auth after_auth
  auth-freed d ssh = ground (arith, init-freed d ssh, fail-freed d)

  handshake-freed :
      (d : Device) (ssh : Ssh)
      → let (s, acts) = start_sftp_handshake d ssh in opened acts ≡ held s + freed kind acts
  unfolding start_sftp_handshake after_handshake
  handshake-freed d ssh = ground (arith, auth-freed d ssh, fail-freed d)

  step-freed :
      (d : Device) (s : State) (e : Event)
      → held s + opened (step d s e).1 ≡ held (step d s e).0 + freed kind (step d s e).1
  unfolding step on_connect
  step-freed d idle (ready failed ssh) = omega arith
  step-freed d finished (ready failed ssh) = omega arith
  step-freed d connecting (ready failed ssh) = ground (arith, fail-freed d, handshake-freed d ssh)
  step-freed d in_handshake (ready failed ssh) = ground (arith, fail-freed d, handshake-freed d ssh)
  step-freed d in_auth (ready failed ssh) = ground (arith, fail-freed d, auth-freed d ssh)
  step-freed d in_init (ready failed ssh) = ground (arith, fail-freed d, init-freed d ssh)
  step-freed d in_open (ready failed ssh) = ground (arith, fail-freed d, open-freed d ssh)
  step-freed d (in_write total) (ready failed ssh) =
      ground (arith, finish_upload-freed d, write_blocks-freed d ssh total)

  run-freed :
      (d : Device) (s : State) (es : List Event)
      → held s + opened (run d s es).1 ≡ held (run d s es).0 + freed kind (run d s es).1
  unfolding run
  run-freed d s [] = omega arith
  run-freed d s (e ∷ es) = omega (
    arith,
    step-freed d s e,
    run-freed d (step d s e).0 es,
    opened-append (step d s e).1 (run d (step d s e).0 es).1,
    freed-append (step d s e).1 (run d (step d s e).0 es).1,
  )

  start-freed :
      (d : Device) (resolved : Bool)
      → let (s, acts) = start_sftp_upload d idle resolved in
        (opened acts ≡ 0) × (freed kind acts ≡ 0) × (held s ≡ 0)
  unfolding start_sftp_upload do_write_callback
  start-freed d resolved = ground arith

-- When an upload has ended, it has made each of the five calls of the cleanup, which close the file,
-- end the subsystem and the connection, free the session and leave libssh2, exactly as often as it
-- opened a file: the cleanup of an open file is never left out, and a session that ends before its
-- file is opened is never freed.
pub freed_iff_opened :
    (kind : Released) (d : Device) (resolved : Bool) (es : List Event)
    → (upload d resolved es).0 ≡ finished
    → freed kind (upload d resolved es).1 ≡ opened (upload d resolved es).1
freed_iff_opened kind d resolved es f =
    let (s, acts) = start_sftp_upload d idle resolved in
    omega (
      arith,
      ap held f,
      start-freed kind d resolved,
      run-freed kind d s es,
      opened-append acts (run d s es).1,
      freed-append kind acts (run d s es).1,
    )
