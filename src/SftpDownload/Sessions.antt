-- ===== src/SftpDownload/Sessions.antt =====
-- When an SFTP download gives back its handle, subsystem and session (src/SFTPCommon.cpp,
-- `SFTPDevice::StartSFTPCleanup`).
use async_iomanager.Common.{
  ℕ, ◌+◌, Bool, true, false, some, List, [], ◌∷◌, ◌++◌, Bytes, codes, ◌≡◌, refl, ap, arith,
}
use async_iomanager.Io.{ResultType, success, Completion, Action, op, call}
use async_iomanager.SftpUpload.{Rc}
use async_iomanager.SftpDownload.{
  Device, StatRc, filesize, stat_again, stat_error, Op, sftp_stat, session_free, session_handshake,
  userauth, sftp_init, sftp_open, credentials, Ssh, State, idle, connecting, in_handshake, in_auth,
  in_init, in_open, in_stat, in_read, finished, Event, ready, Actions, fail, fail_read,
  start_sftp_cleanup, after, zeros, deliver, after_read, start_sftp_get_blocks, after_stat,
  start_sftp_get_size, full_path, start_sftp_open, start_create_sftp, start_sftp_auth,
  start_sftp_handshake, on_connect, on_wait, step, run, start_sftp_download,
}
use async_iomanager.SftpDownload.Delivery.{download}

abbrev sizes : Action Op Completion → ℕ
sizes (op (sftp_stat path (filesize n))) = 1
sizes a = 0

abbrev frees : Action Op Completion → ℕ
frees (op session_free) = 1
frees a = 0

abbrev has_files : ResultType → ℕ
has_files (success (some files)) = 1
has_files r = 0

abbrev delivers : Action Op Completion → ℕ
delivers (op o) = 0
delivers (call c) = has_files c.buffers
delivers a = 0

-- How often the size of a file was told, a session was given back, and a file was delivered.
abbrev pub sized : Actions → ℕ
sized [] = 0
sized (a ∷ acts) = sizes a + sized acts

abbrev pub freed : Actions → ℕ
freed [] = 0
freed (a ∷ acts) = frees a + freed acts

abbrev pub delivered : Actions → ℕ
delivered [] = 0
delivered (a ∷ acts) = delivers a + delivered acts

-- Whether a file is being read.
abbrev reads : State → ℕ
reads (in_read part buffer total) = 1
reads _ = 0

-- The files of which the size was told are those that are being read, that were delivered, and whose
-- session was given back; there are some to begin with.
abbrev IsKept : ℕ → State × Actions → Type 0
IsKept n (s, acts) = n + sized acts ≡ reads s + (freed acts + delivered acts)

fail-IsKept : (text : Bytes) → IsKept 0 (fail text)
unfolding fail
fail-IsKept text = refl

fail_read-IsKept : (text : Bytes) → IsKept 1 (fail_read text)
unfolding fail_read start_sftp_cleanup
fail_read-IsKept text = refl

after-IsKept :
    (rc : Rc) (s : State) (bad good : Bytes) (next : State × Actions)
    → reads s ≡ 0
    → IsKept 0 next
    → IsKept 0 (after rc s bad good next)
unfolding after
after-IsKept rc s bad good next waits n = ground (arith, fail-IsKept bad)

on_wait-IsKept :
    (n : ℕ) (failed : Bool) (f next : State × Actions)
    → IsKept n f
    → IsKept n next
    → IsKept n (on_wait failed f next)
unfolding on_wait
on_wait-IsKept n failed f next a b = ground arith

call-IsKept :
    (o : Op) (s : State) (acts : Actions)
    → sizes (op o) ≡ 0
    → frees (op o) ≡ 0
    → IsKept 0 (s, acts)
    → IsKept 0 (s, op o ∷ acts)
call-IsKept o s acts e f k = omega arith

module _ (d : Device) (ssh : Ssh) where
  blocks-IsKept : (buffer : Bytes) (total : ℕ) → IsKept 1 (start_sftp_get_blocks d ssh buffer total)
  unfolding start_sftp_get_blocks after_read deliver
  blocks-IsKept buffer total = ground (arith, fail_read-IsKept (codes "SFTP Read Failed."))

  stat-IsKept :
      (path : Bytes) (rc : StatRc)
      → let (s, acts) = after_stat d ssh rc in IsKept 0 (s, op (sftp_stat path rc) ∷ acts)
  unfolding after_stat
  stat-IsKept path stat_again = refl
  stat-IsKept path stat_error = omega (arith, fail-IsKept (codes "SFTP File Size does not match"))
  stat-IsKept path (filesize n) = omega (arith, blocks-IsKept (zeros n) 0)

  size-IsKept : IsKept 0 (start_sftp_get_size d ssh)
  unfolding start_sftp_get_size
  size-IsKept = stat-IsKept (full_path d) ssh.stat

  open-IsKept : IsKept 0 (start_sftp_open d ssh)
  unfolding start_sftp_open
  open-IsKept =
      call-IsKept (sftp_open (full_path d) ssh.open_file) _ _ refl refl
        (after-IsKept ssh.open_file in_open _ _ _ refl size-IsKept)

  create-IsKept : IsKept 0 (start_create_sftp d ssh)
  unfolding start_create_sftp
  create-IsKept =
      call-IsKept (sftp_init ssh.init) _ _ refl refl
        (after-IsKept ssh.init in_init _ _ _ refl open-IsKept)

  auth-IsKept : IsKept 0 (start_sftp_auth d ssh)
  unfolding start_sftp_auth
  auth-IsKept =
      call-IsKept (userauth (credentials d) ssh.auth) _ _ refl refl
        (after-IsKept ssh.auth in_auth _ _ _ refl create-IsKept)

  handshake-IsKept : IsKept 0 (start_sftp_handshake d ssh)
  unfolding start_sftp_handshake
  handshake-IsKept =
      call-IsKept (session_handshake ssh.handshake) _ _ refl refl
        (after-IsKept ssh.handshake in_handshake _ _ _ refl auth-IsKept)

  connect-IsKept : (failed : Bool) → IsKept 0 (on_connect d ssh failed)
  unfolding on_connect
  connect-IsKept true = fail-IsKept _
  connect-IsKept false = omega (arith, handshake-IsKept)

step-IsKept : (d : Device) (s : State) (e : Event) → IsKept (reads s) (step d s e)
unfolding step
step-IsKept d idle (ready failed ssh) = refl
step-IsKept d finished (ready failed ssh) = refl
step-IsKept d connecting (ready failed ssh) = connect-IsKept d ssh failed
step-IsKept d in_handshake (ready failed ssh) =
    on_wait-IsKept 0 failed _ _ (fail-IsKept _) (handshake-IsKept d ssh)
step-IsKept d in_auth (ready failed ssh) =
    on_wait-IsKept 0 failed _ _ (fail-IsKept _) (auth-IsKept d ssh)
step-IsKept d in_init (ready failed ssh) =
    on_wait-IsKept 0 failed _ _ (fail-IsKept _) (create-IsKept d ssh)
step-IsKept d in_open (ready failed ssh) =
    on_wait-IsKept 0 failed _ _ (fail-IsKept _) (open-IsKept d ssh)
step-IsKept d in_stat (ready failed ssh) =
    on_wait-IsKept 0 failed _ _ (fail-IsKept _) (size-IsKept d ssh)
step-IsKept d (in_read part buffer total) (ready failed ssh) =
    on_wait-IsKept 1 failed _ _ (fail_read-IsKept _) (blocks-IsKept d ssh buffer total)

sized-append : (acts bs : Actions) → sized (acts ++ bs) ≡ sized acts + sized bs
sized-append [] bs = omega arith
sized-append (a ∷ acts) bs = omega (arith, sized-append acts bs)

freed-append : (acts bs : Actions) → freed (acts ++ bs) ≡ freed acts + freed bs
freed-append [] bs = omega arith
freed-append (a ∷ acts) bs = omega (arith, freed-append acts bs)

delivered-append : (acts bs : Actions) → delivered (acts ++ bs) ≡ delivered acts + delivered bs
delivered-append [] bs = omega arith
delivered-append (a ∷ acts) bs = omega (arith, delivered-append acts bs)

-- Two parts of a run, the second from where the first one ends.
append-IsKept :
    (n : ℕ) (s : State) (acts : Actions) (t : State) (bs : Actions)
    → IsKept n (s, acts)
    → IsKept (reads s) (t, bs)
    → IsKept n (t, acts ++ bs)
append-IsKept n s acts t bs a b =
    omega (arith, sized-append acts bs, freed-append acts bs, delivered-append acts bs)

run-IsKept : (d : Device) (s : State) (es : List Event) → IsKept (reads s) (run d s es)
unfolding run
run-IsKept d s [] = omega arith
run-IsKept d s (e ∷ es) =
    append-IsKept (reads s) (step d s e).0 (step d s e).1 (run d (step d s e).0 es).0
      (run d (step d s e).0 es).1 (step-IsKept d s e) (run-IsKept d (step d s e).0 es)

start-IsKept : (resolved : Bool) → IsKept 0 (start_sftp_download idle resolved)
unfolding start_sftp_download
start-IsKept resolved = ground arith

-- A download that has ended has made the call that frees its session as often as it learnt the size
-- of the file and did not deliver it: only a failure to read the file makes that call. A download that
-- delivers the file, and one that fails before it knows the size, never makes it.
pub freed_unless_delivered :
    (d : Device) (resolved : Bool) (es : List Event)
    → (download d resolved es).0 ≡ finished
    → let acts = (download d resolved es).1 in sized acts ≡ freed acts + delivered acts
freed_unless_delivered d resolved es f =
    let (s, acts) = start_sftp_download idle resolved in
    let kept : IsKept 0 (download d resolved es) =
      append-IsKept 0 s acts (run d s es).0 (run d s es).1 (start-IsKept resolved)
        (run-IsKept d s es) in
    omega (arith, ap reads f, kept)
