-- ===== src/SftpUpload/Delivery.antt =====
-- How often an upload reports its end, and when it gives its session back (src/SFTPSaver.cpp,
-- `SFTPUploadDevice`).
use async_iomanager.Common.{
  append-nil, append_assoc, ap, sym, ◌∙◌, ◌++◌, ℕ, ◌+◌, Bool, List, [], ◌∷◌, ◌++◌, if◌then◌else◌,
  ◌≡◌, arith,
}
use async_iomanager.Io.{made, made-append}
use async_iomanager.SftpUpload.{
  Device, Actions, Ssh, State, idle, connecting, in_handshake, in_auth, in_init, in_open, in_write,
  finished, Event, ready, Actions, do_write_callback, fail, start_sftp_cleanup, finish_upload,
  after_write, start_sftp_write_blocks, after_open, start_sftp_open, after_init, start_create_sftp,
  after_auth, start_sftp_auth, after_handshake, start_sftp_handshake, on_connect, step, run,
  start_sftp_upload,
}

-- The callbacks that a device has made when it is in a state: `handle_write_`, if it is set, once
-- when it is finished.
abbrev pub due : Device → State → ℕ
due d finished = if d.handle_write then 1 else 0
due d _ = 0

write_blocks-due :
    (d : Device) (ssh : Ssh) (total : ℕ)
    → made (start_sftp_write_blocks d ssh total).1 ≡ due d (start_sftp_write_blocks d ssh total).0
unfolding start_sftp_write_blocks after_write finish_upload start_sftp_cleanup do_write_callback
write_blocks-due d ssh total = ground arith

open-due :
    (d : Device) (ssh : Ssh) → made (start_sftp_open d ssh).1 ≡ due d (start_sftp_open d ssh).0
unfolding start_sftp_open after_open fail do_write_callback
open-due d ssh = ground (arith, write_blocks-due d ssh 0)

init-due :
    (d : Device) (ssh : Ssh) → made (start_create_sftp d ssh).1 ≡ due d (start_create_sftp d ssh).0
unfolding start_create_sftp after_init fail do_write_callback
init-due d ssh = ground (arith, open-due d ssh)

auth-due :
    (d : Device) (ssh : Ssh) → made (start_sftp_auth d ssh).1 ≡ due d (start_sftp_auth d ssh).0
unfolding start_sftp_auth after_auth fail do_write_callback
auth-due d ssh = ground (arith, init-due d ssh)

handshake-due :
    (d : Device) (ssh : Ssh)
    → made (start_sftp_handshake d ssh).1 ≡ due d (start_sftp_handshake d ssh).0
unfolding start_sftp_handshake after_handshake fail do_write_callback
handshake-due d ssh = ground (arith, auth-due d ssh)

pub step-due :
    (d : Device) (s : State) (e : Event) → made (step d s e).1 + due d s ≡ due d (step d s e).0
unfolding step on_connect fail finish_upload start_sftp_cleanup do_write_callback
step-due d idle (ready failed ssh) = omega arith
step-due d finished (ready failed ssh) = omega arith
step-due d connecting (ready failed ssh) = ground (arith, handshake-due d ssh)
step-due d in_handshake (ready failed ssh) = ground (arith, handshake-due d ssh)
step-due d in_auth (ready failed ssh) = ground (arith, auth-due d ssh)
step-due d in_init (ready failed ssh) = ground (arith, init-due d ssh)
step-due d in_open (ready failed ssh) = ground (arith, open-due d ssh)
step-due d (in_write total) (ready failed ssh) = ground (arith, write_blocks-due d ssh total)

pub run-due :
    (d : Device) (s : State) (es : List Event)
    → made (run d s es).1 + due d s ≡ due d (run d s es).0
unfolding run
run-due d s [] = omega arith
run-due d s (e ∷ es) = omega (
  arith,
  step-due d s e,
  run-due d (step d s e).0 es,
  made-append (step d s e).1 (run d (step d s e).0 es).1,
)

pub start-due :
    (d : Device) (resolved : Bool)
    → made (start_sftp_upload d idle resolved).1 ≡ due d (start_sftp_upload d idle resolved).0
unfolding start_sftp_upload do_write_callback
start-due d resolved = ground arith

-- What happens when an upload is over: the states after the start, with all actions.
abbrev pub upload : Device → Bool → List Event → State × Actions
upload d resolved es =
    let (s, acts) = start_sftp_upload d idle resolved in
    let (s', bs) = run d s es in (s', acts ++ bs)

-- Whatever libssh2 and the network answer, an upload makes its callback, if it has one, exactly
-- once by the time at which it has ended, and not before.
pub upload_once :
    (d : Device) (resolved : Bool) (es : List Event)
    → made (upload d resolved es).1 ≡ due d (upload d resolved es).0
upload_once d resolved es = omega (
  arith,
  start-due d resolved,
  made-append (start_sftp_upload d idle resolved).1
      (run d (start_sftp_upload d idle resolved).0 es).1,
  run-due d (start_sftp_upload d idle resolved).0 es,
)

run-snoc :
    (d : Device) (s : State) (es : List Event) (e : Event)
    → let (s', acts) = run d s es in
      run d s (es ++ e ∷ []) ≡ ((step d s' e).0, acts ++ (step d s' e).1)
unfolding run
run-snoc d s [] e = rw append-nil
run-snoc d s (e' ∷ es) e =
    let (s', acts) = step d s e' in
    let (s'', bs) = run d s' es in
    ap (λ (r : State × Actions). (r.0, acts ++ r.1)) (run-snoc d s' es e)
    ∙ ap (λ x. ((step d s'' e).0, x)) (sym (append_assoc acts bs (step d s'' e).1))

pub upload-snoc :
    (d : Device) (resolved : Bool) (es : List Event) (e : Event)
    → let (s, acts) = upload d resolved es in
      upload d resolved (es ++ e ∷ []) ≡ ((step d s e).0, acts ++ (step d s e).1)
upload-snoc d resolved es e =
    let (s, acts) = start_sftp_upload d idle resolved in
    let (s', bs) = run d s es in
    ap (λ (r : State × Actions). (r.0, acts ++ r.1)) (run-snoc d s es e)
    ∙ ap (λ x. ((step d s' e).0, x)) (sym (append_assoc acts bs (step d s' e).1))

pub upload-start :
    (d : Device) (resolved : Bool) → upload d resolved [] ≡ start_sftp_upload d idle resolved
unfolding run
upload-start d resolved = rw append-nil
