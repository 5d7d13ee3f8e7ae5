-- ===== src/SftpUpload.antt =====
-- src/SFTPSaver.cpp, the class `SFTPUploadDevice`: the upload of one file over SFTP, as a state
-- machine. A state is the wait that is pending, with the function that goes on when it is over; an
-- event is the end of that wait, with the answers of libssh2 to the calls that follow until the next
-- wait, each of which is made at most once. Every such call is in the trace, with its answer where the
-- code looks at it.
pub mod Delivery
pub mod Ends
pub mod Writes
pub mod Content
pub mod Cleanup
mod Tests
use async_iomanager.Common.{
  ℕ, ◌+◌, ◌-◌, Bool, true, false, none, some, List, [], ◌∷◌, ◌++◌, Bytes, codes, is_empty, rfind,
  substr, drop, length, ltb, leb, ◌==◌, if◌then◌else◌,
}
use async_iomanager.Io.{Action, op, post}

pub record Device : Type 0 where
  pub sftp_host : Bytes
  pub sftp_path : Bytes
  pub sftp_user : Bytes
  pub sftp_pass : Bytes
  pub sftp_pubkeyfile : Bytes
  pub sftp_privkeyfile : Bytes
  pub sftp_privkeypass : Bytes
  pub file_content : Bytes
  -- whether `handle_write_` and `save_location_` are set
  pub handle_write : Bool
  pub save_location : Bool

-- The answer of a libssh2 call: success, `LIBSSH2_ERROR_EAGAIN`, or any other error. For a call
-- that returns a pointer it is the pointer or, where that is null, the session's last error.
pub data Rc : Type 0 where
  ok again error : Rc

-- `libssh2_sftp_write` returns the number of bytes that it took, or an error.
pub data WriteRc : Type 0 where
  wrote : ℕ → WriteRc
  again error : WriteRc

pub data Auth : Type 0 where
  -- user, private key file and its passphrase
  publickey_fromfile : Bytes → Bytes → Bytes → Auth
  -- user and password
  password : Bytes → Bytes → Auth

pub data Op : Type 0 where
  resolve : Bytes → Bytes → Op
  async_connect wait_read wait_write : Op
  set_nonblocking : Op
  session_handshake : Rc → Op
  userauth : Auth → Rc → Op
  sftp_init : Rc → Op
  sftp_open : Bytes → Rc → Op
  -- the bytes that were offered, and the answer
  sftp_write : Bytes → WriteRc → Op
  -- `*save_location_ = …`
  report_location : Bytes → Op
  close_handle sftp_shutdown session_disconnect session_free libssh2_exit : Op

abbrev pub Actions : Type 0
Actions = List (Action Op (Unit {0}))

-- The answers to the calls between two waits.
pub record Ssh : Type 0 where
  pub handshake : Rc
  pub auth : Rc
  pub init : Rc
  pub open_file : Rc
  pub write : WriteRc

pub data State : Type 0 where
  -- `uploading_` is false
  idle : State
  connecting in_handshake in_auth in_init in_open : State
  -- the bytes that were written
  in_write : ℕ → State
  finished : State

-- The end of the pending wait; the flag says that it failed.
pub data Event : Type 0 where
  ready : Bool → Ssh → Event

-- `DoWriteCallback`.
unfoldable pub do_write_callback : Device → Actions
do_write_callback d = if d.handle_write then post tt ∷ [] else []

pub fail : Device → State × Actions
fail d = (finished, do_write_callback d)

-- `StartSFTPCleanup`: session, handle and subsystem are never null where it is called. The calls are
-- made once and their answers are not looked at, so that the device does the same whatever they are:
-- also where one is `LIBSSH2_ERROR_EAGAIN`, and its work is not done.
unfoldable pub start_sftp_cleanup : Actions
start_sftp_cleanup =
    op close_handle
    ∷ op sftp_shutdown
    ∷ op session_disconnect
    ∷ op session_free
    ∷ op libssh2_exit
    ∷ []

unfoldable pub finish_upload : Device → State × Actions
finish_upload d = (finished, start_sftp_cleanup ++ do_write_callback d)

-- The branches of `StartSFTPWriteBlocks` on the answer of the write.
unfoldable pub after_write : Device → ℕ → WriteRc → State × Actions
after_write d total again = (in_write total, op wait_write ∷ [])
after_write d total error = finish_upload d
after_write d total (wrote n) =
    if ltb 0 n
    then (if leb (length d.file_content) (total + n)
        then finish_upload d
        else (in_write (total + n), op wait_write ∷ []))
    else finish_upload d

-- `StartSFTPWriteBlocks`.
unfoldable pub start_sftp_write_blocks : Device → Ssh → ℕ → State × Actions
start_sftp_write_blocks d ssh total =
    if length d.file_content - total == 0
    then finish_upload d
    else (let (s, acts) = after_write d total ssh.write in
        (s, op (sftp_write (drop total d.file_content) ssh.write) ∷ acts))

abbrev pub location : Device → Bytes
location d = codes "sftp://" ++ (d.sftp_user ++ (codes "@" ++ (d.sftp_host ++ d.sftp_path)))

-- The branches of `StartSFTPOpen` on the answer.
unfoldable pub after_open : Device → Ssh → Rc → State × Actions
after_open d ssh again = (in_open, op wait_read ∷ [])
after_open d ssh error = fail d
after_open d ssh ok =
    let (s, acts) = start_sftp_write_blocks d ssh 0 in
    (s, (if d.save_location then op (report_location (location d)) ∷ [] else []) ++ acts)

-- `StartSFTPOpen`.
unfoldable pub start_sftp_open : Device → Ssh → State × Actions
start_sftp_open d ssh =
    let (s, acts) = after_open d ssh ssh.open_file in
    (s, op (sftp_open (codes "." ++ d.sftp_path) ssh.open_file) ∷ acts)

-- The branches of `StartCreateSFTP` on the answer.
unfoldable pub after_init : Device → Ssh → Rc → State × Actions
after_init d ssh again = (in_init, op wait_read ∷ [])
after_init d ssh error = fail d
after_init d ssh ok = start_sftp_open d ssh

-- `StartCreateSFTP`.
unfoldable pub start_create_sftp : Device → Ssh → State × Actions
start_create_sftp d ssh =
    let (s, acts) = after_init d ssh ssh.init in (s, op (sftp_init ssh.init) ∷ acts)

-- The credentials that `StartSFTPAuth` takes.
pub credentials : Device → Auth
credentials d =
    if is_empty d.sftp_privkeyfile
    then (if is_empty d.sftp_pubkeyfile
        then password d.sftp_user d.sftp_pass
        else publickey_fromfile d.sftp_user d.sftp_pubkeyfile d.sftp_privkeypass)
    else publickey_fromfile d.sftp_user d.sftp_privkeyfile d.sftp_privkeypass

-- The branches of `StartSFTPAuth` on the answer.
unfoldable pub after_auth : Device → Ssh → Rc → State × Actions
after_auth d ssh again = (in_auth, op wait_read ∷ [])
after_auth d ssh error = fail d
after_auth d ssh ok = start_create_sftp d ssh

-- `StartSFTPAuth`.
unfoldable pub start_sftp_auth : Device → Ssh → State × Actions
start_sftp_auth d ssh =
    let (s, acts) = after_auth d ssh ssh.auth in (s, op (userauth (credentials d) ssh.auth) ∷ acts)

-- The branches of `StartSFTPHandshake` on the answer.
unfoldable pub after_handshake : Device → Ssh → Rc → State × Actions
after_handshake d ssh again = (in_handshake, op wait_read ∷ [])
after_handshake d ssh error = fail d
after_handshake d ssh ok = start_sftp_auth d ssh

-- `StartSFTPHandshake`.
unfoldable pub start_sftp_handshake : Device → Ssh → State × Actions
start_sftp_handshake d ssh =
    let (s, acts) = after_handshake d ssh ssh.handshake in
    (s, op (session_handshake ssh.handshake) ∷ acts)

-- The lambda of `async_connect`.
unfoldable pub on_connect : Device → Ssh → Bool → State × Actions
on_connect d ssh true = fail d
on_connect d ssh false =
    let (s, acts) = start_sftp_handshake d ssh in (s, op set_nonblocking ∷ acts)

-- The end of the pending wait. When nothing is pending no wait ends, and nothing changes.
unfoldable pub step : Device → State → Event → State × Actions
step d connecting (ready failed ssh) = on_connect d ssh failed
step d in_handshake (ready failed ssh) = if failed then fail d else start_sftp_handshake d ssh
step d in_auth (ready failed ssh) = if failed then fail d else start_sftp_auth d ssh
step d in_init (ready failed ssh) = if failed then fail d else start_create_sftp d ssh
step d in_open (ready failed ssh) = if failed then fail d else start_sftp_open d ssh
step d (in_write total) (ready failed ssh) =
    if failed then finish_upload d else start_sftp_write_blocks d ssh total
step d s e = (s, [])

pub run : Device → State → List Event → State × Actions
run d s [] = (s, [])
run d s (e ∷ es) = let (s', acts) = step d s e in let (s'', bs) = run d s' es in (s'', acts ++ bs)

-- Host and port, split at the last colon.
pub resolve_target : Bytes → Bytes × Bytes
resolve_target host = elim (rfind 58 host) [
  | none ↦ (host, codes "22")
  | some i ↦ (substr host 0 i, substr host (i + 1) (length host))
]

-- `StartSFTPUpload`, with the answer of the resolver. After a failed resolution the device stays
-- `uploading_`, with no wait pending.
unfoldable pub start_sftp_upload : Device → State → Bool → State × Actions
start_sftp_upload d idle resolved =
    let (host, port) = resolve_target d.sftp_host in
    (if resolved
      then (connecting, op (resolve host port) ∷ op async_connect ∷ [])
      else (finished, op (resolve host port) ∷ do_write_callback d))
start_sftp_upload d s resolved = (s, [])
