-- ===== src/SftpDownload.antt =====
-- src/SFTPCommon.cpp and src/SFTPLoader.cpp: the download of a file over SFTP, as a state machine
-- like that of the upload. These files are not in the build. An answer to `libssh2_sftp_read` is
-- what the server offers, of which the call puts as much into the buffer as there is room for; an
-- offer of no bytes is the end of the file.
pub mod Delivery
pub mod Places
pub mod Reads
pub mod Content
pub mod Serving
pub mod Ends
pub mod Sessions
mod Tests
use async_iomanager.Common.{
  ℕ, zero, suc, ◌+◌, ◌-◌, Bool, true, false, none, some, List, [], ◌∷◌, ◌++◌, Bytes, codes,
  is_empty, filename, take, drop, length, ltb, leb, if◌then◌else◌,
}
use async_iomanager.Io.{ResultType, success, Completion, Action, op, call}
use async_iomanager.Url.Sftp.{SftpUrl, parse_sftp_url}
use async_iomanager.SftpUpload.{Rc, ok, again, error, Auth, publickey_fromfile, password}

pub record Device : Type 0 where
  pub sftp_host : Bytes
  pub sftp_path : Bytes
  pub sftp_user : Bytes
  pub sftp_pass : Bytes
  pub sftp_pubkeyfile : Bytes
  pub sftp_privkeyfile : Bytes
  pub sftp_privkeypass : Bytes
  pub parse : Bool
  pub save : Bool

-- The size of the file, or an error.
pub data StatRc : Type 0 where
  filesize : ℕ → StatRc
  stat_again stat_error : StatRc

pub data ReadRc : Type 0 where
  offers : Bytes → ReadRc
  read_again read_error : ReadRc

pub data Op : Type 0 where
  -- the calls of the status callback: whether it reports a success, and its text
  status : Bool → Bytes → Op
  -- whether there is an address to connect to
  async_connect : Bool → Op
  wait_read set_nonblocking : Op
  session_handshake : Rc → Op
  userauth : Auth → Rc → Op
  sftp_init : Rc → Op
  sftp_open : Bytes → Rc → Op
  sftp_stat : Bytes → StatRc → Op
  -- the offset in the buffer, the room from there on, and the answer
  sftp_read : ℕ → ℕ → ReadRc → Op
  close_handle sftp_shutdown session_disconnect session_free libssh2_exit : Op

abbrev pub Actions : Type 0
Actions = List (Action Op Completion)

-- The answers to the calls between two waits.
pub record Ssh : Type 0 where
  pub handshake : Rc
  pub auth : Rc
  pub init : Rc
  pub open_file : Rc
  pub stat : StatRc
  pub read : ReadRc

pub data State : Type 0 where
  -- `downloading_` is false
  idle : State
  connecting in_handshake in_auth in_init in_open in_stat : State
  -- whether the wait follows a part that was read, the buffer, and the bytes of it that were read
  in_read : Bool → Bytes → ℕ → State
  finished : State

-- The end of the pending wait; the flag says that it failed.
pub data Event : Type 0 where
  ready : Bool → Ssh → Event

-- A null pointer is converted to a result with a value.
abbrev pub no_data : Completion
no_data = record { buffers = success none; parse = false; save = false }

pub fail : Bytes → State × Actions
fail text = (finished, op (status false text) ∷ call no_data ∷ [])

-- `StartSFTPCleanup`. The calls are made once and their answers are not looked at, so that the device
-- does the same whatever they are: also where one is `LIBSSH2_ERROR_EAGAIN`, and its work is not done.
pub start_sftp_cleanup : Actions
start_sftp_cleanup =
    op close_handle
    ∷ op sftp_shutdown
    ∷ op session_disconnect
    ∷ op session_free
    ∷ op libssh2_exit
    ∷ []

pub fail_read : Bytes → State × Actions
fail_read text = (finished, op (status false text) ∷ (start_sftp_cleanup ++ call no_data ∷ []))

-- The branches on the answer of a call that sets up the session: to wait and call again, to fail, or
-- to report a status and go on.
pub after : Rc → State → Bytes → Bytes → State × Actions → State × Actions
after again waiting bad good next = (waiting, op wait_read ∷ [])
after error waiting bad good next = fail bad
after ok waiting bad good next = let (s, acts) = next in (s, op (status true good) ∷ acts)

abbrev pub full_path : Device → Bytes
full_path d = codes "." ++ d.sftp_path

-- A buffer of zeros.
pub zeros : ℕ → Bytes
zeros zero = []
zeros (suc n) = 0 ∷ zeros n

-- A chunk that is read into a buffer at an offset.
pub write_at : ℕ → Bytes → Bytes → Bytes
write_at offset chunk buffer = take offset buffer ++ (chunk ++ drop (offset + length chunk) buffer)

pub deliver : Device → Bytes → Completion
deliver d buffer = record {
  buffers = success (some (record { paths = filename d.sftp_path ∷ []; contents = buffer ∷ [] }));
  parse = d.parse;
  save = d.save;
}

-- The branches of `StartSFTPGetBlocks` on the answer.
pub after_read : Device → Bytes → ℕ → ReadRc → State × Actions
after_read d buffer total read_again = (in_read false buffer total, op wait_read ∷ [])
after_read d buffer total read_error = fail_read (codes "SFTP Read Failed.")
after_read d buffer total (offers bytes) =
    let chunk = take (length buffer - total) bytes in
    let filled = write_at total chunk buffer in
    if ltb 0 (length chunk)
    then (if leb (length buffer) (total + length chunk)
        then (
          finished,
          op (status true (codes "SFTP Read Finished")) ∷ call (deliver d filled) ∷ [],
        )
        else (in_read true filled (total + length chunk), op wait_read ∷ []))
    else fail_read (codes "SFTP Read Failed.")

-- `StartSFTPGetBlocks`.
pub start_sftp_get_blocks : Device → Ssh → Bytes → ℕ → State × Actions
start_sftp_get_blocks d ssh buffer total =
    let (s, acts) = after_read d buffer total ssh.read in
    (s, op (sftp_read total (length buffer - total) ssh.read) ∷ acts)

-- The branches of `StartSFTPGetSize` on the answer.
pub after_stat : Device → Ssh → StatRc → State × Actions
after_stat d ssh stat_again = (in_stat, op wait_read ∷ [])
after_stat d ssh stat_error = fail (codes "SFTP File Size does not match")
after_stat d ssh (filesize n) =
    let (s, acts) = start_sftp_get_blocks d ssh (zeros n) 0 in
    (s, op (status true (codes "Reading SFTP File")) ∷ acts)

-- `StartSFTPGetSize`.
pub start_sftp_get_size : Device → Ssh → State × Actions
start_sftp_get_size d ssh =
    let (s, acts) = after_stat d ssh ssh.stat in (s, op (sftp_stat (full_path d) ssh.stat) ∷ acts)

-- `StartSFTPOpen`.
pub start_sftp_open : Device → Ssh → State × Actions
start_sftp_open d ssh =
    let (s, acts) =
      after ssh.open_file in_open (codes "SFTP Open Error") (codes "Getting SFTP File Size")
        (start_sftp_get_size d ssh) in
    (s, op (sftp_open (full_path d) ssh.open_file) ∷ acts)

-- `StartCreateSFTP`.
pub start_create_sftp : Device → Ssh → State × Actions
start_create_sftp d ssh =
    let (s, acts) =
      after ssh.init in_init (codes "SFTP Create Error") (codes "Starting SFTP Open")
        (start_sftp_open d ssh) in
    (s, op (sftp_init ssh.init) ∷ acts)

-- The credentials that `StartSFTPAuth` takes: a private key goes without its passphrase.
pub credentials : Device → Auth
credentials d =
    if is_empty d.sftp_privkeyfile
    then (if is_empty d.sftp_pubkeyfile
        then password d.sftp_user d.sftp_pass
        else publickey_fromfile d.sftp_user d.sftp_pubkeyfile d.sftp_privkeypass)
    else publickey_fromfile d.sftp_user d.sftp_privkeyfile []

-- `StartSFTPAuth`.
pub start_sftp_auth : Device → Ssh → State × Actions
start_sftp_auth d ssh =
    let (s, acts) =
      after ssh.auth in_auth (codes "SFTP Fail, authentication fail")
        (codes "Creating SFTP Handler") (start_create_sftp d ssh) in
    (s, op (userauth (credentials d) ssh.auth) ∷ acts)

-- `StartSFTPHandshake`.
pub start_sftp_handshake : Device → Ssh → State × Actions
start_sftp_handshake d ssh =
    let (s, acts) =
      after ssh.handshake in_handshake (codes "SFTP Handshake Error") (codes "Starting SFTP Auth")
        (start_sftp_auth d ssh) in
    (s, op (session_handshake ssh.handshake) ∷ acts)

-- The lambda of `async_connect`.
pub on_connect : Device → Ssh → Bool → State × Actions
on_connect d ssh true = fail (codes "SFTP Connection Error")
on_connect d ssh false =
    let (s, acts) = start_sftp_handshake d ssh in
    (s, op set_nonblocking ∷ op (status true (codes "SFTP SSL Handshake Started")) ∷ acts)

-- The end of a wait for the socket: to go on, or to fail with a text.
pub on_wait : Bool → State × Actions → State × Actions → State × Actions
on_wait true failed next = failed
on_wait false failed next = next

-- The end of the pending wait. When nothing is pending no wait ends, and nothing changes.
pub step : Device → State → Event → State × Actions
step d connecting (ready failed ssh) = on_connect d ssh failed
step d in_handshake (ready failed ssh) =
    on_wait failed (fail (codes "SFTP Handshake Error")) (start_sftp_handshake d ssh)
step d in_auth (ready failed ssh) =
    on_wait failed (fail (codes "SFTP Fail, authentication fail")) (start_sftp_auth d ssh)
step d in_init (ready failed ssh) =
    on_wait failed (fail (codes "SFTP Create Error")) (start_create_sftp d ssh)
step d in_open (ready failed ssh) =
    on_wait failed (fail (codes "SFTP Open Error")) (start_sftp_open d ssh)
step d in_stat (ready failed ssh) =
    on_wait failed (fail (codes "SFTP File Size does not match")) (start_sftp_get_size d ssh)
step d (in_read part buffer total) (ready failed ssh) =
    on_wait failed
      (fail_read (
        if part
        then codes "SFTP Read Failure. Next Part not obtained"
        else codes "SFTP Read Failed. Socket not readable"))
      (start_sftp_get_blocks d ssh buffer total)
step d s e = (s, [])

pub run : Device → State → List Event → State × Actions
run d s [] = (s, [])
run d s (e ∷ es) = let (s', acts) = step d s e in let (s'', bs) = run d s' es in (s'', acts ++ bs)

-- `StartSFTPDownload`, with the answer of the resolver. Where it fails the status reports it, and the
-- function goes on to connect, to no address.
pub start_sftp_download : State → Bool → State × Actions
start_sftp_download idle resolved = (
  connecting,
  (if resolved then [] else op (status false (codes "SFTP Could not resolve address")) ∷ [])
      ++ (op (status true (codes "Starting SFTP Connection")) ∷ op (async_connect resolved) ∷ []),
)
start_sftp_download s resolved = (s, [])

-- The device for a URL; whether the URL was parsed is not looked at.
pub device_of : SftpUrl → Bool → Bool → Device
device_of u parse save = record {
  sftp_host = u.host;
  sftp_path = u.path;
  sftp_user = u.user;
  sftp_pass = u.pass;
  sftp_pubkeyfile = u.publickey_file;
  sftp_privkeyfile = u.privatekey_file;
  sftp_privkeypass = u.privatekey_pass;
  parse = parse;
  save = save;
}

-- The outputs of `parseSFTPUrl` before the call.
abbrev pub no_url : SftpUrl
no_url = record {
  host = [];
  path = [];
  user = [];
  pass = [];
  publickey_file = [];
  privatekey_file = [];
  privatekey_pass = [];
}

-- `SFTPLoader::LoadASync`.
pub load_async : Bytes → Bool → Bool → Bool → Device × (State × Actions)
load_async file parse save resolved =
    (device_of (parse_sftp_url file no_url).1 parse save, start_sftp_download idle resolved)
