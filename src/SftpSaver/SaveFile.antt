-- ===== src/SftpSaver/SaveFile.antt =====
-- src/SFTPSaver.cpp, `SFTPSaver::SaveFile`: the blocking upload of one file. The answers of libssh2
-- are parameters; those of the writes are a list, of which the loop takes one in each turn: the
-- number of bytes written, or `none` where it is negative.
pub mod Laws
use async_iomanager.Common.{
  ℕ, zero, suc, ◌+◌, ◌-◌, ◌≤◌, Bool, true, false, Bool-cases, inl, inr, Option, none, some, List,
  [], ◌∷◌, ◌++◌, Bytes, codes, length, length-append, take, drop, take-append-drop, drop-drop,
  drop_all, append_assoc, append-nil, ltb, if◌then◌else◌, All, ◌≡◌, ◌≢◌, refl, sym, ap, ◌∙◌, arith,
}
use async_iomanager.Io.{Exception, range_error, runtime_error, system_error, Call, returned, thrown}
use async_iomanager.Url.Sftp.{SftpUrl, parse_sftp_url}
use async_iomanager.SftpUpload.{
  Device, Rc, WriteRc, Op, resolve, session_handshake, userauth, sftp_init, sftp_open, sftp_write,
  close_handle, sftp_shutdown, session_disconnect, session_free, libssh2_exit, wrote, credentials,
  resolve_target,
}
use async_iomanager.SftpSaver.{no_url, device_for}

-- Whether `libssh2_init`, the resolver with the connection, and the four calls that set up the
-- session succeed.
pub record Answers : Type 0 where
  pub initialised : Bool
  pub connected : Bool
  pub handshake : Bool
  pub auth : Bool
  pub init : Bool
  pub open_file : Bool

-- How far the function has come: it has ended, or waits for the answer of a write.
pub data Progress : Type 0 where
  ended : Call (Unit {0}) → Progress
  in_write : ℕ → Progress

abbrev rc : Bool → Rc
rc succeeded = if succeeded then Rc.ok else Rc.error

-- The calls that close the file and end the session.
abbrev pub close : List Op
close = close_handle ∷ sftp_shutdown ∷ session_disconnect ∷ session_free ∷ libssh2_exit ∷ []

-- The loop, and what follows it.
pub write_all : Bytes → ℕ → List (Option ℕ) → Progress × List Op
write_all content total [] =
    if ltb total (length content) then (in_write total, []) else (ended (returned tt), close)
write_all content total (none ∷ answers) =
    if ltb total (length content)
    then (
      ended (thrown (runtime_error (codes "SFTP write failed"))),
      sftp_write (drop total content) WriteRc.error ∷ close,
    )
    else (ended (returned tt), close)
write_all content total (some n ∷ answers) =
    let (p, ops) = write_all content (total + n) answers in
    if ltb total (length content)
    then (p, sftp_write (drop total content) (wrote n) ∷ ops)
    else (ended (returned tt), close)

abbrev stop : Bytes → Call (Unit {0})
stop text = thrown (runtime_error text)

-- The end of a session without an open file.
abbrev hang_up : List Op
hang_up = session_disconnect ∷ session_free ∷ libssh2_exit ∷ []

module _ (u : SftpUrl) (content : Bytes) (a : Answers) (writes : List (Option ℕ)) where
  pub open_stage : Progress × List Op
  open_stage =
      let (p, ops) = write_all content 0 writes in
      if a.open_file then (p, sftp_open (codes "." ++ u.path) Rc.ok ∷ ops) else (
        ended (stop (codes "SFTP file open for write failed: " ++ u.path)),
        sftp_open (codes "." ++ u.path) Rc.error ∷ sftp_shutdown ∷ hang_up,
      )

  pub init_stage : Progress × List Op
  init_stage =
      if a.init
      then (let (p, ops) = open_stage in (p, sftp_init Rc.ok ∷ ops))
      else (ended (stop (codes "SFTP init failed")), sftp_init Rc.error ∷ hang_up)

  -- The credentials are chosen as `SFTPUploadDevice` chooses them.
  unfoldable pub auth_stage : Progress × List Op
  auth_stage =
      let c = credentials (device_for u false [] content) in
      if a.auth
      then (let (p, ops) = init_stage in (p, userauth c Rc.ok ∷ ops))
      else (ended (stop (codes "SFTP authentication failed")), userauth c Rc.error ∷ hang_up)

  unfoldable pub handshake_stage : Progress × List Op
  handshake_stage =
      if a.handshake then (let (p, ops) = auth_stage in (p, session_handshake Rc.ok ∷ ops)) else (
        ended (stop (codes "SFTP handshake failed")),
        session_handshake Rc.error ∷ session_free ∷ libssh2_exit ∷ [],
      )

  unfoldable pub connect_stage : Progress × List Op
  connect_stage =
      let (host, port) = resolve_target u.host in
      if a.connected
      then (let (p, ops) = handshake_stage in (p, resolve host port ∷ ops))
      else (ended (thrown system_error), resolve host port ∷ [])

-- `SFTPSaver::SaveFile`; the result of `parseSFTPUrl` is not looked at.
unfoldable pub save_file : Bytes → Option Bytes → Answers → List (Option ℕ) → Progress × List Op
save_file file none a writes =
    (ended (thrown (range_error (codes "Cannot save with null data"))), [])
save_file file (some content) a writes =
    if a.initialised
    then connect_stage (parse_sftp_url file no_url).1 content a writes
    else (ended (stop (codes "libssh2_init failed")), [])
