-- ===== src/SftpUpload/Ends.antt =====
-- When an upload ends (src/SFTPSaver.cpp, `SFTPUploadDevice`).
use async_iomanager.Common.{
  ℕ, ◌+◌, ◌-◌, ◌≤◌, length, ◌&&◌, All, Bool, true, false, List, [], ◌∷◌, ◌≡◌, refl, ◌≢◌, arith,
}
use async_iomanager.SftpUpload.{
  Device, Rc, again, WriteRc, Ssh, State, idle, connecting, in_handshake, in_auth, in_init, in_open,
  in_write, finished, Event, ready, fail, finish_upload, after_write, start_sftp_write_blocks,
  after_open, start_sftp_open, after_init, start_create_sftp, after_auth, start_sftp_auth,
  after_handshake, start_sftp_handshake, on_connect, step, run, start_sftp_upload,
}
use async_iomanager.SftpUpload.Delivery.{upload}

abbrev decides : Rc → Bool
decides again = false
decides _ = true

abbrev write_decides : WriteRc → Bool
write_decides again = false
write_decides _ = true

-- The end of a wait after which no call answers `LIBSSH2_ERROR_EAGAIN`.
abbrev pub is_decisive : Event → Bool
is_decisive (ready failed ssh) =
    decides ssh.handshake
    && (decides ssh.auth
        && (decides ssh.init && (decides ssh.open_file && write_decides ssh.write)))

-- More than the decisive events that can still follow.
abbrev rank : Device → State → ℕ
rank d finished = 0
rank d (in_write total) = 1 + (length d.file_content - total)
rank d _ = 2 + length d.file_content

write_blocks-rank :
    (d : Device) (ssh : Ssh) (total : ℕ)
    → write_decides ssh.write ≡ true
    → rank d (start_sftp_write_blocks d ssh total).0 ≤ length d.file_content - total
unfolding start_sftp_write_blocks after_write finish_upload
write_blocks-rank d ssh total h = ground arith

open-rank :
    (d : Device) (ssh : Ssh)
    → decides ssh.open_file ≡ true
    → write_decides ssh.write ≡ true
    → rank d (start_sftp_open d ssh).0 ≤ length d.file_content
unfolding start_sftp_open after_open fail
open-rank d ssh h1 h2 = ground (arith, write_blocks-rank d ssh 0 h2)

init-rank :
    (d : Device) (ssh : Ssh)
    → decides ssh.init ≡ true
    → decides ssh.open_file ≡ true
    → write_decides ssh.write ≡ true
    → rank d (start_create_sftp d ssh).0 ≤ length d.file_content
unfolding start_create_sftp after_init fail
init-rank d ssh h h1 h2 = ground (arith, open-rank d ssh h1 h2)

auth-rank :
    (d : Device) (ssh : Ssh)
    → decides ssh.auth ≡ true
    → decides ssh.init ≡ true
    → decides ssh.open_file ≡ true
    → write_decides ssh.write ≡ true
    → rank d (start_sftp_auth d ssh).0 ≤ length d.file_content
unfolding start_sftp_auth after_auth fail
auth-rank d ssh h h1 h2 h3 = ground (arith, init-rank d ssh h1 h2 h3)

handshake-rank :
    (d : Device) (ssh : Ssh)
    → decides ssh.handshake ≡ true
    → decides ssh.auth ≡ true
    → decides ssh.init ≡ true
    → decides ssh.open_file ≡ true
    → write_decides ssh.write ≡ true
    → rank d (start_sftp_handshake d ssh).0 ≤ length d.file_content
unfolding start_sftp_handshake after_handshake fail
handshake-rank d ssh h h1 h2 h3 h4 = ground (arith, auth-rank d ssh h1 h2 h3 h4)

decisive_answers :
    (failed : Bool) (ssh : Ssh)
    → is_decisive (ready failed ssh) ≡ true
    → (decides ssh.handshake ≡ true)
      × (decides ssh.auth ≡ true)
      × (decides ssh.init ≡ true)
      × (decides ssh.open_file ≡ true)
      × (write_decides ssh.write ≡ true)
decisive_answers failed ssh h = ground arith

step-rank :
    (d : Device) (s : State) (e : Event)
    → is_decisive e ≡ true
    → s ≢ idle
    → rank d (step d s e).0 ≤ rank d s - 1
unfolding step on_connect fail finish_upload
step-rank d idle e h n = absurd (n refl)
step-rank d finished (ready failed ssh) h n = omega arith
step-rank d connecting (ready failed ssh) h n =
    let (hs, a, i, o, w) = decisive_answers failed ssh h in
    ground (arith, handshake-rank d ssh hs a i o w)
step-rank d in_handshake (ready failed ssh) h n =
    let (hs, a, i, o, w) = decisive_answers failed ssh h in
    ground (arith, handshake-rank d ssh hs a i o w)
step-rank d in_auth (ready failed ssh) h n =
    let (hs, a, i, o, w) = decisive_answers failed ssh h in ground (arith, auth-rank d ssh a i o w)
step-rank d in_init (ready failed ssh) h n =
    let (hs, a, i, o, w) = decisive_answers failed ssh h in ground (arith, init-rank d ssh i o w)
step-rank d in_open (ready failed ssh) h n =
    let (hs, a, i, o, w) = decisive_answers failed ssh h in ground (arith, open-rank d ssh o w)
step-rank d (in_write total) (ready failed ssh) h n =
    let (hs, a, i, o, w) = decisive_answers failed ssh h in
    ground (arith, write_blocks-rank d ssh total w)

step-idle : (d : Device) (s : State) (e : Event) → s ≢ idle → (step d s e).0 ≢ idle
unfolding step on_connect fail finish_upload start_sftp_handshake after_handshake start_sftp_auth
    after_auth start_create_sftp after_init start_sftp_open after_open start_sftp_write_blocks
    after_write
step-idle d s e n = ground arith

run-rank :
    (d : Device) (s : State) (es : List Event)
    → All (λ e. is_decisive e ≡ true) es
    → s ≢ idle
    → rank d (run d s es).0 ≤ rank d s - length es
unfolding run
run-rank d s [] h n = omega arith
run-rank d s (e ∷ es) (h, hs) n =
    omega (arith, step-rank d s e h n, run-rank d (step d s e).0 es hs (step-idle d s e n))

rank-finished : (d : Device) (s : State) → rank d s ≡ 0 → s ≡ finished
rank-finished d s h = ground arith

-- An upload whose calls are answered without `LIBSSH2_ERROR_EAGAIN` has ended, well or not, after
-- at most two waits more than the file has bytes.
pub upload_ends :
    (d : Device) (resolved : Bool) (es : List Event)
    → All (λ e. is_decisive e ≡ true) es
    → 2 + length d.file_content ≤ length es
    → (upload d resolved es).0 ≡ finished
unfolding start_sftp_upload
upload_ends d true es h enough =
    rank-finished d (run d connecting es).0
      (omega (arith, run-rank d connecting es h (λ e. ground arith)))
upload_ends d false es h enough =
    rank-finished d (run d finished es).0
      (omega (arith, run-rank d finished es h (λ e. ground arith)))
