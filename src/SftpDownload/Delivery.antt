-- ===== src/SftpDownload/Delivery.antt =====
-- How often an SFTP download completes, and what is left of its session (src/SFTPCommon.cpp).
use async_iomanager.Common.{
  true, false, inl, inr, codes, ℕ, ◌+◌, Bool, List, [], ◌∷◌, ◌++◌, Bytes, ◌≡◌, arith, ◌⊎◌, refl,
}
use async_iomanager.Io.{made, made-append}
use async_iomanager.SftpUpload.{Rc}
use async_iomanager.SftpDownload.{
  Device, Ssh, State, idle, connecting, in_handshake, in_auth, in_init, in_open, in_stat, in_read,
  finished, Event, ready, Actions, fail, fail_read, start_sftp_cleanup, after, after_read,
  start_sftp_get_blocks, after_stat, start_sftp_get_size, start_sftp_open, start_create_sftp,
  start_sftp_auth, start_sftp_handshake, on_connect, on_wait, step, StatRc, filesize, stat_again,
  stat_error, zeros, run, start_sftp_download, load_async,
}

-- The callbacks that a device has made when it is in a state: one when it is finished.
abbrev pub due : State → ℕ
due finished = 1
due _ = 0

-- A part of a run keeps the count.
abbrev pub IsCounted : State × Actions → Type 0
IsCounted r = made r.1 ≡ due r.0

fail-IsCounted : (text : Bytes) → IsCounted (fail text)
unfolding fail
fail-IsCounted text = omega arith

fail_read-IsCounted : (text : Bytes) → IsCounted (fail_read text)
unfolding fail_read start_sftp_cleanup
fail_read-IsCounted text = omega arith

after-IsCounted :
    (rc : Rc) (s : State) (bad good : Bytes) (next : State × Actions)
    → due s ≡ 0
    → IsCounted next
    → IsCounted (after rc s bad good next)
unfolding after
after-IsCounted rc s bad good next waits n = ground (arith, fail-IsCounted bad)

on_wait-IsCounted :
    (failed : Bool) (f next : State × Actions)
    → IsCounted f
    → IsCounted next
    → IsCounted (on_wait failed f next)
unfolding on_wait
on_wait-IsCounted failed f next a b = ground arith

module _ (d : Device) (ssh : Ssh) where
  blocks-IsCounted :
      (buffer : Bytes) (total : ℕ) → IsCounted (start_sftp_get_blocks d ssh buffer total)
  unfolding start_sftp_get_blocks after_read
  blocks-IsCounted buffer total = ground (arith, fail_read-IsCounted (codes "SFTP Read Failed."))

  stat-IsCounted : (rc : StatRc) → IsCounted (after_stat d ssh rc)
  unfolding after_stat
  stat-IsCounted stat_again = refl
  stat-IsCounted stat_error = fail-IsCounted _
  stat-IsCounted (filesize n) = blocks-IsCounted (zeros n) 0

  size-IsCounted : IsCounted (start_sftp_get_size d ssh)
  unfolding start_sftp_get_size
  size-IsCounted = stat-IsCounted ssh.stat

  open-IsCounted : IsCounted (start_sftp_open d ssh)
  unfolding start_sftp_open
  open-IsCounted = after-IsCounted ssh.open_file in_open _ _ _ refl size-IsCounted

  create-IsCounted : IsCounted (start_create_sftp d ssh)
  unfolding start_create_sftp
  create-IsCounted = after-IsCounted ssh.init in_init _ _ _ refl open-IsCounted

  auth-IsCounted : IsCounted (start_sftp_auth d ssh)
  unfolding start_sftp_auth
  auth-IsCounted = after-IsCounted ssh.auth in_auth _ _ _ refl create-IsCounted

  handshake-IsCounted : IsCounted (start_sftp_handshake d ssh)
  unfolding start_sftp_handshake
  handshake-IsCounted = after-IsCounted ssh.handshake in_handshake _ _ _ refl auth-IsCounted

  connect-IsCounted : (failed : Bool) → IsCounted (on_connect d ssh failed)
  unfolding on_connect
  connect-IsCounted true = fail-IsCounted _
  connect-IsCounted false = handshake-IsCounted

step-IsCounted : (d : Device) (s : State) (e : Event) → due s ≡ 0 → IsCounted (step d s e)
unfolding step
step-IsCounted d idle (ready failed ssh) h = refl
step-IsCounted d finished e h = absurd (omega arith)
step-IsCounted d connecting (ready failed ssh) h = connect-IsCounted d ssh failed
step-IsCounted d in_handshake (ready failed ssh) h =
    on_wait-IsCounted failed _ _ (fail-IsCounted _) (handshake-IsCounted d ssh)
step-IsCounted d in_auth (ready failed ssh) h =
    on_wait-IsCounted failed _ _ (fail-IsCounted _) (auth-IsCounted d ssh)
step-IsCounted d in_init (ready failed ssh) h =
    on_wait-IsCounted failed _ _ (fail-IsCounted _) (create-IsCounted d ssh)
step-IsCounted d in_open (ready failed ssh) h =
    on_wait-IsCounted failed _ _ (fail-IsCounted _) (open-IsCounted d ssh)
step-IsCounted d in_stat (ready failed ssh) h =
    on_wait-IsCounted failed _ _ (fail-IsCounted _) (size-IsCounted d ssh)
step-IsCounted d (in_read part buffer total) (ready failed ssh) h =
    on_wait-IsCounted failed _ _ (fail_read-IsCounted _) (blocks-IsCounted d ssh buffer total)

over : (s : State) → (s ≡ finished) ⊎ (due s ≡ 0)
over s = ground arith

pub step-due :
    (d : Device) (s : State) (e : Event) → made (step d s e).1 + due s ≡ due (step d s e).0
unfolding step
step-due d s e = elim (over s) [
  | inl f ↦ rw f (ground arith)
  | inr h ↦ omega (arith, step-IsCounted d s e h)
]

run-due :
    (d : Device) (s : State) (es : List Event) → made (run d s es).1 + due s ≡ due (run d s es).0
unfolding run
run-due d s [] = omega arith
run-due d s (e ∷ es) = omega (
  arith,
  step-due d s e,
  run-due d (step d s e).0 es,
  made-append (step d s e).1 (run d (step d s e).0 es).1,
)

-- A download from its start, by a device that is not in use.
abbrev pub download : Device → Bool → List Event → State × Actions
download d resolved es =
    let (s, acts) = start_sftp_download idle resolved in
    let (s', bs) = run d s es in (s', acts ++ bs)

pub load_async-due :
    (file : Bytes) (parse save resolved : Bool)
    → let (s, acts) = (load_async file parse save resolved).1 in made acts ≡ due s
unfolding load_async start_sftp_download
load_async-due file parse save resolved = ground arith
