-- ===== src/SftpUpload/Writes.antt =====
-- What one event of an upload writes (src/SFTPSaver.cpp, `SFTPUploadDevice`).
use async_iomanager.Common.{
  sym, ◌∙◌, append-nil, zero, suc, ◌==◌, ℕ, ◌+◌, ◌-◌, Bool, true, false, not, ◌&&◌, [], ◌∷◌, ◌++◌,
  Bytes, length, take, drop, ltb, leb, ◌≡◌, ◌≢◌, refl, arith, Bool-cases, inl, inr, drop-drop,
  drop_all, take-append-drop,
}
use async_iomanager.Io.{Action, op}
use async_iomanager.SftpUpload.{
  Device, Rc, ok, again, error, WriteRc, wrote, Op, sftp_write, Ssh, State, idle, connecting,
  in_handshake, in_auth, in_init, in_open, in_write, finished, Event, ready, Actions,
  do_write_callback, fail, start_sftp_cleanup, finish_upload, after_write, start_sftp_write_blocks,
  after_open, start_sftp_open, after_init, start_create_sftp, after_auth, start_sftp_auth,
  after_handshake, start_sftp_handshake, on_connect, step,
}

abbrev pub taken : Action Op (Unit {0}) → Bytes
taken (op (sftp_write offered (wrote n))) = take n offered
taken a = []

-- The bytes that the server took, in the order in which it took them.
abbrev pub stored : Actions → Bytes
stored [] = []
stored (a ∷ acts) = taken a ++ stored acts

-- How many bytes were written before a state.
abbrev pub offset : State → ℕ
offset (in_write total) = total
offset _ = 0

-- The answers with which no call fails; the server takes some bytes or asks to wait.
abbrev well : Rc → Bool
well error = false
well _ = true

abbrev write_well : WriteRc → Bool
write_well error = false
write_well again = true
write_well (wrote n) = ltb 0 n

abbrev pub is_well : Event → Bool
is_well (ready failed ssh) =
    not failed
    && (well ssh.handshake
        && (well ssh.auth && (well ssh.init && (well ssh.open_file && write_well ssh.write))))

-- What some actions store of the bytes that are left from an offset on, and what they leave for
-- the next state; if `w` holds, an upload that ends leaves nothing.
pub data Writes (d : Device) (o : ℕ) (w : Bool) (r : State × Actions) : Type 0 where
  ends :
      (rest : Bytes)
      → r.0 ≡ finished
      → stored r.1 ++ rest ≡ drop o d.file_content
      → (w ≡ true → rest ≡ [])
      → Writes d o w r
  waits :
      r.0 ≢ finished
      → stored r.1 ++ drop (offset r.0) d.file_content ≡ drop o d.file_content
      → Writes d o w r

stored-cleanup : (d : Device) → stored (finish_upload d).1 ≡ []
unfolding finish_upload start_sftp_cleanup do_write_callback
stored-cleanup d = ground arith

-- An upload that ends without storing anything.
nothing :
    (d : Device) (o : ℕ) (w : Bool) (r : State × Actions)
    → r.0 ≡ finished
    → stored r.1 ≡ []
    → (w ≡ true → drop o d.file_content ≡ [])
    → Writes d o w r
nothing d o w r f e h = ends (drop o d.file_content) f (rw e) h

finish_upload-finished : (d : Device) → (finish_upload d).0 ≡ finished
unfolding finish_upload
finish_upload-finished d = refl

ltb-suc : (n : ℕ) → ltb 0 (suc n) ≡ true
ltb-suc n = ground arith

after_write-Writes :
    (d : Device) (o : ℕ) (r : WriteRc)
    → let (s, acts) = after_write d o r in
      Writes d o (write_well r) (s, op (sftp_write (drop o d.file_content) r) ∷ acts)
unfolding after_write
after_write-Writes d o again = waits (λ e. ground arith) refl
after_write-Writes d o error =
    nothing d o false _ (finish_upload-finished d) (stored-cleanup d) (λ e. absurd (ground arith))
after_write-Writes d o (wrote zero) =
    nothing d o false _ (finish_upload-finished d) (stored-cleanup d) (λ e. absurd (ground arith))
after_write-Writes d o (wrote (suc n)) =
    elim (Bool-cases (leb (length d.file_content) (o + suc n))) [
      | inl e ↦
          rw (ltb-suc n, e)
            (ends (drop (suc n) (drop o d.file_content)) (finish_upload-finished d)
              (rw (stored-cleanup d, append-nil) (take-append-drop (suc n) (drop o d.file_content)))
              (λ w.
                drop-drop o (suc n) d.file_content
                ∙ drop_all (o + suc n) d.file_content (ground arith)))
      | inr e ↦
          rw (ltb-suc n, e)
            (waits (λ e. ground arith)
              (rw (append-nil, sym (drop-drop o (suc n) d.file_content))
                (take-append-drop (suc n) (drop o d.file_content))))
    ]

write_blocks-Writes :
    (d : Device) (ssh : Ssh) (o : ℕ)
    → Writes d o (write_well ssh.write) (start_sftp_write_blocks d ssh o)
unfolding start_sftp_write_blocks
write_blocks-Writes d ssh o = elim (Bool-cases (length d.file_content - o == 0)) [
  | inl e ↦ rw e (
      nothing d o (write_well ssh.write) _ (finish_upload-finished d) (stored-cleanup d)
        (λ w. drop_all o d.file_content (ground arith)))
  | inr e ↦ rw e (after_write-Writes d o ssh.write)
]

-- More actions in front or behind that store nothing.
relay :
    (d : Device) (o : ℕ) (w : Bool) (r : State × Actions) (acts : Actions)
    → stored acts ≡ stored r.1
    → Writes d o w r
    → Writes d o w (r.0, acts)
relay d o w r acts e (ends rest f h k) = ends rest f (rw e h) k
relay d o w r acts e (waits n h) = waits n (rw e h)

fail-Writes : (d : Device) (w : Bool) → (w ≡ true → false ≡ true) → Writes d 0 w (fail d)
unfolding fail do_write_callback
fail-Writes d w h = nothing d 0 w _ refl (ground arith) (λ e. absurd (ground (arith, h e)))

after_open-Writes :
    (d : Device) (ssh : Ssh) (w : Bool) (r : Rc)
    → (w ≡ true → well r ≡ true)
    → Writes d 0 w (start_sftp_write_blocks d ssh 0)
    → Writes d 0 w (after_open d ssh r)
unfolding after_open
after_open-Writes d ssh w again h k = waits (λ e. ground arith) refl
after_open-Writes d ssh w error h k = fail-Writes d w h
after_open-Writes d ssh w ok h k = relay d 0 w (start_sftp_write_blocks d ssh 0) _ (ground arith) k

after_init-Writes :
    (d : Device) (ssh : Ssh) (w : Bool) (r : Rc)
    → (w ≡ true → well r ≡ true)
    → Writes d 0 w (start_sftp_open d ssh)
    → Writes d 0 w (after_init d ssh r)
unfolding after_init
after_init-Writes d ssh w again h k = waits (λ e. ground arith) refl
after_init-Writes d ssh w error h k = fail-Writes d w h
after_init-Writes d ssh w ok h k = k

after_auth-Writes :
    (d : Device) (ssh : Ssh) (w : Bool) (r : Rc)
    → (w ≡ true → well r ≡ true)
    → Writes d 0 w (start_create_sftp d ssh)
    → Writes d 0 w (after_auth d ssh r)
unfolding after_auth
after_auth-Writes d ssh w again h k = waits (λ e. ground arith) refl
after_auth-Writes d ssh w error h k = fail-Writes d w h
after_auth-Writes d ssh w ok h k = k

after_handshake-Writes :
    (d : Device) (ssh : Ssh) (w : Bool) (r : Rc)
    → (w ≡ true → well r ≡ true)
    → Writes d 0 w (start_sftp_auth d ssh)
    → Writes d 0 w (after_handshake d ssh r)
unfolding after_handshake
after_handshake-Writes d ssh w again h k = waits (λ e. ground arith) refl
after_handshake-Writes d ssh w error h k = fail-Writes d w h
after_handshake-Writes d ssh w ok h k = k

-- What the answers of one event say of each call, for the events that are well.
module _ (d : Device) (failed : Bool) (ssh : Ssh) where
  abbrev w : Bool
  w = is_well (ready failed ssh)

  all_well :
      w ≡ true
      → (failed ≡ false)
        × (well ssh.handshake ≡ true)
        × (well ssh.auth ≡ true)
        × (well ssh.init ≡ true)
        × (well ssh.open_file ≡ true)
        × (write_well ssh.write ≡ true)
  all_well h = ground arith

  weaken :
      (o : ℕ) (v : Bool) (r : State × Actions)
      → (w ≡ true → v ≡ true)
      → Writes d o v r
      → Writes d o w r
  weaken o v r f (ends rest e h k) = ends rest e h (λ g. k (f g))
  weaken o v r f (waits n h) = waits n h

  blocks : (o : ℕ) → Writes d o w (start_sftp_write_blocks d ssh o)
  blocks o = weaken o (write_well ssh.write) _ (λ h. (all_well h).5) (write_blocks-Writes d ssh o)

  opens : Writes d 0 w (start_sftp_open d ssh)
  unfolding start_sftp_open
  opens =
      relay d 0 w (after_open d ssh ssh.open_file) _ refl
        (after_open-Writes d ssh w ssh.open_file (λ h. (all_well h).4) (blocks 0))

  creates : Writes d 0 w (start_create_sftp d ssh)
  unfolding start_create_sftp
  creates =
      relay d 0 w (after_init d ssh ssh.init) _ refl
        (after_init-Writes d ssh w ssh.init (λ h. (all_well h).3) opens)

  auths : Writes d 0 w (start_sftp_auth d ssh)
  unfolding start_sftp_auth
  auths =
      relay d 0 w (after_auth d ssh ssh.auth) _ refl
        (after_auth-Writes d ssh w ssh.auth (λ h. (all_well h).2) creates)

  shakes : Writes d 0 w (start_sftp_handshake d ssh)
  unfolding start_sftp_handshake
  shakes =
      relay d 0 w (after_handshake d ssh ssh.handshake) _ refl
        (after_handshake-Writes d ssh w ssh.handshake (λ h. (all_well h).1) auths)

pub step-Writes :
    (d : Device) (s : State) (e : Event)
    → s ≢ finished
    → Writes d (offset s) (is_well e) (step d s e)
unfolding step on_connect
step-Writes d idle (ready failed ssh) n = waits (λ e. ground arith) refl
step-Writes d finished (ready failed ssh) n = absurd (n refl)
step-Writes d connecting (ready true ssh) n = fail-Writes d _ (λ h. sym ((all_well d true ssh h).0))
step-Writes d connecting (ready false ssh) n =
    relay d 0 _ (start_sftp_handshake d ssh) _ refl (shakes d false ssh)
step-Writes d in_handshake (ready true ssh) n =
    fail-Writes d _ (λ h. sym ((all_well d true ssh h).0))
step-Writes d in_handshake (ready false ssh) n = shakes d false ssh
step-Writes d in_auth (ready true ssh) n = fail-Writes d _ (λ h. sym ((all_well d true ssh h).0))
step-Writes d in_auth (ready false ssh) n = auths d false ssh
step-Writes d in_init (ready true ssh) n = fail-Writes d _ (λ h. sym ((all_well d true ssh h).0))
step-Writes d in_init (ready false ssh) n = creates d false ssh
step-Writes d in_open (ready true ssh) n = fail-Writes d _ (λ h. sym ((all_well d true ssh h).0))
step-Writes d in_open (ready false ssh) n = opens d false ssh
step-Writes d (in_write o) (ready true ssh) n =
    nothing d o _ _ (finish_upload-finished d) (stored-cleanup d)
      (λ h. absurd (ground (arith, all_well d true ssh h)))
step-Writes d (in_write o) (ready false ssh) n = blocks d false ssh o
