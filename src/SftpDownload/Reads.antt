-- ===== src/SftpDownload/Reads.antt =====
-- What one event of a download over SFTP reads (src/SFTPCommon.cpp, `SFTPDevice::StartSFTPGetSize`,
-- `SFTPDevice::StartSFTPGetBlocks`).
use async_iomanager.Common.{
  ℕ, zero, suc, ◌+◌, ◌-◌, ◌≤◌, Bool, true, false, List, [], ◌∷◌, ◌++◌, Bytes, length, take, drop,
  ltb, leb, length-append, length-take, length-drop, take-append_left, drop_all, append_assoc,
  append-nil, Bool-cases, inl, inr, ◌≡◌, ◌≢◌, refl, sym, ap, subst, ◌∙◌, arith,
}
use async_iomanager.Io.{op, callbacks}
use async_iomanager.SftpDownload.{
  Device, StatRc, filesize, stat_again, stat_error, ReadRc, offers, read_again, read_error, Op,
  sftp_stat, sftp_read, Ssh, State, idle, connecting, in_handshake, in_auth, in_init, in_open,
  in_stat, in_read, finished, Event, ready, Actions, no_data, fail, fail_read, start_sftp_cleanup,
  after, zeros, write_at, deliver, after_read, start_sftp_get_blocks, after_stat,
  start_sftp_get_size, start_sftp_open, start_create_sftp, start_sftp_auth, start_sftp_handshake,
  on_connect, on_wait, step, full_path,
}
use async_iomanager.SftpDownload.Places.{gained, received, stated, sizes, IsPlaced}
use async_iomanager.SftpUpload.{Rc, ok, again, error}

-- What was received and what size was stated before a state.
abbrev pub got : State → Bytes
got (in_read part buffer total) = take total buffer
got _ = []

abbrev pub known : State → List ℕ
known (in_read part buffer total) = length buffer ∷ []
known _ = []

-- What was read is in the buffer.
abbrev pub IsSound : State → Type 0
IsSound (in_read part buffer total) = total ≤ length buffer
IsSound _ = Unit

-- What becomes of a download that had received `before`, with some stated sizes.
pub data Reads (d : Device) (before : Bytes) (size : List ℕ) (s : State) (acts : Actions)
    : Type 0 where
  waits :
      s ≢ finished
      → IsSound s
      → got s ≡ before ++ received acts
      → known s ≡ size ++ sizes acts
      → callbacks acts ≡ []
      → IsPlaced (length before) size acts
      → Reads d before size s acts
  gives_up :
      s ≡ finished
      → callbacks acts ≡ no_data ∷ []
      → IsPlaced (length before) size acts
      → Reads d before size s acts
  delivers :
      s ≡ finished
      → callbacks acts ≡ deliver d (before ++ received acts) ∷ []
      → size ++ sizes acts ≡ length (before ++ received acts) ∷ []
      → IsPlaced (length before) size acts
      → Reads d before size s acts

pub length-write_at :
    (offset : ℕ) (chunk buffer : Bytes)
    → offset + length chunk ≤ length buffer
    → length (write_at offset chunk buffer) ≡ length buffer
unfolding write_at
length-write_at offset chunk buffer h = omega (
  arith,
  length-append (take offset buffer) (chunk ++ drop (offset + length chunk) buffer),
  length-append chunk (drop (offset + length chunk) buffer),
  length-take offset buffer,
  length-drop (offset + length chunk) buffer,
)

length-written :
    (offset : ℕ) (chunk buffer : Bytes)
    → offset ≤ length buffer
    → length (take offset buffer ++ chunk) ≡ offset + length chunk
length-written offset chunk buffer h =
    omega (arith, length-append (take offset buffer) chunk, length-take offset buffer)

-- What a buffer has up to the end of a chunk that was written behind the rest.
take-write_at :
    (offset : ℕ) (chunk buffer : Bytes)
    → offset ≤ length buffer
    → take (offset + length chunk) (write_at offset chunk buffer) ≡ take offset buffer ++ chunk
unfolding write_at
take-write_at offset chunk buffer h =
    let rest = drop (offset + length chunk) buffer in
    ap (λ xs. take (offset + length chunk) xs) (sym (append_assoc (take offset buffer) chunk rest))
    ∙ ap (λ n. take n ((take offset buffer ++ chunk) ++ rest))
        (sym (length-written offset chunk buffer h))
    ∙ take-append_left (take offset buffer ++ chunk) rest

full-write_at :
    (offset : ℕ) (chunk buffer : Bytes)
    → length buffer ≤ offset + length chunk
    → write_at offset chunk buffer ≡ take offset buffer ++ chunk
unfolding write_at
full-write_at offset chunk buffer h =
    rw (drop_all (offset + length chunk) buffer h, append-nil) refl

module _ (d : Device) (ssh : Ssh) where
  -- The place of the read of a state.
  placed :
      {Rest : Type 0} (buffer : Bytes) (total : ℕ)
      → total ≤ length buffer
      → Rest
      → (total ≡ length (take total buffer))
        × (length buffer ∷ [] ≡ (total + (length buffer - total)) ∷ [])
        × Rest
  placed buffer total h rest =
      (omega (arith, length-take total buffer), ap (λ n. n ∷ []) (omega arith), rest)

  read-Reads :
      (buffer : Bytes) (total : ℕ) (rc : ReadRc)
      → total ≤ length buffer
      → Reads d
          (take total buffer)
          (length buffer ∷ [])
          (after_read d buffer total rc).0
          (op (sftp_read total (length buffer - total) rc) ∷ (after_read d buffer total rc).1)
  unfolding after_read fail_read start_sftp_cleanup
  read-Reads buffer total read_again h =
      waits (λ e. ground arith) h (sym (append-nil _)) refl refl (placed buffer total h tt)
  read-Reads buffer total read_error h = gives_up refl refl (placed buffer total h tt)
  read-Reads buffer total (offers bytes) h =
      let chunk = take (length buffer - total) bytes in
      let room = length-take (length buffer - total) bytes in
      elim (Bool-cases (ltb 0 (length chunk))) [
        | inr e ↦ rw e (gives_up refl refl (placed buffer total h tt))
        | inl e ↦ elim (Bool-cases (leb (length buffer) (total + length chunk))) [
          | inl full ↦
              rw (e, full)
                (delivers refl
                  (rw (append-nil chunk, full-write_at total chunk buffer (ground arith)) refl)
                  (rw (append-nil chunk, length-written total chunk buffer h)
                    (ap (λ n. n ∷ []) (ground arith)))
                  (placed buffer total h tt))
          | inr more ↦
              rw (e, more)
                (waits (λ e. ground arith)
                  (omega (arith, length-write_at total chunk buffer (omega arith)))
                  (rw (append-nil chunk) (take-write_at total chunk buffer h))
                  (ap (λ n. n ∷ []) (length-write_at total chunk buffer (omega arith))) refl
                  (placed buffer total h tt))
        ]
      ]

  blocks-Reads :
      (buffer : Bytes) (total : ℕ)
      → total ≤ length buffer
      → Reads d
          (take total buffer)
          (length buffer ∷ [])
          (start_sftp_get_blocks d ssh buffer total).0
          (start_sftp_get_blocks d ssh buffer total).1
  unfolding start_sftp_get_blocks
  blocks-Reads buffer total h = read-Reads buffer total ssh.read h

  pub length-zeros : (n : ℕ) → length (zeros n) ≡ n
  unfolding zeros
  length-zeros zero = refl
  length-zeros (suc n) = ap suc (length-zeros n)

  -- The read follows the answer of the server that has the size.
  behind_stat :
      (n : ℕ) (path : Bytes) (s : State) (acts : Actions)
      → Reads d [] (n ∷ []) s acts
      → Reads d [] [] s (op (sftp_stat path (filesize n)) ∷ acts)
  behind_stat n path s acts (waits m i g k c q) = waits m i g k c q
  behind_stat n path s acts (gives_up f c q) = gives_up f c q
  behind_stat n path s acts (delivers f c k q) = delivers f c k q

  -- An action in front that is no read and states no size changes nothing.
  behind :
      (o : Op) (before : Bytes) (size : List ℕ) (s : State) (acts : Actions)
      → gained (op o) ≡ []
      → stated (op o) ≡ []
      → (IsPlaced (length before) size acts → IsPlaced (length before) size (op o ∷ acts))
      → Reads d before size s acts
      → Reads d before size s (op o ∷ acts)
  behind o before size s acts g t p (waits m i h k c q) = waits m i (rw g h) (rw t k) c (p q)
  behind o before size s acts g t p (gives_up f c q) = gives_up f c (p q)
  behind o before size s acts g t p (delivers f c k q) = delivers f (rw g c) (rw (g, t) k) (p q)

  abbrev Fresh : State × Actions → Type 0
  Fresh r = Reads d [] [] r.0 r.1

  fail-Fresh : (text : Bytes) → Fresh (fail text)
  unfolding fail
  fail-Fresh text = gives_up refl refl tt

  -- A state before the first read.
  abbrev IsEarly : State → Type 0
  IsEarly s = (s ≢ finished) × IsSound s × (got s ≡ []) × (known s ≡ [])

  after-Fresh :
      (rc : Rc) (s : State) (bad good : Bytes) (next : State × Actions)
      → IsEarly s
      → Fresh next
      → Fresh (after rc s bad good next)
  unfolding after
  after-Fresh again s bad good next w n = waits w.0 w.1 w.2 w.3 refl tt
  after-Fresh error s bad good next w n = fail-Fresh bad
  after-Fresh ok s bad good next w n = behind _ [] [] next.0 next.1 refl refl (λ q. q) n

  first-Reads :
      (n : ℕ)
      → Reads d []
          (n ∷ [])
          (start_sftp_get_blocks d ssh (zeros n) 0).0
          (start_sftp_get_blocks d ssh (zeros n) 0).1
  first-Reads n =
      let (s, acts) = start_sftp_get_blocks d ssh (zeros n) 0 in
      subst (λ m. Reads d [] (m ∷ []) s acts) (length-zeros n)
        (blocks-Reads (zeros n) 0 (omega arith))

  stat-Fresh :
      (rc : StatRc)
      → Fresh ((after_stat d ssh rc).0, op (sftp_stat (full_path d) rc) ∷ (after_stat d ssh rc).1)
  unfolding after_stat fail
  stat-Fresh stat_again = waits (λ e. ground arith) tt refl refl refl tt
  stat-Fresh stat_error = gives_up refl refl tt
  stat-Fresh (filesize n) =
      behind_stat n (full_path d) _ _ (behind _ [] (n ∷ []) _ _ refl refl (λ q. q) (first-Reads n))

  size-Fresh : Fresh (start_sftp_get_size d ssh)
  unfolding start_sftp_get_size
  size-Fresh = stat-Fresh ssh.stat

  open-Fresh : Fresh (start_sftp_open d ssh)
  unfolding start_sftp_open
  open-Fresh =
      behind _ [] [] _ _ refl refl (λ q. q)
        (after-Fresh ssh.open_file in_open _ _ _ (λ e. ground arith, tt, refl, refl) size-Fresh)

  create-Fresh : Fresh (start_create_sftp d ssh)
  unfolding start_create_sftp
  create-Fresh =
      behind _ [] [] _ _ refl refl (λ q. q)
        (after-Fresh ssh.init in_init _ _ _ (λ e. ground arith, tt, refl, refl) open-Fresh)

  auth-Fresh : Fresh (start_sftp_auth d ssh)
  unfolding start_sftp_auth
  auth-Fresh =
      behind _ [] [] _ _ refl refl (λ q. q)
        (after-Fresh ssh.auth in_auth _ _ _ (λ e. ground arith, tt, refl, refl) create-Fresh)

  handshake-Fresh : Fresh (start_sftp_handshake d ssh)
  unfolding start_sftp_handshake
  handshake-Fresh =
      behind _ [] [] _ _ refl refl (λ q. q)
        (after-Fresh ssh.handshake in_handshake _ _ _ (λ e. ground arith, tt, refl, refl)
          auth-Fresh)

  connect-Fresh : (failed : Bool) → Fresh (on_connect d ssh failed)
  unfolding on_connect
  connect-Fresh true = fail-Fresh _
  connect-Fresh false =
      behind _ [] [] _ _ refl refl (λ q. q) (behind _ [] [] _ _ refl refl (λ q. q) handshake-Fresh)

  wait-Fresh :
      (failed : Bool) (text : Bytes) (next : State × Actions)
      → Fresh next
      → Fresh (on_wait failed (fail text) next)
  unfolding on_wait
  wait-Fresh true text next n = fail-Fresh text
  wait-Fresh false text next n = n

  wait-Reads :
      (failed : Bool) (text buffer : Bytes) (total : ℕ)
      → total ≤ length buffer
      → Reads d
          (take total buffer)
          (length buffer ∷ [])
          (on_wait failed (fail_read text) (start_sftp_get_blocks d ssh buffer total)).0
          (on_wait failed (fail_read text) (start_sftp_get_blocks d ssh buffer total)).1
  unfolding on_wait fail_read start_sftp_cleanup
  wait-Reads true text buffer total h = gives_up refl refl tt
  wait-Reads false text buffer total h = blocks-Reads buffer total h

pub step-Reads :
    (d : Device) (s : State) (e : Event)
    → s ≢ finished
    → IsSound s
    → Reads d (got s) (known s) (step d s e).0 (step d s e).1
unfolding step
step-Reads d idle (ready failed ssh) n i = waits n tt refl refl refl tt
step-Reads d finished (ready failed ssh) n i = absurd (n refl)
step-Reads d connecting (ready failed ssh) n i = connect-Fresh d ssh failed
step-Reads d in_handshake (ready failed ssh) n i =
    wait-Fresh d ssh failed _ _ (handshake-Fresh d ssh)
step-Reads d in_auth (ready failed ssh) n i = wait-Fresh d ssh failed _ _ (auth-Fresh d ssh)
step-Reads d in_init (ready failed ssh) n i = wait-Fresh d ssh failed _ _ (create-Fresh d ssh)
step-Reads d in_open (ready failed ssh) n i = wait-Fresh d ssh failed _ _ (open-Fresh d ssh)
step-Reads d in_stat (ready failed ssh) n i = wait-Fresh d ssh failed _ _ (size-Fresh d ssh)
step-Reads d (in_read part buffer total) (ready failed ssh) n i =
    wait-Reads d ssh failed _ buffer total i
