-- ===== src/SftpDownload/Ends.antt =====
-- When a download over SFTP ends with the data (src/SFTPCommon.cpp).
use async_iomanager.Common.{
  ℕ, ◌+◌, ◌-◌, ◌≤◌, ◌<◌, Bool, true, false, List, [], ◌∷◌, Bytes, length, take, ltb, leb,
  length-take, Bool-cases, All, inl, inr, ◌≡◌, ◌≢◌, refl, sym, ◌∙◌, arith,
}
use async_iomanager.Io.{callbacks, callbacks-append}
use async_iomanager.SftpUpload.{ok}
use async_iomanager.SftpDownload.{
  Device, filesize, offers, Ssh, State, connecting, in_read, finished, Event, ready, Actions,
  no_data, after, zeros, write_at, deliver, after_read, start_sftp_get_blocks, after_stat,
  start_sftp_get_size, start_sftp_open, start_create_sftp, start_sftp_auth, start_sftp_handshake,
  on_connect, on_wait, step, run, start_sftp_download,
}
use async_iomanager.SftpDownload.Delivery.{download}
use async_iomanager.SftpDownload.Content.{run_over}
use async_iomanager.SftpDownload.Reads.{length-write_at, length-zeros}
use async_iomanager.SftpDownload.Serving.{IsServed, served_exact}

-- The answers between two waits of a server that fails nothing, asks for no further wait, has a file
-- of `n` bytes and offers some bytes at each read.
abbrev pub IsPrompt : ℕ → Event → Type 0
IsPrompt n (ready failed ssh) =
    (failed ≡ false)
    × (ssh.handshake ≡ ok)
    × (ssh.auth ≡ ok)
    × (ssh.init ≡ ok)
    × (ssh.open_file ≡ ok)
    × (ssh.stat ≡ filesize n)
    × ((x : ℕ) × (xs : Bytes) × (ssh.read ≡ offers (x ∷ xs)))

abbrev HasData : Device → State × Actions → Type 0
HasData d r = (content : Bytes) × (callbacks r.1 ≡ deliver d content ∷ [])

-- What a read that gets some bytes leads to.
data Advance (d : Device) (total size : ℕ) (r : State × Actions) : Type 0 where
  ended :
      (content : Bytes)
      → r.0 ≡ finished
      → callbacks r.1 ≡ deliver d content ∷ []
      → Advance d total size r
  goes_on :
      (buffer : Bytes) (next : ℕ)
      → r.0 ≡ in_read true buffer next
      → callbacks r.1 ≡ []
      → length buffer ≡ size
      → total < next
      → next < size
      → Advance d total size r

read_progress :
    (d : Device) (buffer : Bytes) (total x : ℕ) (xs : Bytes)
    → total < length buffer
    → Advance d total (length buffer) (after_read d buffer total (offers (x ∷ xs)))
unfolding after_read
read_progress d buffer total x xs room =
    let chunk = take (length buffer - total) (x ∷ xs) in
    let some_bytes : 0 < length chunk =
      omega (arith, length-take (length buffer - total) (x ∷ xs)) in
    let positive : ltb 0 (length chunk) ≡ true = ground arith in
    elim (Bool-cases (leb (length buffer) (total + length chunk))) [
      | inl full ↦ rw (positive, full) (ended (write_at total chunk buffer) refl refl)
      | inr short ↦
          rw (positive, short)
            (goes_on (write_at total chunk buffer) (total + length chunk) refl refl
              (length-write_at total chunk buffer (ground arith)) (omega arith) (ground arith))
    ]

progress :
    (d : Device) (ssh : Ssh) (buffer : Bytes) (total : ℕ)
    → ((x : ℕ) × (xs : Bytes) × (ssh.read ≡ offers (x ∷ xs)))
    → total < length buffer
    → Advance d total (length buffer) (start_sftp_get_blocks d ssh buffer total)
unfolding start_sftp_get_blocks
progress d ssh buffer total (x, xs, e) room = rw e (elim (read_progress d buffer total x xs room) [
  | ended content f c ↦ ended content f c
  | goes_on next more f c l a b ↦ goes_on next more f c l a b
])

from_read :
    (d : Device) (n : ℕ) (es : List Event) (part : Bool) (buffer : Bytes) (total : ℕ)
    → total < length buffer
    → length buffer ≤ total + length es
    → All (IsPrompt n) es
    → HasData d (run d (in_read part buffer total) es)
unfolding run step on_wait
from_read d n [] part buffer total room enough w = absurd (omega arith)
from_read d n (ready failed ssh ∷ es) part buffer total room enough (h, w) =
    rw h.0 (elim (progress d ssh buffer total h.6 room) [
      | ended content f c ↦ (
        content,
        rw (callbacks-append (start_sftp_get_blocks d ssh buffer total).1 _, c, f, run_over d es)
            refl,
      )
      | goes_on filled next f c l a b ↦
          let (content, g) = from_read d n es true filled next (omega arith) (omega arith) w in
          (content, rw (callbacks-append (start_sftp_get_blocks d ssh buffer total).1 _, c, f) g)
    ])

-- The first event runs on to the first read.
opening :
    (d : Device) (n : ℕ) (ssh : Ssh)
    → IsPrompt n (ready false ssh)
    → ((on_connect d ssh false).0 ≡ (start_sftp_get_blocks d ssh (zeros n) 0).0)
      × (callbacks (on_connect d ssh false).1
          ≡ callbacks (start_sftp_get_blocks d ssh (zeros n) 0).1)
unfolding on_connect start_sftp_handshake start_sftp_auth start_create_sftp start_sftp_open
    start_sftp_get_size after_stat after
opening d n ssh (failed, handshake, auth, init, open_file, stat, read) =
    rw (handshake, auth, init, open_file, stat) (refl, refl)

from_start :
    (d : Device) (n : ℕ) (es : List Event)
    → 0 < n
    → n ≤ length es
    → All (IsPrompt n) es
    → HasData d (run d connecting es)
unfolding run step
from_start d n [] some_bytes enough w = absurd (omega arith)
from_start d n (ready failed ssh ∷ es) some_bytes enough (h, w) =
    let size = length-zeros d ssh n in
    let (f, c) = opening d n ssh (refl, h.1, h.2, h.3, h.4, h.5, h.6) in
    rw (h.0, callbacks-append (on_connect d ssh false).1 _, f, c)
      (elim (progress d ssh (zeros n) 0 h.6 (omega arith)) [
        | ended content f c ↦ (content, rw (c, f, run_over d es) refl)
        | goes_on filled next f c l a b ↦
            rw (c, f) (from_read d n es true filled next (omega arith) (omega arith) w)
      ])

data_differs : (d : Device) (content : Bytes) → deliver d content ∷ [] ≢ no_data ∷ []
unfolding deliver
data_differs d content e = ground arith

-- A download of a file that is not empty, to a host that resolves, from a server that has the file,
-- answers each call at once and gets some bytes across at each read, has after as many waits as the
-- file has bytes made its one callback, with the file.
pub download_ends :
    (file : Bytes) (d : Device) (es : List Event)
    → 0 < length file
    → length file ≤ length es
    → All (IsPrompt (length file)) es
    → All (IsServed file) (download d true es).1
    → callbacks (download d true es).1 ≡ deliver d file ∷ []
unfolding start_sftp_download
download_ends file d es some_bytes enough prompt served =
    let (content, c) = from_start d (length file) es some_bytes enough prompt in
    elim (served_exact file d true es served) [
      | inl (m, pending) ↦ absurd (ground arith)
      | inr (inl empty) ↦ absurd (data_differs d content (sym c ∙ empty))
      | inr (inr h) ↦ h
    ]
