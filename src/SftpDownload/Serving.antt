-- ===== src/SftpDownload/Serving.antt =====
-- What a download over SFTP delivers from a server that has the file (src/SFTPCommon.cpp).
use native.Mathlib.Nat.{add-zero}
use async_iomanager.Common.{
  ℕ, ◌+◌, Bool, List, [], ◌∷◌, ◌++◌, Bytes, length, take, drop, length-append, take-append-drop,
  drop-drop, drop-append_left, append_assoc, append-nil, All, inl, inr, ◌⊎◌, ◌≡◌, ◌≢◌, refl, sym,
  ap, subst, ◌∙◌, arith,
}
use async_iomanager.Io.{Action, Completion, op, callbacks}
use async_iomanager.SftpDownload.{
  Device, filesize, ReadRc, offers, read_again, read_error, Op, sftp_stat, sftp_read, finished,
  Event, Actions, no_data, deliver,
}
use async_iomanager.SftpDownload.Places.{
  gained, received, sizes, IsPlaced, reads, states, plain, view,
}
use async_iomanager.SftpDownload.Delivery.{download}
use async_iomanager.SftpDownload.Content.{delivered_exact, download-IsPlaced}

-- An answer to a read, which is about some next bytes of the file, or fails, or asks to wait.
abbrev IsPart : Bytes → ℕ → ReadRc → Type 0
IsPart file offset (offers bytes) = (rest : Bytes) × (bytes ++ rest ≡ drop offset file)
IsPart file offset _ = Unit

-- An answer of a server that has the file: the size that it states is right, and a read gets bytes
-- that stand in the file from the offset on, as few as it likes.
abbrev pub IsServed : Bytes → Action Op Completion → Type 0
IsServed file (op (sftp_read offset room rc)) = IsPart file offset rc
IsServed file (op (sftp_stat path (filesize n))) = n ≡ length file
IsServed file _ = Unit

part :
    (file : Bytes) (offset room : ℕ) (rc : ReadRc)
    → IsPart file offset rc
    → let chunk = gained (op (sftp_read offset room rc)) in
      chunk ++ drop (offset + length chunk) file ≡ drop offset file
part file offset room read_again h = rw add-zero refl
part file offset room read_error h = rw add-zero refl
part file offset room (offers bytes) (rest, h) =
    let chunk = take room bytes in
    let whole =
      sym (append_assoc chunk (drop room bytes) rest)
      ∙ ap (λ x. x ++ rest) (take-append-drop room bytes)
      ∙ h in
    ap (λ x. chunk ++ x)
      (sym (drop-drop offset (length chunk) file)
        ∙ ap (drop (length chunk)) (sym whole)
        ∙ drop-append_left chunk (drop room bytes ++ rest))
    ∙ whole

received_prefix :
    (file : Bytes) (acts : Actions) (n : ℕ) (size : List ℕ)
    → IsPlaced n size acts
    → All (IsServed file) acts
    → (rest : Bytes) × (received acts ++ rest ≡ drop n file)
received_prefix file [] n size p w = (drop n file, refl)
received_prefix file (a ∷ acts) n size p (h, w) = elim (view a) [
  | plain g t e ↦ rw g (received_prefix file acts n size (rw (e n size acts) at p) w)
  | reads offset room rc e ↦
      let (o, r, p') = rw e at p in
      let chunk = gained (op (sftp_read offset room rc)) in
      let (rest, i) = received_prefix file acts (n + length chunk) size p' w in
      rw e (
        rest,
        append_assoc chunk (received acts) rest
            ∙ ap (λ x. chunk ++ x) i
            ∙ subst (λ m. chunk ++ drop (m + length chunk) file ≡ drop m file) o
                (part file offset room rc (rw e at h)),
      )
  | states path k e ↦ rw e (received_prefix file acts n (size ++ k ∷ []) (rw e at p) w)
]

sizes_right :
    (file : Bytes) (acts : Actions)
    → All (IsServed file) acts
    → All (λ k. k ≡ length file) (sizes acts)
sizes_right file [] w = tt
sizes_right file (a ∷ acts) (h, w) = elim (view a) [
  | plain g t e ↦ rw t (sizes_right file acts w)
  | reads offset room rc e ↦ rw e (sizes_right file acts w)
  | states path k e ↦ rw e (rw e at h, sizes_right file acts w)
]

nothing_left : (rest : Bytes) → length rest ≡ 0 → rest ≡ []
nothing_left [] h = refl
nothing_left (x ∷ rest) h = absurd (omega arith)

-- From a server that has the file, a download that has made its callback with data has delivered
-- the file, byte for byte, however the server cuts it into parts; if it did not, it made none, or
-- one with a null pointer.
pub served_exact :
    (file : Bytes) (d : Device) (resolved : Bool) (es : List Event)
    → All (IsServed file) (download d resolved es).1
    → (((download d resolved es).0 ≢ finished) × (callbacks (download d resolved es).1 ≡ []))
      ⊎ (callbacks (download d resolved es).1 ≡ no_data ∷ [])
      ⊎ (callbacks (download d resolved es).1 ≡ deliver d file ∷ [])
served_exact file d resolved es w =
    let acts = (download d resolved es).1 in
    elim (delivered_exact d resolved es) [
      | inl pending ↦ inl pending
      | inr (inl empty) ↦ inr (inl empty)
      | inr (inr (c, k)) ↦
          let (rest, h) = received_prefix file acts 0 [] (download-IsPlaced d resolved es) w in
          let right = subst (All (λ n. n ≡ length file)) k (sizes_right file acts w) in
          let left =
            nothing_left rest
              (omega (arith, right.0, length-append (received acts) rest, ap length h)) in
          inr (
            inr (
              c
              ∙ ap (λ b. deliver d b ∷ [])
                  (sym (append-nil (received acts)) ∙ ap (λ x. received acts ++ x) (sym left) ∙ h)))
    ]
