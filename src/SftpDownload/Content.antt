-- ===== src/SftpDownload/Content.antt =====
-- What a download over SFTP delivers (src/SFTPCommon.cpp).
use async_iomanager.Common.{
  ℕ, Bool, true, false, List, [], ◌∷◌, ◌++◌, Bytes, length, length-append, inl, inr, append_assoc,
  append-nil, ◌⊎◌, ◌≡◌, ◌≢◌, refl, sym, ◌∙◌, arith,
}
use async_iomanager.Io.{callbacks, callbacks-append}
use async_iomanager.SftpDownload.{
  Device, State, idle, connecting, finished, Event, ready, Actions, no_data, deliver, step, run,
  start_sftp_download,
}
use async_iomanager.SftpDownload.Places.{
  received, sizes, IsPlaced, received-append, sizes-append, IsPlaced-append,
}
use async_iomanager.SftpDownload.Delivery.{download}
use async_iomanager.SftpDownload.Reads.{
  got, known, IsSound, Reads, waits, gives_up, delivers, step-Reads,
}

pub run_over : (d : Device) (es : List Event) → run d finished es ≡ (finished, [])
unfolding run step
run_over d [] = refl
run_over d (ready failed ssh ∷ es) = rw (run_over d es)

behind-IsPlaced :
    (before : Bytes) (size : List ℕ) (acts bs : Actions)
    → IsPlaced (length before) size acts
    → IsPlaced (length (before ++ received acts)) (size ++ sizes acts) bs
    → IsPlaced (length before) size (acts ++ bs)
behind-IsPlaced before size acts bs p q =
    IsPlaced-append acts bs (length before) size p
      (rw (sym (length-append before (received acts))) q)

-- Some actions before the rest of a run.
append-Reads :
    (d : Device) (before : Bytes) (size : List ℕ) (s : State) (acts bs : Actions)
    → callbacks acts ≡ []
    → IsPlaced (length before) size acts
    → Reads d (before ++ received acts) (size ++ sizes acts) s bs
    → Reads d before size s (acts ++ bs)
append-Reads d before size s acts bs e p (waits m i g k c q) =
    waits m i (rw (received-append acts bs) (g ∙ append_assoc before (received acts) (received bs)))
      (rw (sizes-append acts bs) (k ∙ append_assoc size (sizes acts) (sizes bs)))
      (rw (callbacks-append acts bs, e) c) (behind-IsPlaced before size acts bs p q)
append-Reads d before size s acts bs e p (gives_up f c q) =
    gives_up f (rw (callbacks-append acts bs, e) c) (behind-IsPlaced before size acts bs p q)
append-Reads d before size s acts bs e p (delivers f c k q) =
    let g = append_assoc before (received acts) (received bs) in
    delivers f (rw (callbacks-append acts bs, e, received-append acts bs, sym g) c)
      (rw
        (
          sizes-append acts bs,
          received-append acts bs,
          sym g,
          sym (append_assoc size (sizes acts) (sizes bs)),
        )
        k)
      (behind-IsPlaced before size acts bs p q)

pub run-Reads :
    (d : Device) (s : State) (es : List Event)
    → s ≢ finished
    → IsSound s
    → Reads d (got s) (known s) (run d s es).0 (run d s es).1
unfolding run
run-Reads d s [] n i = waits n i (sym (append-nil _)) (sym (append-nil _)) refl tt
run-Reads d s (e ∷ es) n i = elim (step-Reads d s e n i) [
  | waits m j g k c q ↦
      append-Reads d (got s) (known s) _ (step d s e).1 _ c q
        (rw (sym g, sym k) (run-Reads d (step d s e).0 es m j))
  | gives_up f c q ↦ rw (f, run_over d es, append-nil (step d s e).1) (gives_up refl c q)
  | delivers f c k q ↦ rw (f, run_over d es, append-nil (step d s e).1) (delivers refl c k q)
]

-- A whole download that starts with a device not in use.
download-Reads :
    (d : Device) (resolved : Bool) (es : List Event)
    → Reads d [] [] (download d resolved es).0 (download d resolved es).1
unfolding start_sftp_download
download-Reads d true es =
    append-Reads d [] [] _ (start_sftp_download idle true).1 _ refl tt
      (run-Reads d connecting es (λ e. ground arith) tt)
download-Reads d false es =
    append-Reads d [] [] _ (start_sftp_download idle false).1 _ refl tt
      (run-Reads d connecting es (λ e. ground arith) tt)

-- A download over SFTP, whatever the answers and whether the host resolves, is pending without a
-- callback, or has made exactly one. That callback has a null pointer, or it has the file name, the
-- flags of the device, and just the bytes that the reads took, in their order; these are as many as
-- the one size that the server stated.
pub delivered_exact :
    (d : Device) (resolved : Bool) (es : List Event)
    → let (s, acts) = download d resolved es in
      ((s ≢ finished) × (callbacks acts ≡ []))
      ⊎ (callbacks acts ≡ no_data ∷ [])
      ⊎ ((callbacks acts ≡ deliver d (received acts) ∷ [])
          × (sizes acts ≡ length (received acts) ∷ []))
delivered_exact d resolved es = elim (download-Reads d resolved es) [
  | waits m i g k c q ↦ inl (m, c)
  | gives_up f c q ↦ inr (inl c)
  | delivers f c k q ↦ inr (inr (c, k))
]

-- In every run, each read is given the place right behind the bytes that were received before it,
-- and the room it is given ends where a buffer of the one size that the server stated ends.
pub download-IsPlaced :
    (d : Device) (resolved : Bool) (es : List Event) → IsPlaced 0 [] (download d resolved es).1
download-IsPlaced d resolved es = elim (download-Reads d resolved es) [
  | waits m i g k c q ↦ q
  | gives_up f c q ↦ q
  | delivers f c k q ↦ q
]
