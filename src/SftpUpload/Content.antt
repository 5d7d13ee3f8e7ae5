-- ===== src/SftpUpload/Content.antt =====
-- What an upload writes (src/SFTPSaver.cpp, `SFTPUploadDevice::StartSFTPWriteBlocks`).
use async_iomanager.Common.{
  append_assoc, ap, sym, ◌∙◌, append-nil, Bool, true, false, List, [], ◌∷◌, ◌++◌, Bytes, drop, All,
  ◌≡◌, ◌≢◌, refl, arith,
}
use async_iomanager.SftpUpload.{
  Device, State, connecting, finished, Event, ready, Actions, do_write_callback, step, run,
  start_sftp_upload,
}
use async_iomanager.SftpUpload.Delivery.{upload}
use async_iomanager.SftpUpload.Writes.{taken, stored, offset, is_well, ends, waits, step-Writes}

run_over : (d : Device) (es : List Event) → run d finished es ≡ (finished, [])
unfolding run step
run_over d [] = refl
run_over d (ready failed ssh ∷ es) = rw (run_over d es)

stored-append : (acts bs : Actions) → stored (acts ++ bs) ≡ stored acts ++ stored bs
stored-append [] bs = refl
stored-append (a ∷ acts) bs =
    ap (λ x. taken a ++ x) (stored-append acts bs)
    ∙ sym (append_assoc (taken a) (stored acts) (stored bs))

run_prefix :
    (d : Device) (s : State) (es : List Event)
    → s ≢ finished
    → (rest : Bytes) × (stored (run d s es).1 ++ rest ≡ drop (offset s) d.file_content)
unfolding run
run_prefix d s [] n = (drop (offset s) d.file_content, refl)
run_prefix d s (e ∷ es) n = elim (step-Writes d s e n) [
  | ends rest f h k ↦ (rest, rw (f, run_over d es, append-nil) h)
  | waits m h ↦
      let (rest, g) = run_prefix d (step d s e).0 es m in
      (
        rest,
        ap (λ x. x ++ rest) (stored-append (step d s e).1 (run d (step d s e).0 es).1)
            ∙ append_assoc (stored (step d s e).1) (stored (run d (step d s e).0 es).1) rest
            ∙ ap (λ x. stored (step d s e).1 ++ x) g
            ∙ h,
      )
]

run_exact :
    (d : Device) (s : State) (es : List Event)
    → s ≢ finished
    → All (λ e. is_well e ≡ true) es
    → (run d s es).0 ≡ finished
    → stored (run d s es).1 ≡ drop (offset s) d.file_content
unfolding run
run_exact d s [] n w f = absurd (n f)
run_exact d s (e ∷ es) n (w, ws) f = elim (step-Writes d s e n) [
  | ends rest f' h k ↦
      rw (f', run_over d es, append-nil)
        (sym (append-nil _) ∙ ap (λ x. stored (step d s e).1 ++ x) (sym (k w)) ∙ h)
  | waits m h ↦
      stored-append (step d s e).1 (run d (step d s e).0 es).1
      ∙ ap (λ x. stored (step d s e).1 ++ x) (run_exact d (step d s e).0 es m ws f)
      ∙ h
]

-- At any time the server has taken, in order and without a gap or a repetition, some first bytes
-- of the file, whatever went wrong and however small its answers were.
pub stored_prefix :
    (d : Device) (resolved : Bool) (es : List Event)
    → (rest : Bytes) × (stored (upload d resolved es).1 ++ rest ≡ d.file_content)
unfolding start_sftp_upload do_write_callback
stored_prefix d true es = run_prefix d connecting es (λ e. ground arith)
stored_prefix d false es = (
  d.file_content,
  rw (stored-append (do_write_callback d) (run d finished es).1, run_over d es) (ground arith),
)

-- An upload to a host that resolves, in which no call and no wait fails and no write takes 0 bytes,
-- has written exactly the file when it ends; calls may ask to be made again.
pub upload_exact :
    (d : Device) (es : List Event)
    → All (λ e. is_well e ≡ true) es
    → (upload d true es).0 ≡ finished
    → stored (upload d true es).1 ≡ d.file_content
unfolding start_sftp_upload
upload_exact d es w f = run_exact d connecting es (λ e. ground arith) w f
