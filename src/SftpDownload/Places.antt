-- ===== src/SftpDownload/Places.antt =====
-- The bytes, the sizes and the places of the reads among the actions of a download
-- (src/SFTPCommon.cpp).
use async_iomanager.Common.{
  ℕ, ◌+◌, List, [], ◌∷◌, ◌++◌, Bytes, length, take, length-append, append_assoc, append-nil, ◌≡◌,
  refl, sym, ap, subst, ◌∙◌, arith,
}
use async_iomanager.Io.{Action, Completion, op}
use async_iomanager.SftpDownload.{
  filesize, stat_again, stat_error, ReadRc, offers, Op, sftp_stat, sftp_read, Actions,
}
use native.Mathlib.Nat.{add-zero}
use async_iomanager.Io.{call, post}
use async_iomanager.SftpDownload.{
  status, async_connect, wait_read, set_nonblocking, session_handshake, userauth, sftp_init,
  sftp_open, close_handle, sftp_shutdown, session_disconnect, session_free, libssh2_exit,
}

abbrev pub gained : Action Op Completion → Bytes
gained (op (sftp_read offset room (offers bytes))) = take room bytes
gained a = []

-- The bytes that the reads took, in their order.
abbrev pub received : Actions → Bytes
received [] = []
received (a ∷ acts) = gained a ++ received acts

abbrev pub stated : Action Op Completion → List ℕ
stated (op (sftp_stat path (filesize n))) = n ∷ []
stated a = []

-- The sizes that the server stated.
abbrev pub sizes : Actions → List ℕ
sizes [] = []
sizes (a ∷ acts) = stated a ++ sizes acts

-- Every read is offered the place behind the bytes that were received before it, up to the end of a
-- buffer as large as the one size that was stated; `n` bytes were received and some sizes stated
-- before the actions.
abbrev pub IsPlaced : ℕ → List ℕ → Actions → Type 0
IsPlaced n size [] = Unit
IsPlaced n size (op (sftp_read offset room rc) ∷ acts) =
    (offset ≡ n)
    × (size ≡ (offset + room) ∷ [])
    × IsPlaced (n + length (gained (op (sftp_read offset room rc)))) size acts
IsPlaced n size (op (sftp_stat path (filesize k)) ∷ acts) = IsPlaced n (size ++ k ∷ []) acts
IsPlaced n size (a ∷ acts) = IsPlaced n size acts

pub received-append : (acts bs : Actions) → received (acts ++ bs) ≡ received acts ++ received bs
received-append [] bs = refl
received-append (a ∷ acts) bs =
    ap (λ x. gained a ++ x) (received-append acts bs)
    ∙ sym (append_assoc (gained a) (received acts) (received bs))

pub sizes-append : (acts bs : Actions) → sizes (acts ++ bs) ≡ sizes acts ++ sizes bs
sizes-append [] bs = refl
sizes-append (a ∷ acts) bs =
    ap (λ x. stated a ++ x) (sizes-append acts bs)
    ∙ sym (append_assoc (stated a) (sizes acts) (sizes bs))

-- The two kinds of actions that count, and the others.
pub data View (a : Action Op Completion) : Type 1 where
  reads : (offset room : ℕ) (rc : ReadRc) → a ≡ op (sftp_read offset room rc) → View a
  states : (path : Bytes) (k : ℕ) → a ≡ op (sftp_stat path (filesize k)) → View a
  plain :
      gained a ≡ []
      → stated a ≡ []
      → ((n : ℕ) (size : List ℕ) (acts : Actions)
          → IsPlaced n size (a ∷ acts) ≡ IsPlaced n size acts)
      → View a

pub view : (a : Action Op Completion) → View a
view (op (sftp_read offset room rc)) = reads offset room rc refl
view (op (sftp_stat path (filesize k))) = states path k refl
view (op (status good text)) = plain refl refl (λ n size acts. refl)
view (op (async_connect resolved)) = plain refl refl (λ n size acts. refl)
view (op (session_handshake rc)) = plain refl refl (λ n size acts. refl)
view (op (userauth auth rc)) = plain refl refl (λ n size acts. refl)
view (op (sftp_init rc)) = plain refl refl (λ n size acts. refl)
view (op (sftp_open path rc)) = plain refl refl (λ n size acts. refl)
view (op (sftp_stat path stat_again)) = plain refl refl (λ n size acts. refl)
view (op (sftp_stat path stat_error)) = plain refl refl (λ n size acts. refl)
view (op wait_read) = plain refl refl (λ n size acts. refl)
view (op set_nonblocking) = plain refl refl (λ n size acts. refl)
view (op close_handle) = plain refl refl (λ n size acts. refl)
view (op sftp_shutdown) = plain refl refl (λ n size acts. refl)
view (op session_disconnect) = plain refl refl (λ n size acts. refl)
view (op session_free) = plain refl refl (λ n size acts. refl)
view (op libssh2_exit) = plain refl refl (λ n size acts. refl)
view (call c) = plain refl refl (λ n size acts. refl)
view (post c) = plain refl refl (λ n size acts. refl)

pub IsPlaced-append :
    (acts bs : Actions) (n : ℕ) (size : List ℕ)
    → IsPlaced n size acts
    → IsPlaced (n + length (received acts)) (size ++ sizes acts) bs
    → IsPlaced n size (acts ++ bs)
IsPlaced-append [] bs n size p q = rw (add-zero, append-nil) at q
IsPlaced-append (a ∷ acts) bs n size p q = elim (view a) [
  | plain g t e ↦
      rw (e n size (acts ++ bs))
        (IsPlaced-append acts bs n size (rw (e n size acts) at p) (rw (g, t) at q))
  | reads offset room rc e ↦
      let (o, r, p') = rw e at p in
      rw e (
        o,
        r,
        IsPlaced-append acts bs _ size p' (
            subst (λ m. IsPlaced m (size ++ sizes acts) bs)
              (omega
                (arith, length-append (gained (op (sftp_read offset room rc))) (received acts)))
              (rw e at q)),
      )
  | states path k e ↦ rw e (
      IsPlaced-append acts bs n (size ++ k ∷ []) (rw e at p)
        (rw (append_assoc size (k ∷ []) (sizes acts)) (rw e at q)))
]
