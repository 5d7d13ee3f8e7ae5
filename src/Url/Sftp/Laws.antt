-- ===== src/Url/Sftp/Laws.antt =====
-- `parseSFTPUrl` reads back every URL that is written from its parts (src/URLStringUtil.cpp).
use async_iomanager.Common.{
  true, false, Bytes, codes, is_empty, ◌≡◌, ◌≢◌, refl, ap, ◌∙◌, [], ◌∷◌, ◌++◌, Lacks, arith,
  All-append,
}
use async_iomanager.Common.Search.{is_empty-append, append-ne-nil}
use async_iomanager.Url.Sftp.{
  SftpUrl, reset, split_user, split_pass, take_pubkey, take_privkey, take_passphrase, credentials,
  split_path, parse_sftp_url,
}
use async_iomanager.Url.Sftp.Stages.{
  find-nil, split_user_at, split_user-none, split_pass_at, split_pass-none, split_path_at,
  take_pubkey-none, take_privkey-none, take_pubkey_at, take_privkey_at, take_passphrase-none,
  take_passphrase_at,
}
use async_iomanager.Url.Sftp.Written.{
  Secret, password, public_key, private_key, locked_key, write_secret, IsSecret, Login, write_url,
  IsLogin, blank, with_outputs, outputs, anonymous, user_only, with_secret,
}

-- The three key stages on a written secret.
keys : SftpUrl → SftpUrl
keys out = take_passphrase (take_privkey (take_pubkey out))

keys_lem :
    (s : Secret) (host path user : Bytes)
    → IsSecret s
    → keys (record (blank host path) { user = user; pass = write_secret s })
      ≡ with_outputs s (record (blank host path) { user = user })
unfolding keys blank
keys_lem (password p) host path user h =
    let out = record (blank host path) { user = user; pass = p } in
    rw (take_pubkey-none out h.0, take_privkey-none out h.1)
      (take_passphrase-none out (find-nil b'k' (codes "ey_passphrase")))
keys_lem (public_key f) host path user h =
    let out = record (blank host path) { user = user; publickey_file = f } in
    rw
      (
        take_pubkey_at f (record (blank host path) { user = user }),
        take_privkey-none out (find-nil b'p' (codes "rivkey_identifier")),
      )
      (take_passphrase-none out (find-nil b'k' (codes "ey_passphrase")))
keys_lem (private_key f) host path user h =
    let out = record (blank host path) { user = user } in
    rw
      (
        take_pubkey-none (record out { pass = write_secret (private_key f) }) h.0,
        take_privkey_at f out,
      )
      (take_passphrase-none (record out { privatekey_file = f }) h.1)
keys_lem (locked_key f p) host path user h =
    let out = record (blank host path) { user = user } in
    rw
      (
        take_pubkey-none (record out { pass = write_secret (locked_key f p) }) h.0,
        take_privkey_at (f ++ (codes "key_passphrase" ++ p)) out,
      )
      (take_passphrase_at f p out h.1)

credentials_given : (out : SftpUrl) → out.user ≢ [] → credentials out ≡ keys (split_pass out)
unfolding credentials keys
credentials_given out h = ground arith

-- The whole credential part on a written login.
login_read :
    (l : Login) (rest : Bytes) (out : SftpUrl)
    → IsLogin l rest
    → credentials (split_user (write_url l rest) (reset out)) ≡ outputs l (blank rest out.path)
unfolding reset blank
login_read anonymous rest out h =
    rw (split_user-none rest (reset out) h) (unfold credentials in refl)
login_read (user_only u) rest out h =
    let out' = record (blank rest out.path) { user = u } in
    rw (split_user_at u rest (reset out) h.1) (
      credentials_given out' h.0
      ∙ ap keys (split_pass-none out' h.2)
      ∙ keys_lem (password []) rest out.path u
          (find-nil b'p' (codes "ubkey_identifier"), find-nil b'p' (codes "rivkey_identifier")))
login_read (with_secret u s) rest out h =
    rw (split_user_at (u ++ b':' ∷ write_secret s) rest (reset out) at_free) (
      credentials_given (record (blank rest out.path) { user = u ++ b':' ∷ write_secret s })
        (append-ne-nil u b':' (write_secret s))
      ∙ ap keys (split_pass_at u (write_secret s) (blank rest out.path) h.2)
      ∙ keys_lem s rest out.path u h.4)
  where
    at_free : Lacks b'@' (u ++ b':' ∷ write_secret s)
    at_free = All-append _ u (b':' ∷ write_secret s) h.1 (ground arith, h.3)

-- A host and a path, behind any login, are cut at the first slash.
path_read :
    (l : Login) (host tail path : Bytes)
    → Lacks b'/' host
    → host ≢ []
    → split_path (outputs l (blank (host ++ b'/' ∷ tail) path))
      ≡ (true, outputs l (blank host (b'/' ∷ tail)))
unfolding blank
path_read anonymous host tail path h given = split_path_at host tail (blank [] path) h given
path_read (user_only u) host tail path h given =
    split_path_at host tail (record (blank [] path) { user = u }) h given
path_read (with_secret u (password p)) host tail path h given =
    split_path_at host tail (record (blank [] path) { user = u; pass = p }) h given
path_read (with_secret u (public_key f)) host tail path h given =
    split_path_at host tail (record (blank [] path) { user = u; publickey_file = f }) h given
path_read (with_secret u (private_key f)) host tail path h given =
    split_path_at host tail (record (blank [] path) { user = u; privatekey_file = f }) h given
path_read (with_secret u (locked_key f p)) host tail path h given =
    split_path_at host tail
      (record (blank [] path) { user = u; privatekey_file = f; privatekey_pass = p }) h given

write_url-given : (l : Login) (rest : Bytes) → rest ≢ [] → is_empty (write_url l rest) ≡ false
write_url-given anonymous rest h = ground arith
write_url-given (user_only u) rest h = is_empty-append u b'@' rest
write_url-given (with_secret u s) rest h = is_empty-append (u ++ b':' ∷ write_secret s) b'@' rest

-- `parseSFTPUrl` reads back every URL that is written from its parts: no login, a user, or a user
-- with a password, a public key, a private key or a private key with a passphrase, each key behind
-- its marker; then the host, and the path from the first slash on. The user is not empty and holds
-- no ":" and no "@", a secret holds no "@" and no marker but its own, the host is not empty and
-- holds no slash, and without a login there is no "@". Every output is then determined, those of
-- the parts that the URL lacks are empty, whatever they were before.
pub parse_sftp_url-write_url :
    (l : Login) (host tail : Bytes) (out : SftpUrl)
    → IsLogin l (host ++ b'/' ∷ tail)
    → Lacks b'/' host
    → host ≢ []
    → parse_sftp_url (write_url l (host ++ b'/' ∷ tail)) out
      ≡ (true, outputs l (blank host (b'/' ∷ tail)))
unfolding parse_sftp_url
parse_sftp_url-write_url l host tail out login h given =
    rw
      (
        write_url-given l (host ++ b'/' ∷ tail) (append-ne-nil host b'/' tail),
        login_read l (host ++ b'/' ∷ tail) out login,
      )
      (path_read l host tail out.path h given)
