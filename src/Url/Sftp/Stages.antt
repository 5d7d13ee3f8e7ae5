-- ===== src/Url/Sftp/Stages.antt =====
-- What each stage of `parseSFTPUrl` does on a text that is put together (src/URLStringUtil.cpp).
use async_iomanager.Common.{
  ℕ, ◌+◌, true, none, some, Bytes, codes, find, length, ltb, ◌&&◌, length-append, ◌≡◌, ◌≢◌, refl,
  [], ◌∷◌, ◌++◌, Lacks, arith,
}
use async_iomanager.Common.Search.{
  drop_past, drop_before, take_before, substr_to_end, is_empty-append, find-append, Lacks-find-none,
  find_self, get_elem?-append,
}
use async_iomanager.Url.Sftp.{
  SftpUrl, split_user, split_pass, behind_marker, take_pubkey, take_privkey, take_passphrase,
  split_path, colon_at,
}
use async_iomanager.Url.Sftp.Written.{public_key, private_key, write_secret}

pub separator_seen :
    (m f : Bytes)
    → (ltb (length m) (length (m ++ b':' ∷ f)) && colon_at (m ++ b':' ∷ f) (length m)) ≡ true
unfolding colon_at
separator_seen m f =
    rw (colon_at, get_elem?-append m b':' f) (ground (arith, length-append m (b':' ∷ f)))

pub behind_marker_lem : (m f : Bytes) → behind_marker (m ++ b':' ∷ f) (length m) ≡ f
unfolding behind_marker
behind_marker_lem m f =
    rw (separator_seen m f, substr_to_end (m ++ b':' ∷ f) (length m + 1))
      (drop_past m (b':' ∷ []) f)

pub find-nil : (b : ℕ) (p : Bytes) → find (b ∷ p) [] ≡ none
unfolding find
find-nil b p = refl

pub split_user_at :
    (p r : Bytes) (out : SftpUrl)
    → Lacks b'@' p
    → split_user (p ++ b'@' ∷ r) out ≡ record out { host = r; user = p }
unfolding split_user
split_user_at p r out h = rw (
  split_user,
  find-append b'@' p r h,
  substr_to_end (p ++ b'@' ∷ r) (length p + 1),
  drop_past p (b'@' ∷ []) r,
  take_before p (b'@' ∷ r),
)

pub split_user-none :
    (url : Bytes) (out : SftpUrl)
    → Lacks b'@' url
    → split_user url out ≡ record out { host = url; user = []; pass = [] }
unfolding split_user
split_user-none url out h = rw (split_user, Lacks-find-none b'@' url h)

pub split_pass_at :
    (p r : Bytes) (out : SftpUrl)
    → Lacks b':' p
    → split_pass (record out { user = p ++ b':' ∷ r }) ≡ record out { user = p; pass = r }
unfolding split_pass
split_pass_at p r out h = rw (
  split_pass,
  find-append b':' p r h,
  substr_to_end (p ++ b':' ∷ r) (length p + 1),
  drop_past p (b':' ∷ []) r,
  take_before p (b':' ∷ r),
)

pub split_pass-none :
    (out : SftpUrl) → Lacks b':' out.user → split_pass out ≡ record out { pass = [] }
unfolding split_pass
split_pass-none out h = ground (arith, Lacks-find-none b':' out.user)

pub split_path_at :
    (p r : Bytes) (out : SftpUrl)
    → Lacks b'/' p
    → p ≢ []
    → split_path (record out { host = p ++ b'/' ∷ r })
      ≡ (true, record out { host = p; path = b'/' ∷ r })
unfolding split_path
split_path_at [] r out h given = absurd (given refl)
split_path_at (c ∷ p) r out h given = rw (
  split_path,
  find-append b'/' (c ∷ p) r h,
  substr_to_end (c ∷ p ++ b'/' ∷ r) (length (c ∷ p)),
  drop_before (c ∷ p) (b'/' ∷ r),
  take_before (c ∷ p) (b'/' ∷ r),
)

pub take_pubkey-none :
    (out : SftpUrl) → find (codes "pubkey_identifier") out.pass ≡ none → take_pubkey out ≡ out
unfolding take_pubkey
take_pubkey-none out h = ground arith

pub take_privkey-none :
    (out : SftpUrl) → find (codes "privkey_identifier") out.pass ≡ none → take_privkey out ≡ out
unfolding take_privkey
take_privkey-none out h = ground arith

pub take_pubkey_at :
    (f : Bytes) (out : SftpUrl)
    → take_pubkey (record out { pass = write_secret (public_key f) })
      ≡ record out { publickey_file = f; pass = [] }
unfolding take_pubkey
take_pubkey_at f out = rw (
  take_pubkey,
  find_self b'p' (codes "ubkey_identifier") (b':' ∷ f),
  behind_marker_lem (codes "pubkey_identifier") f,
)

pub take_privkey_at :
    (f : Bytes) (out : SftpUrl)
    → take_privkey (record out { pass = write_secret (private_key f) })
      ≡ record out { privatekey_file = f; pass = [] }
unfolding take_privkey
take_privkey_at f out = rw (
  take_privkey,
  find_self b'p' (codes "rivkey_identifier") (b':' ∷ f),
  behind_marker_lem (codes "privkey_identifier") f,
)

pub take_passphrase-none :
    (out : SftpUrl)
    → find (codes "key_passphrase") out.privatekey_file ≡ none
    → take_passphrase out ≡ out
unfolding take_passphrase
take_passphrase-none out h = ground arith

pub take_passphrase_at :
    (f p : Bytes) (out : SftpUrl)
    → find (codes "key_passphrase") (f ++ (codes "key_passphrase" ++ p)) ≡ some (length f)
    → take_passphrase (record out { privatekey_file = f ++ (codes "key_passphrase" ++ p) })
      ≡ record out { privatekey_pass = p; privatekey_file = f }
unfolding take_passphrase
take_passphrase_at f p out h = rw (
  is_empty-append f b'k' (codes "ey_passphrase" ++ p),
  h,
  substr_to_end (f ++ (codes "key_passphrase" ++ p)) (length f + 14),
  drop_past f (codes "key_passphrase") p,
  take_before f (codes "key_passphrase" ++ p),
)
