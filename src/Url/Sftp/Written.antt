-- ===== src/Url/Sftp/Written.antt =====
-- The texts that `parseSFTPUrl` is meant to read (src/URLStringUtil.cpp), and their outputs.
use async_iomanager.Common.{none, some, Bytes, codes, find, length, ◌≡◌, ◌≢◌, [], ◌∷◌, ◌++◌, Lacks}
use async_iomanager.Url.Sftp.{SftpUrl}

-- What stands behind the colon of the user: a password, or a key with its marker.
pub data Secret : Type 0 where
  password : Bytes → Secret
  public_key : Bytes → Secret
  private_key : Bytes → Secret
  locked_key : Bytes → Bytes → Secret

abbrev pub write_secret : Secret → Bytes
write_secret (password p) = p
write_secret (public_key f) = codes "pubkey_identifier" ++ b':' ∷ f
write_secret (private_key f) = codes "privkey_identifier" ++ b':' ∷ f
write_secret (locked_key f p) =
    codes "privkey_identifier" ++ b':' ∷ (f ++ (codes "key_passphrase" ++ p))

-- A secret whose text is read in one way only.
abbrev pub IsSecret : Secret → Type 0
IsSecret (password p) =
    (find (codes "pubkey_identifier") p ≡ none) × (find (codes "privkey_identifier") p ≡ none)
IsSecret (public_key f) = Unit
IsSecret (private_key f) =
    (find (codes "pubkey_identifier") (write_secret (private_key f)) ≡ none)
    × (find (codes "key_passphrase") f ≡ none)
IsSecret (locked_key f p) =
    (find (codes "pubkey_identifier") (write_secret (locked_key f p)) ≡ none)
    × (find (codes "key_passphrase") (f ++ (codes "key_passphrase" ++ p)) ≡ some (length f))

pub data Login : Type 0 where
  anonymous : Login
  user_only : Bytes → Login
  with_secret : Bytes → Secret → Login

abbrev pub write_url : Login → Bytes → Bytes
write_url anonymous rest = rest
write_url (user_only u) rest = u ++ b'@' ∷ rest
write_url (with_secret u s) rest = (u ++ b':' ∷ write_secret s) ++ b'@' ∷ rest

-- A user is not empty and holds no "@" and no ":", and a secret no "@".
abbrev pub IsLogin : Login → Bytes → Type 0
IsLogin anonymous rest = Lacks b'@' rest
IsLogin (user_only u) rest = (u ≢ []) × Lacks b'@' u × Lacks b':' u
IsLogin (with_secret u s) rest =
    (u ≢ []) × Lacks b'@' u × Lacks b':' u × Lacks b'@' (write_secret s) × IsSecret s

unfoldable pub blank : Bytes → Bytes → SftpUrl
blank host path = record {
  host = host;
  path = path;
  user = [];
  pass = [];
  publickey_file = [];
  privatekey_file = [];
  privatekey_pass = [];
}

-- The outputs for a secret.
abbrev pub with_outputs : Secret → SftpUrl → SftpUrl
with_outputs (password p) out = record out { pass = p }
with_outputs (public_key f) out = record out { publickey_file = f }
with_outputs (private_key f) out = record out { privatekey_file = f }
with_outputs (locked_key f p) out = record out { privatekey_file = f; privatekey_pass = p }

abbrev pub outputs : Login → SftpUrl → SftpUrl
outputs anonymous out = out
outputs (user_only u) out = record out { user = u }
outputs (with_secret u s) out = with_outputs s (record out { user = u })
