-- ===== src/Url/Sftp.antt =====
-- src/URLStringUtil.cpp, `parseSFTPUrl`, one function for each commented part of it.
pub mod Written
pub mod Stages
pub mod Laws
use async_iomanager.Common.{
  ℕ, ◌+◌, Bool, true, false, none, some, Bytes, codes, is_empty, find, substr, length, get_elem?,
  if◌then◌else◌, ltb, ◌==◌, [], ◌&&◌,
}

pub record SftpUrl : Type 0 where
  pub host : Bytes
  pub path : Bytes
  pub user : Bytes
  pub pass : Bytes
  pub publickey_file : Bytes
  pub privatekey_file : Bytes
  pub privatekey_pass : Bytes

-- Lines 101 to 105: five of the outputs are cleared.
pub reset : SftpUrl → SftpUrl
reset out = record out {
  user = [];
  pass = [];
  publickey_file = [];
  privatekey_file = [];
  privatekey_pass = [];
}

-- Lines 110 to 122: what stands before the first "@" is the user.
pub split_user : Bytes → SftpUrl → SftpUrl
split_user url out = elim (find (codes "@") url) [
  | none ↦ record out { host = url; user = []; pass = [] }
  | some index ↦ record out {
    host = substr url (index + 1) (length url);
    user = substr url 0 index;
  }
]

-- Lines 127 to 137: a password behind the first colon of the user.
pub split_pass : SftpUrl → SftpUrl
split_pass out = elim (find (codes ":") out.user) [
  | none ↦ record out { pass = [] }
  | some index ↦ record out {
    user = substr out.user 0 index;
    pass = substr out.user (index + 1) (length out.user);
  }
]

-- `pass[start] == ':'`, read within the text only.
pub colon_at : Bytes → ℕ → Bool
colon_at s start = elim (get_elem? s start) [ none ↦ false | some c ↦ c == b':' ]

-- Lines 144 to 147 and 156 to 159: the text behind a marker, past an optional separator.
pub behind_marker : Bytes → ℕ → Bytes
behind_marker pass start =
    substr pass (if ltb start (length pass) && colon_at pass start then start + 1 else start)
      (length pass)

-- Lines 140 to 149 and 152 to 161.
pub take_pubkey : SftpUrl → SftpUrl
take_pubkey out = elim (find (codes "pubkey_identifier") out.pass) [
  | none ↦ out
  | some index ↦ record out { publickey_file = behind_marker out.pass (index + 17); pass = [] }
]

pub take_privkey : SftpUrl → SftpUrl
take_privkey out = elim (find (codes "privkey_identifier") out.pass) [
  | none ↦ out
  | some index ↦ record out { privatekey_file = behind_marker out.pass (index + 18); pass = [] }
]

-- Lines 164 to 173.
pub take_passphrase : SftpUrl → SftpUrl
take_passphrase out =
    if is_empty out.privatekey_file
    then out
    else elim (find (codes "key_passphrase") out.privatekey_file) [
      | none ↦ out
      | some index ↦ record out {
        privatekey_pass = substr out.privatekey_file (index + 14) (length out.privatekey_file);
        privatekey_file = substr out.privatekey_file 0 index;
      }
    ]

-- Lines 125 to 174.
pub credentials : SftpUrl → SftpUrl
credentials out =
    if is_empty out.user then out else take_passphrase (take_privkey (take_pubkey (split_pass out)))

-- Lines 177 to 195.
pub split_path : SftpUrl → Bool × SftpUrl
split_path out = elim (find (codes "/") out.host) [
  | none ↦ (false, out)
  | some index ↦
      let parts = record out {
        path = substr out.host index (length out.host);
        host = substr out.host 0 index;
      } in
      if is_empty parts.host then (false, parts) else (true, parts)
]

pub parse_sftp_url : Bytes → SftpUrl → Bool × SftpUrl
parse_sftp_url url out =
    if is_empty url then (false, out) else split_path (credentials (split_user url (reset out)))
