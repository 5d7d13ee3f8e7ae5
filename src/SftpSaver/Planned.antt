-- ===== src/SftpSaver/Planned.antt =====
-- The uploads that a save of several files is to start (src/SFTPSaver.cpp, `SFTPSaver::SaveASync`):
-- what each is for, apart from how the code makes it.
use async_iomanager.Common.{
  ℕ, ◌+◌, Bool, Bool-cases, true, false, inl, inr, List, [], ◌∷◌, ◌++◌, Bytes, ◌≡◌, ◌≢◌, map, refl,
  ap, arith,
}
use async_iomanager.Url.Sftp.{SftpUrl}
use async_iomanager.SftpUpload.{Device}
use async_iomanager.SftpSaver.{
  ends_with_slash, full_file_path, device_for, Upload, start_upload, start_uploads,
}

-- The path of a file below a path: the path ends with a slash or is empty, and the name follows; or a
-- slash is put between them.
pub data Below (path name : Bytes) (whole : Bytes) : Type 0 where
  at_root : path ≡ [] → whole ≡ name → Below path name whole
  behind_slash : (q : Bytes) → path ≡ q ++ b'/' ∷ [] → whole ≡ path ++ name → Below path name whole
  joined :
      path ≢ []
      → ((q : Bytes) → path ≢ q ++ b'/' ∷ [])
      → whole ≡ path ++ b'/' ∷ name
      → Below path name whole

-- An upload of a file: with the login and the host of the URL, below its path, with its content.
pub record IsFor (u : SftpUrl) (name content : Bytes) (d : Device) : Type 0 where
  pub host : d.sftp_host ≡ u.host
  pub path : Below u.path name d.sftp_path
  pub user : d.sftp_user ≡ u.user
  pub pass : d.sftp_pass ≡ u.pass
  pub pubkeyfile : d.sftp_pubkeyfile ≡ u.publickey_file
  pub privkeyfile : d.sftp_privkeyfile ≡ u.privatekey_file
  pub privkeypass : d.sftp_privkeypass ≡ u.privatekey_pass
  pub content_of : d.file_content ≡ content
  pub reports : d.handle_write ≡ true

-- Just one upload for each file, in their order.
abbrev pub Planned : SftpUrl → List Bytes → List Bytes → List Device → Type 0
Planned u (n ∷ ns) (c ∷ cs) (d ∷ ds) = IsFor u n c d × Planned u ns cs ds
Planned u (n ∷ ns) (c ∷ cs) [] = ⊥
Planned u ns cs [] = Unit
Planned u ns cs (d ∷ ds) = ⊥

slash_last : (p : Bytes) → ends_with_slash p ≡ true → (q : Bytes) × (p ≡ q ++ b'/' ∷ [])
slash_last [] e = absurd (cc)
slash_last (c ∷ []) e = ([], ground arith)
slash_last (c ∷ c' ∷ s) e = let (q, split) = slash_last (c' ∷ s) e in (c ∷ q, ap (◌∷◌ c) split)

last_slash : (q : Bytes) → ends_with_slash (q ++ b'/' ∷ []) ≡ true
last_slash [] = refl
last_slash (c ∷ []) = refl
last_slash (c ∷ c' ∷ q) = last_slash (c' ∷ q)

full_file_path-Below : (path name : Bytes) → Below path name (full_file_path path name)
unfolding full_file_path
full_file_path-Below [] name = Below.at_root refl refl
full_file_path-Below (c ∷ s) name = elim (Bool-cases (ends_with_slash (c ∷ s))) [
  | inl e ↦ let (q, split) = slash_last (c ∷ s) e in Below.behind_slash q split (rw e refl)
  | inr e ↦
      Below.joined (λ k. cc) (λ q k. other e (ap ends_with_slash k) (last_slash q)) (rw e refl)
]
  where
    other : {x y : Bool} → x ≡ false → x ≡ y → y ≡ true → ⊥
    other a b c = cc

pub start_uploads-Planned :
    (u : SftpUrl) (save_location : Bool) (resolved : ℕ → Bool) (i : ℕ) (names contents : List Bytes)
    → Planned u names contents
        (map (λ (x : Upload). x.device) (start_uploads u save_location resolved i names contents))
unfolding start_uploads start_upload device_for
start_uploads-Planned u save_location resolved i [] cs = tt
start_uploads-Planned u save_location resolved i (n ∷ ns) [] = tt
start_uploads-Planned u save_location resolved i (n ∷ ns) (c ∷ cs) = (
  record {
    host = refl;
    path = full_file_path-Below u.path n;
    user = refl;
    pass = refl;
    pubkeyfile = refl;
    privkeyfile = refl;
    privkeypass = refl;
    content_of = refl;
    reports = refl;
  },
  start_uploads-Planned u save_location resolved (i + 1) ns cs,
)
