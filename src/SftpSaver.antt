-- ===== src/SftpSaver.antt =====
-- src/SFTPSaver.cpp, `SFTPSaver::SaveASync`: the upload of several files, one device each, with the
-- counter that the devices share. What a device posts is the lambda that lowers the counter; a
-- posted lambda runs as an event of its own. The answers of the resolver are a parameter, by the
-- number of the upload.
pub mod FanIn
pub mod Planned
pub mod Runs
pub mod SaveFile
mod Tests
use async_iomanager.Common.{
  ℕ, zero, suc, ◌+◌, ◌-◌, ◌%◌, ◌^◌, Bool, true, false, none, some, List, [], ◌∷◌, ◌++◌, Bytes,
  codes, is_empty, length, leb, ◌==◌, ◌||◌, if◌then◌else◌,
}
use async_iomanager.Io.{Files, ResultType, failure, success, made}
use async_iomanager.Url.Sftp.{SftpUrl, parse_sftp_url}
use async_iomanager.SftpUpload.{Device, Actions, idle, start_sftp_upload}
use async_iomanager.SftpUpload

-- A device with its state and all that it did.
pub record Upload : Type 0 where
  pub device : Device
  pub state : SftpUpload.State
  pub acts : Actions

pub record Saving : Type 0 where
  pub uploads : List Upload
  -- `remainingWrites`, a `size_t`
  pub remaining_writes : ℕ
  -- lambdas that the devices have posted and that have not run
  pub posted : ℕ
  -- the calls of `handle_write`
  pub calls : ℕ

pub data Event : Type 0 where
  -- a wait of the upload with a number ends
  upload : ℕ → SftpUpload.Event → Event
  run_posted : Event

abbrev pub ends_with_slash : Bytes → Bool
ends_with_slash [] = false
ends_with_slash (c ∷ []) = c == b'/'
ends_with_slash (c ∷ c' ∷ s) = ends_with_slash (c' ∷ s)

-- The path of a file below the path of the URL.
pub full_file_path : Bytes → Bytes → Bytes
full_file_path path name =
    if is_empty path || ends_with_slash path then path ++ name else path ++ (codes "/" ++ name)

pub device_for : SftpUrl → Bool → Bytes → Bytes → Device
device_for u save_location name content = record {
  sftp_host = u.host;
  sftp_path = full_file_path u.path name;
  sftp_user = u.user;
  sftp_pass = u.pass;
  sftp_pubkeyfile = u.publickey_file;
  sftp_privkeyfile = u.privatekey_file;
  sftp_privkeypass = u.privatekey_pass;
  file_content = content;
  handle_write = true;
  save_location = save_location;
}

pub start_upload : Device → Bool → Upload
start_upload d resolved =
    let (s, acts) = start_sftp_upload d idle resolved in
    record { device = d; state = s; acts = acts }

-- The loop over the files, from the upload with a number on.
pub start_uploads : SftpUrl → Bool → (ℕ → Bool) → ℕ → List Bytes → List Bytes → List Upload
start_uploads u save_location resolved i (name ∷ names) (content ∷ contents) =
    start_upload (device_for u save_location name content) (resolved i)
    ∷ start_uploads u save_location resolved (i + 1) names contents
start_uploads u save_location resolved i names contents = []

pub posts : List Upload → ℕ
posts [] = 0
posts (u ∷ us) = made u.acts + posts us

-- The outputs of `parseSFTPUrl` before the call.
abbrev pub no_url : SftpUrl
no_url = record {
  host = [];
  path = [];
  user = [];
  pass = [];
  publickey_file = [];
  privatekey_file = [];
  privatekey_pass = [];
}

abbrev pub start_saving : Bytes → Files → Bool → (ℕ → Bool) → Saving
start_saving file f save_location resolved =
    let us =
      start_uploads (parse_sftp_url file no_url).1 save_location resolved 0 f.paths f.contents in
    record { uploads = us; remaining_writes = length f.paths; posted = posts us; calls = 0 }

-- What `SaveASync` does: it posts `handle_write` at once, or it starts uploads.
pub data Save : Type 0 where
  post_handle_write : Save
  saving : Saving → Save

pub save_async : Bytes → ResultType → Bool → (ℕ → Bool) → Save
save_async file (failure e) save_location resolved = post_handle_write
save_async file (success none) save_location resolved = post_handle_write
save_async file (success (some f)) save_location resolved =
    if length f.paths == 0
    then post_handle_write
    else (if length f.paths == length f.contents
        then saving (start_saving file f save_location resolved)
        else post_handle_write)

-- `( *remainingWrites )--`.
pub decrement : ℕ → ℕ
decrement n = (n + (2 ^ 64 - 1)) % 2 ^ 64

-- The lambda that a device posts.
pub write_done : Saving → Saving
write_done s =
    let left = decrement s.remaining_writes in
    record s {
      remaining_writes = left;
      posted = s.posted - 1;
      calls = s.calls + (if leb left 0 then 1 else 0);
    }

pub step_upload : Upload → SftpUpload.Event → Upload × ℕ
step_upload u e =
    let (s, acts) = SftpUpload.step u.device u.state e in
    (record { device = u.device; state = s; acts = u.acts ++ acts }, made acts)

pub step_at : ℕ → SftpUpload.Event → List Upload → List Upload × ℕ
step_at i e [] = ([], 0)
step_at zero e (u ∷ us) = let (u', n) = step_upload u e in (u' ∷ us, n)
step_at (suc i) e (u ∷ us) = let (us', n) = step_at i e us in (u ∷ us', n)

-- One event; a lambda runs only if one was posted.
pub step : Saving → Event → Saving
step s (upload i e) =
    let (us, n) = step_at i e s.uploads in record s { uploads = us; posted = s.posted + n }
step s run_posted = if s.posted == 0 then s else write_done s

pub run : Saving → List Event → Saving
run s [] = s
run s (e ∷ es) = run (step s e) es
