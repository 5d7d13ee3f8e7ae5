-- ===== src/SftpUpload/Tests.antt =====
-- Runs of an upload over SFTP (src/SFTPSaver.cpp), and the theorems about it.
use async_iomanager.Common.{true, false, List, [], ◌∷◌, codes, rfind, ◌≡◌, refl, arith}
use async_iomanager.Io.{made}
use async_iomanager.SftpUpload.{
  Device, ok, again, WriteRc, wrote, publickey_fromfile, Ssh, finished, Event, ready, run, step,
  resolve_target, start_sftp_upload, credentials, start_sftp_auth, on_connect, start_sftp_handshake,
  after_handshake, after_auth, start_create_sftp, after_init, start_sftp_open, after_open,
  start_sftp_write_blocks, after_write, finish_upload,
}
use async_iomanager.SftpUpload.Delivery.{due, upload, upload_once}
use async_iomanager.SftpUpload.Ends.{upload_ends}
use async_iomanager.SftpUpload.Writes.{stored}
use async_iomanager.SftpUpload.Content.{upload_exact}
use async_iomanager.SftpUpload.Cleanup.{session, opened, freed, freed_iff_opened}

abbrev device : Device
device = record {
  sftp_host = codes "localhost:2222";
  sftp_path = codes "/dir/1.bin";
  sftp_user = codes "me";
  sftp_pass = codes "secret";
  sftp_pubkeyfile = codes "";
  sftp_privkeyfile = codes "key";
  sftp_privkeypass = codes "phrase";
  file_content = codes "hello";
  handle_write = true;
  save_location = true;
}

abbrev all_ok : WriteRc → Ssh
all_ok w = record { handshake = ok; auth = ok; init = ok; open_file = ok; write = w }

-- The host name answers on another port.
port_given : resolve_target (codes "localhost:2222") ≡ (codes "localhost", codes "2222")
unfolding resolve_target rfind
port_given = refl

port_default : resolve_target (codes "localhost") ≡ (codes "localhost", codes "22")
unfolding resolve_target rfind
port_default = refl

-- The private key goes before the password.
key_first : credentials device ≡ publickey_fromfile (codes "me") (codes "key") (codes "phrase")
unfolding credentials
key_first = refl

-- An upload in two writes, with a wait between.
abbrev two_writes : List Event
two_writes =
    ready false (all_ok (wrote 2))
    ∷ ready false (all_ok again)
    ∷ ready false (all_ok (wrote 3))
    ∷ []

two_writes-finished : (upload device true two_writes).0 ≡ finished
unfolding run step start_sftp_upload on_connect start_sftp_handshake after_handshake start_sftp_auth
    after_auth start_create_sftp after_init start_sftp_open after_open start_sftp_write_blocks
    after_write finish_upload
two_writes-finished = refl

upload_once_example :
    made (upload device true two_writes).1 ≡ due device (upload device true two_writes).0
upload_once_example = upload_once device true two_writes

upload_exact_example : stored (upload device true two_writes).1 ≡ codes "hello"
upload_exact_example = upload_exact device two_writes (refl, (refl, (refl, tt))) two_writes-finished

freed_iff_opened_example :
    freed session (upload device true two_writes).1 ≡ opened (upload device true two_writes).1
freed_iff_opened_example = freed_iff_opened session device true two_writes two_writes-finished

-- Seven waits without a call that asks to wait.
abbrev by_bytes : List Event
by_bytes =
    ready false (all_ok (wrote 1))
    ∷ ready false (all_ok (wrote 1))
    ∷ ready false (all_ok (wrote 1))
    ∷ ready false (all_ok (wrote 1))
    ∷ ready false (all_ok (wrote 1))
    ∷ ready false (all_ok (wrote 1))
    ∷ ready false (all_ok (wrote 1))
    ∷ []

upload_ends_example : (upload device true by_bytes).0 ≡ finished
upload_ends_example =
    upload_ends device true by_bytes (refl, (refl, (refl, (refl, (refl, (refl, (refl, tt)))))))
      (omega arith)
