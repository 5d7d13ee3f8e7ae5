-- ===== src/SftpDownload/Tests.antt =====
-- Runs of a download over SFTP (src/SFTPCommon.cpp), and the theorems about it.
use async_iomanager.Common.{
  true, false, ◌+◌, List, [], ◌∷◌, Bytes, codes, ◌⊎◌, ◌≡◌, ◌≢◌, refl, arith, All,
}
use async_iomanager.Io.{callbacks}
use async_iomanager.SftpUpload.{ok, publickey_fromfile}
use async_iomanager.SftpDownload.{
  Device, filesize, ReadRc, offers, read_again, Ssh, finished, Event, ready, no_data, deliver, step,
  run, start_sftp_download, credentials, start_sftp_auth, on_connect, start_sftp_handshake, after,
  start_create_sftp, start_sftp_open, start_sftp_get_size, after_stat, start_sftp_get_blocks,
  after_read, zeros, write_at, on_wait, fail_read, start_sftp_cleanup,
}
use async_iomanager.SftpDownload.Delivery.{download}
use async_iomanager.SftpDownload.Places.{IsPlaced}
use async_iomanager.SftpDownload.Content.{download-IsPlaced}
use async_iomanager.SftpDownload.Serving.{IsServed, served_exact}
use async_iomanager.SftpDownload.Ends.{download_ends}
use async_iomanager.SftpDownload.Sessions.{sized, freed, delivered, freed_unless_delivered}

abbrev device : Device
device = record {
  sftp_host = codes "localhost";
  sftp_path = codes "/dir/1.bin";
  sftp_user = codes "me";
  sftp_pass = codes "secret";
  sftp_pubkeyfile = codes "";
  sftp_privkeyfile = codes "key";
  sftp_privkeypass = codes "phrase";
  parse = true;
  save = false;
}

-- The private key goes without its passphrase.
no_passphrase : credentials device ≡ publickey_fromfile (codes "me") (codes "key") (codes "")
unfolding credentials
no_passphrase = refl

abbrev all_ok : ReadRc → Ssh
all_ok r = record {
  handshake = ok;
  auth = ok;
  init = ok;
  open_file = ok;
  stat = filesize 3;
  read = r;
}

-- The file comes in two parts, with a wait that was not needed between them.
abbrev two_parts : List Event
two_parts =
    ready false (all_ok (offers (codes "ab")))
    ∷ ready false (all_ok read_again)
    ∷ ready false (all_ok (offers (codes "c")))
    ∷ []

two_parts-callbacks :
    callbacks (download device true two_parts).1 ≡ deliver device (codes "abc") ∷ []
unfolding start_sftp_download run step on_connect start_sftp_handshake after start_sftp_auth
    start_create_sftp start_sftp_open start_sftp_get_size after_stat start_sftp_get_blocks
    after_read zeros write_at on_wait
two_parts-callbacks = refl

-- The read of an empty file gets no bytes.
abbrev empty_file : List Event
empty_file =
    ready false (record {
      handshake = ok;
      auth = ok;
      init = ok;
      open_file = ok;
      stat = filesize 0;
      read = offers [];
    })
    ∷ []

empty_file-callbacks : callbacks (download device true empty_file).1 ≡ no_data ∷ []
unfolding start_sftp_download run step on_connect start_sftp_handshake after start_sftp_auth
    start_create_sftp start_sftp_open start_sftp_get_size after_stat start_sftp_get_blocks
    after_read zeros fail_read start_sftp_cleanup
empty_file-callbacks = refl

download-IsPlaced_example : IsPlaced 0 [] (download device true two_parts).1
download-IsPlaced_example = download-IsPlaced device true two_parts

-- Each read gets one byte of the file.
abbrev one_byte : Bytes → Event
one_byte bytes = ready false (record {
  handshake = ok;
  auth = ok;
  init = ok;
  open_file = ok;
  stat = filesize 2;
  read = offers bytes;
})

abbrev by_bytes : List Event
by_bytes = one_byte (codes "a") ∷ one_byte (codes "b") ∷ []

by_bytes-IsServed : All (IsServed (codes "ab")) (download device true by_bytes).1
unfolding start_sftp_download run step on_connect start_sftp_handshake after start_sftp_auth
    start_create_sftp start_sftp_open start_sftp_get_size after_stat start_sftp_get_blocks
    after_read zeros write_at on_wait
by_bytes-IsServed = (
  tt,
  (
    tt,
    (
      tt,
      (
        tt,
        (
          tt,
          (
            tt,
            (
              tt,
              (
                tt,
                (
                  tt,
                  (
                    tt,
                    (
                      tt,
                      (tt, (refl, (tt, ((codes "b", refl), (tt, (([], refl), (tt, (tt, tt)))))))),
                    ),
                  ),
                ),
              ),
            ),
          ),
        ),
      ),
    ),
  ),
)

served_exact_example :
    (((download device true by_bytes).0 ≢ finished)
      × (callbacks (download device true by_bytes).1 ≡ []))
    ⊎ (callbacks (download device true by_bytes).1 ≡ no_data ∷ [])
    ⊎ (callbacks (download device true by_bytes).1 ≡ deliver device (codes "ab") ∷ [])
served_exact_example = served_exact (codes "ab") device true by_bytes by_bytes-IsServed

download_ends_example :
    callbacks (download device true by_bytes).1 ≡ deliver device (codes "ab") ∷ []
download_ends_example =
    download_ends (codes "ab") device by_bytes (omega arith) (omega arith)
      (
        (refl, refl, refl, refl, refl, refl, (97, [], refl)),
        ((refl, refl, refl, refl, refl, refl, (98, [], refl)), tt),
      )
      by_bytes-IsServed

empty_file-finished : (download device true empty_file).0 ≡ finished
unfolding start_sftp_download run step on_connect start_sftp_handshake after start_sftp_auth
    start_create_sftp start_sftp_open start_sftp_get_size after_stat start_sftp_get_blocks
    after_read zeros fail_read
empty_file-finished = refl

freed_unless_delivered_example :
    sized (download device true empty_file).1
    ≡ freed (download device true empty_file).1 + delivered (download device true empty_file).1
freed_unless_delivered_example = freed_unless_delivered device true empty_file empty_file-finished
