-- ===== src/Url/Tests.antt =====
-- Runs of the URL parsers (src/URLStringUtil.cpp) and the theorems about them at concrete texts.
use async_iomanager.Common.{true, false, [], codes, find, rfind, ◌≡◌, ◌↔◌, refl, arith}
use async_iomanager.Url.Components.{Components, get_url_components, extension_of}
use async_iomanager.Url.Components.Laws.{Split, get_url_components-Split, IsExtension, last_dot}
use async_iomanager.Url.Http.{HttpUrl, parse_http_url, parse_port}
use async_iomanager.Url.Http.Laws.{IsHttpUrl, with_port, parse_http_url_iff}
use async_iomanager.Url.Sftp.{SftpUrl, parse_sftp_url}
use async_iomanager.Url.Sftp.Written.{Login, with_secret, locked_key, outputs, blank}
use async_iomanager.Url.Sftp.Laws.{parse_sftp_url-write_url}

abbrev no_components : Components
no_components = record { prefix = []; base = []; extension = [] }

get_url_components-Split_example :
    Split
      (codes "file://a.mnn")
      no_components
      (get_url_components (codes "file://a.mnn") no_components)
get_url_components-Split_example = get_url_components-Split (codes "file://a.mnn") no_components

file_url :
    get_url_components (codes "file://a.b.mnn") no_components
    ≡ (true, record { prefix = codes "file"; base = codes "a.b.mnn"; extension = codes "mnn" })
unfolding get_url_components extension_of find rfind
file_url = refl

mnn-IsExtension : IsExtension (codes "a.b.mnn") (codes "mnn")
mnn-IsExtension = last_dot (codes "a.b") refl (omega arith)

abbrev no_http : HttpUrl
no_http = record { host = []; path = []; port = [] }

abbrev local_http : HttpUrl
local_http = record { host = codes "localhost"; path = codes "/1.mnn"; port = codes "8443" }

local_http-IsHttpUrl : IsHttpUrl (codes "localhost:8443/1.mnn") local_http
local_http-IsHttpUrl = record {
  authority = codes "localhost:8443";
  tail = codes "1.mnn";
  spelled = refl;
  path_slash = refl;
  authority_clean = omega arith;
  host_clean = omega arith;
  host_given = cc;
  split = with_port refl (cc);
}

local_http_parsed : parse_http_url (codes "localhost:8443/1.mnn") no_http ≡ (true, local_http)
unfolding parse_http_url parse_port find
local_http_parsed = refl

parse_http_url_iff_example :
    (parse_http_url (codes "localhost:8443/1.mnn") no_http ≡ (true, local_http))
    ↔ IsHttpUrl (codes "localhost:8443/1.mnn") local_http
parse_http_url_iff_example = parse_http_url_iff (codes "localhost:8443/1.mnn") no_http local_http

-- A colon with no port is refused.
no_port :
    parse_http_url (codes "a:/x") no_http
    ≡ (false, record { host = codes "a"; path = codes "/x"; port = [] })
unfolding parse_http_url parse_port find
no_port = refl

abbrev no_sftp : SftpUrl
no_sftp = record {
  host = [];
  path = [];
  user = [];
  pass = [];
  publickey_file = [];
  privatekey_file = [];
  privatekey_pass = [];
}

abbrev key_login : Login
key_login = with_secret (codes "bob") (locked_key (codes "/k") (codes "pw"))

parse_sftp_url-write_url_example :
    parse_sftp_url (codes "bob:privkey_identifier:/kkey_passphrasepw@host/dir") no_sftp
    ≡ (true, outputs key_login (blank (codes "host") (codes "/dir")))
unfolding find
parse_sftp_url-write_url_example =
    parse_sftp_url-write_url key_login (codes "host") (codes "dir") no_sftp
      (cc, omega arith, omega arith, omega arith, (refl, refl)) (omega arith) (cc)
