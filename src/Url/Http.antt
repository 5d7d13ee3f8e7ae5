-- ===== src/Url/Http.antt =====
-- src/URLStringUtil.cpp, `parseHTTPUrl`.
pub mod Laws
use async_iomanager.Common.{
  ◌+◌, Bool, true, false, none, some, Bytes, codes, is_empty, find, substr, length, if◌then◌else◌,
  ◌||◌,
}

pub record HttpUrl : Type 0 where
  pub host : Bytes
  pub path : Bytes
  pub port : Bytes

-- Lines 57 to 82, on the outputs in which host and path are set: the port behind the first colon
-- of the host, or 443.
unfoldable pub parse_port : HttpUrl → Bool × HttpUrl
parse_port out = if is_empty out.host then (false, out) else elim (find (codes ":") out.host) [
  | none ↦ (true, record out { port = codes "443" })
  | some port_index ↦
      let port = substr out.host (port_index + 1) (length out.host) in
      let host = substr out.host 0 port_index in
      if is_empty port || is_empty host
      then (false, record out { host = host; port = port })
      else (true, record out { host = host; port = port })
]

unfoldable pub parse_http_url : Bytes → HttpUrl → Bool × HttpUrl
parse_http_url url out = if is_empty url then (false, out) else elim (find (codes "/") url) [
  | none ↦ (false, out)
  | some index ↦
      parse_port (record out { host = substr url 0 index; path = substr url index (length url) })
]
