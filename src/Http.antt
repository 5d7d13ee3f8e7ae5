-- ===== src/Http.antt =====
-- src/HTTPCommon.cpp and src/HTTPLoader.cpp: the download of a file over HTTPS, as a state machine.
-- A state is the operation that is pending with the lambda that waits for it; an event is the
-- answer to that operation, or a timer. The name resolution, the server name indication, the
-- sockets, TLS and the timers are Boost.Asio's and OpenSSL's: their answers are the events. The
-- lambda of a deadline's timer may still run after `CancelDeadline` if it was queued before: that
-- is the event `stale_timer`, which can cancel an operation of the next stage.
pub mod Delivery
pub mod Response
pub mod Verify
mod Tests
use async_iomanager.Common.{
  ℕ, ◌+◌, Bool, true, false, none, some, List, [], ◌∷◌, ◌++◌, Bytes, codes, find, filename, length,
  drop, if◌then◌else◌,
}
use async_iomanager.Io.{
  HttpError, ErrorCode, http_device, http_invalid_url, Files, ResultType, success, Completion,
  failed, Exception, runtime_error, Call, returned, thrown, Action, op, call, post,
}
use async_iomanager.Url.Http.{HttpUrl, parse_http_url}

pub record HttpDevice : Type 0 where
  pub http_host : Bytes
  pub http_path : Bytes
  pub http_port : Bytes
  pub parse : Bool
  pub save : Bool

-- The calls of Boost.Asio, in the order in which the code makes them.
pub data Op : Type 0 where
  async_connect async_handshake async_read : Op
  -- the `ssl::context` with its options, its `set_verify_mode( verify_none )`, the `ssl::stream`
  make_context set_verify_none make_socket : Op
  async_write : Bytes → Op
  -- `ArmDeadline` with its seconds, `CancelDeadline`, `socket->lowest_layer().cancel()`
  arm_deadline : ℕ → Op
  cancel_deadline cancel_socket : Op

abbrev pub Actions : Type 0
Actions = List (Action Op Completion)

-- The pending operation; the flag is `expired` of the deadline that guards it.
pub data State : Type 0 where
  connecting handshaking writing reading : Bool → State
  finished : State

-- How `async_read` of all data ends: without an error, at the end of the stream, or otherwise.
pub data ReadEnd : Type 0 where
  no_error eof interrupted : ReadEnd

pub data Event : Type 0 where
  -- the pending connect, handshake or write is over; the flag says that it failed
  done : Bool → Event
  -- the pending read is over, with what it read
  read_done : ReadEnd → Bytes → Event
  timer stale_timer : Event

-- The failure of a stage, by its deadline or by an error of its own.
pub failed_by : Bool → HttpError → Completion
failed_by expired e = failed (http_device (if expired then HttpError.timeout else e))

pub get_request : HttpDevice → Bytes
get_request d =
    codes "GET "
    ++ (d.http_path
        ++ (codes " HTTP/1.1\r\nHost: "
            ++ (d.http_host
                ++ codes
                    "\r\nUser-Agent: GeniusAI/1.0 (SGNS AsyncIO Manager)\r\nConnection: close\r\n\r\n")))

-- `StartHTTPGet`.
pub start_http_get : HttpDevice → State × Actions
start_http_get d = (writing false, op (arm_deadline 30) ∷ op (async_write (get_request d)) ∷ [])

-- The lambda of `async_handshake`.
pub on_handshake : HttpDevice → Bool → Bool → State × Actions
on_handshake d expired true =
    (finished, op cancel_deadline ∷ call (failed_by expired HttpError.handshake_error) ∷ [])
on_handshake d expired false = let (s, acts) = start_http_get d in (s, op cancel_deadline ∷ acts)

-- The lambda of `async_connect`.
pub on_connect : Bool → Bool → State × Actions
on_connect expired true =
    (finished, op cancel_deadline ∷ call (failed_by expired HttpError.connect_error) ∷ [])
on_connect expired false =
    (handshaking false, op cancel_deadline ∷ op (arm_deadline 10) ∷ op async_handshake ∷ [])

-- The lambda of `async_write`.
pub on_write : Bool → Bool → State × Actions
on_write expired true =
    (finished, op cancel_deadline ∷ call (failed_by expired HttpError.req_failed) ∷ [])
on_write expired false = (reading expired, op async_read ∷ [])

-- The end of the lambda of `async_read`: the header is cut off.
pub deliver : HttpDevice → Bytes → Completion
deliver d buffer = elim (find (codes "\r\n\r\n") buffer) [
  | none ↦ failed (http_device HttpError.no_header)
  | some header_end ↦ record {
    buffers = success (
        some (record {
          paths = filename d.http_path ∷ [];
          contents = drop (header_end + 4) buffer ∷ [];
        }));
    parse = d.parse;
    save = d.save;
  }
]

-- The lambda of `async_read`.
pub on_read : HttpDevice → Bool → ReadEnd → Bytes → State × Actions
on_read d expired interrupted buffer =
    (finished, op cancel_deadline ∷ call (failed_by expired HttpError.con_interrupt) ∷ [])
on_read d expired eof buffer = (finished, op cancel_deadline ∷ call (deliver d buffer) ∷ [])
on_read d expired no_error buffer = (finished, op cancel_deadline ∷ call (deliver d buffer) ∷ [])

-- The lambda of a deadline's timer, which sets `expired` and cancels the pending operation.
pub expire : State → State
expire (connecting e) = connecting true
expire (handshaking e) = handshaking true
expire (writing e) = writing true
expire (reading e) = reading true
expire finished = finished

-- One event. An event that answers no pending operation does not occur, and changes nothing.
pub step : HttpDevice → State → Event → State × Actions
unfolding on_connect on_handshake start_http_get on_write on_read expire
step d (connecting e) (done error) = on_connect e error
step d (handshaking e) (done error) = on_handshake d e error
step d (writing e) (done error) = on_write e error
step d (reading e) (read_done end buffer) = on_read d e end buffer
step d s timer = (expire s, op cancel_socket ∷ [])
step d s stale_timer = (s, op cancel_socket ∷ [])
step d s e = (s, [])

pub run : HttpDevice → State → List Event → State × Actions
run d s [] = (s, [])
run d s (e ∷ es) = let (s', acts) = step d s e in let (s'', bs) = run d s' es in (s'', acts ++ bs)

-- `s_verify_peer` after some calls of `SetVerifyPeer`, the latest first.
abbrev pub s_verify_peer : List Bool → Bool
s_verify_peer [] = true
s_verify_peer (verify ∷ calls) = verify

-- The context and the socket of a download.
pub make_tls : Bool → Actions
make_tls verify =
    op make_context
    ∷ (if verify then op make_socket ∷ [] else op set_verify_none ∷ op make_socket ∷ [])

-- `StartHTTPDownload`: the calls of `SetVerifyPeer` so far, whether the address was resolved, and the
-- reason for which the server name could not be set, if it could not.
unfoldable pub start_http_download :
    HttpDevice → List Bool → Bool → Bool → Bytes → Call (State × Actions)
start_http_download d calls resolved sni_set reason =
    if resolved
    then (if sni_set
        then returned (
          connecting false,
          make_tls (s_verify_peer calls) ++ op (arm_deadline 10) ∷ op async_connect ∷ [],
        )
        else thrown (runtime_error (codes "Failed to set SNI: " ++ reason)))
    else returned (finished, post (failed (http_device HttpError.could_not_resolve)) ∷ [])

abbrev pub device_of : HttpUrl → Bool → Bool → HttpDevice
device_of u parse save = record {
  http_host = u.host;
  http_path = u.path;
  http_port = u.port;
  parse = parse;
  save = save;
}

abbrev pub no_url : HttpUrl
no_url = record { host = []; path = []; port = [] }

-- `HTTPLoader::LoadASync`.
unfoldable pub load_async :
    Bytes → Bool → Bool → List Bool → Bool → Bool → Bytes → Call (State × Actions)
load_async file parse save calls resolved sni_set reason =
    let (valid, u) = parse_http_url file no_url in
    if valid
    then start_http_download (device_of u parse save) calls resolved sni_set reason
    else returned (finished, post (failed http_invalid_url) ∷ [])
