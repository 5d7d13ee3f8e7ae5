-- ===== src/Ws.antt =====
-- src/WSCommon.cpp and src/WSLoader.cpp: the download of a file over a secure WebSocket, as a state
-- machine. A state is the pending operation of Boost.Asio or Boost.Beast with the lambda that waits
-- for it, and an event is the answer to it.
pub mod Delivery
pub mod Payload
mod Tests
use async_iomanager.Common.{
  ◌-◌, Bool, true, false, some, List, [], ◌∷◌, ◌++◌, Bytes, codes, filename, length, take,
  if◌then◌else◌,
}
use async_iomanager.Io.{
  WsError, ws_device, ws_invalid_url, success, Completion, failed, Action, op, call, post,
}
use async_iomanager.Url.Http.{HttpUrl, parse_http_url}

pub record WsDevice : Type 0 where
  pub ws_host : Bytes
  pub ws_path : Bytes
  pub ws_port : Bytes
  pub parse : Bool
  pub save : Bool

pub data Op : Type 0 where
  -- the flag says that there are endpoints to connect to
  async_connect : Bool → Op
  async_handshake : Op
  -- the WebSocket handshake, with host and path
  websocket_handshake : Bytes → Bytes → Op
  async_write : Bytes → Op
  async_read_until : Bytes → Op

abbrev pub Actions : Type 0
Actions = List (Action Op Completion)

pub data State : Type 0 where
  connecting handshaking upgrading writing reading : State
  -- nothing is pending any more: the callback was made, or will never be
  finished abandoned : State

pub data Event : Type 0 where
  -- the pending operation is over; the flag says that it failed
  done : Bool → Event
  -- the pending read is over, with all that the buffer holds
  read_done : Bool → Bytes → Event

-- The last five bytes of the buffer are taken for the end marker. A read that succeeds has found
-- "WSEOF" in the buffer, which therefore holds at least five bytes.
pub deliver : WsDevice → Bytes → Completion
deliver d buffer = record {
  buffers = success (
      some (record {
        paths = filename d.ws_path ∷ [];
        contents = take (length buffer - 5) buffer ∷ [];
      }));
  parse = d.parse;
  save = d.save;
}

-- `StartWSGet`.
pub start_ws_get : WsDevice → State × Actions
start_ws_get d = (upgrading, op (websocket_handshake d.ws_host d.ws_path) ∷ [])

-- The lambdas of `StartWSDownload`.
pub on_handshake : WsDevice → Bool → State × Actions
on_handshake d true = (finished, call (failed (ws_device WsError.handshake_error)) ∷ [])
on_handshake d false = start_ws_get d

pub on_connect : Bool → State × Actions
on_connect true = (finished, call (failed (ws_device WsError.connect_error)) ∷ [])
on_connect false = (handshaking, op async_handshake ∷ [])

-- The lambdas of `StartWSGet`. The one of the write logs its error and makes no callback.
pub on_upgrade : Bool → State × Actions
on_upgrade true = (finished, call (failed (ws_device WsError.ws_handshake_error)) ∷ [])
on_upgrade false = (writing, op (async_write (codes "GET_FILE")) ∷ [])

pub on_write : Bool → State × Actions
on_write true = (abandoned, [])
on_write false = (reading, op (async_read_until (codes "WSEOF")) ∷ [])

pub on_read : WsDevice → Bool → Bytes → State × Actions
on_read d true buffer = (finished, call (failed (ws_device WsError.no_eof)) ∷ [])
on_read d false buffer = (finished, call (deliver d buffer) ∷ [])

-- One event. An event that answers no pending operation does not occur, and changes nothing.
pub step : WsDevice → State → Event → State × Actions
unfolding on_connect on_handshake start_ws_get on_upgrade on_write on_read
step d connecting (done error) = on_connect error
step d handshaking (done error) = on_handshake d error
step d upgrading (done error) = on_upgrade error
step d writing (done error) = on_write error
step d reading (read_done error buffer) = on_read d error buffer
step d s e = (s, [])

pub run : WsDevice → State → List Event → State × Actions
run d s [] = (s, [])
run d s (e ∷ es) = let (s', acts) = step d s e in let (s'', bs) = run d s' es in (s'', acts ++ bs)

-- `StartWSDownload`. Where the address is not resolved a failure is posted, and the function goes
-- on to connect, to no endpoint.
pub start_ws_download : Bool → State × Actions
start_ws_download resolved = (
  connecting,
  (if resolved then [] else post (failed (ws_device WsError.could_not_resolve)) ∷ [])
      ++ op (async_connect resolved) ∷ [],
)

abbrev pub no_url : HttpUrl
no_url = record { host = []; path = []; port = [] }

-- `WSLoader::LoadASync`.
pub load_async : Bytes → Bool → State × Actions
load_async file resolved =
    let (valid, u) = parse_http_url file no_url in
    if valid then start_ws_download resolved else (finished, post (failed ws_invalid_url) ∷ [])

-- The device that it makes for a valid URL.
abbrev pub device_of : HttpUrl → Bool → Bool → WsDevice
device_of u parse save = record {
  ws_host = u.host;
  ws_path = u.path;
  ws_port = u.port;
  parse = parse;
  save = save;
}
