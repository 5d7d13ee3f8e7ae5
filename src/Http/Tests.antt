-- ===== src/Http/Tests.antt =====
-- Runs of the HTTPS download (src/HTTPCommon.cpp, src/HTTPLoader.cpp), and the theorems about it.
use async_iomanager.Common.{
  ◌≤◌, true, false, some, [], ◌∷◌, ◌++◌, Bytes, codes, find, filename, ◌≡◌, ◌≢◌, ◌⊎◌, refl,
}
use async_iomanager.Io.{success, Completion, returned, op, callbacks, made}
use async_iomanager.Url.Http.{parse_http_url, parse_port}
use async_iomanager.Http.{
  HttpDevice, connecting, reading, finished, done, read_done, timer, stale_timer, eof, arm_deadline,
  async_connect, make_context, make_socket, make_tls, Actions, step, run, load_async,
  start_http_download, deliver,
}
use async_iomanager.Http.Delivery.{load_async_once, answers}
use async_iomanager.Http.Verify.{
  Tls, verify_none, mode, connects, handshakes, load_async-handshakes,
}
use async_iomanager.Http.Response.{Outcome, step-Outcome}

abbrev device : HttpDevice
device = record {
  http_host = codes "localhost";
  http_path = codes "/dir/1.mnn";
  http_port = codes "443";
  parse = false;
  save = true;
}

abbrev started_acts : Actions
started_acts = op make_context ∷ op make_socket ∷ op (arm_deadline 10) ∷ op async_connect ∷ []

abbrev reply : Bytes
reply = codes "HTTP/1.1 200 OK\r\n\r\nabc"

-- A whole download.
whole_download :
    callbacks
      (run device
        (connecting false)
        (done false ∷ done false ∷ done false ∷ read_done eof reply ∷ [])).1
    ≡ record {
      buffers = success (some (record { paths = codes "1.mnn" ∷ []; contents = codes "abc" ∷ [] }));
      parse = false;
      save = true;
    }
      ∷ []
unfolding run step deliver find filename
whole_download = refl

load_starts :
    load_async (codes "localhost/dir/1.mnn") false true [] true true []
    ≡ returned (connecting false, started_acts)
unfolding load_async start_http_download make_tls parse_http_url parse_port find
load_starts = refl

load_async_once_example :
    let acts = started_acts in
    let es = timer ∷ done true ∷ [] in
    (made (acts ++ (run device (connecting false) es).1) ≡ 1)
    ⊎ ((made (acts ++ (run device (connecting false) es).1) ≡ 0)
        × ((run device (connecting false) es).0 ≢ finished)
        × (answers device (connecting false) es ≤ 3))
load_async_once_example =
    load_async_once (codes "localhost/dir/1.mnn") false true [] true true [] (connecting false)
      (started_acts) device (timer ∷ done true ∷ []) load_starts

step-Outcome_example :
    (c : Completion) × (callbacks (step device (reading false) (read_done eof reply)).1 ≡ c ∷ [])
    × Outcome device reply c
step-Outcome_example = step-Outcome device false eof reply (λ e. cc)

-- With the mode of OpenSSL, and no call of `SetVerifyPeer`.
abbrev no_tls : Tls
no_tls = record { context = verify_none; socket = verify_none }

-- The deadline of the connection runs late.
load_async-handshakes_example :
    handshakes verify_none no_tls
      (started_acts ++ (run device (connecting false) (stale_timer ∷ done false ∷ [])).1)
    ≡ mode verify_none [] ∷ []
unfolding connects step
load_async-handshakes_example =
    load_async-handshakes verify_none no_tls (codes "localhost/dir/1.mnn") false true [] true true
      [] (connecting false) started_acts device (stale_timer ∷ done false ∷ []) load_starts
