-- ===== src/Ws/Tests.antt =====
-- Runs of the WebSocket download (src/WSCommon.cpp, src/WSLoader.cpp), and the theorems about it.
use async_iomanager.Common.{
  ◌≤◌, true, false, [], ◌∷◌, ◌++◌, Bytes, codes, find, ◌≡◌, ◌≢◌, length, ◌⊎◌, ◌↔◌, refl,
}
use async_iomanager.Io.{WsError, ws_device, failed, op, post, callbacks, made}
use async_iomanager.Url.Http.{parse_http_url, parse_port}
use async_iomanager.Ws.{
  finished, WsDevice, connecting, reading, abandoned, done, read_done, async_connect, step, run,
  load_async, start_ws_download,
}
use async_iomanager.Ws.Delivery.{load_async_resolved, answers, write_fails, unresolved_twice}
use async_iomanager.Ws.Payload.{payload_exact_iff, completion_with}

abbrev device : WsDevice
device = record {
  ws_host = codes "localhost";
  ws_path = codes "/dir/1.mnn";
  ws_port = codes "443";
  parse = true;
  save = false;
}

load_starts :
    load_async (codes "localhost/dir/1.mnn") true ≡ (connecting, op (async_connect true) ∷ [])
unfolding load_async start_ws_download parse_http_url parse_port find
load_starts = refl

load_goes_on : load_async (codes "nowhere/x") false ≡ (
  connecting,
  post (failed (ws_device WsError.could_not_resolve)) ∷ op (async_connect false) ∷ [],
)
unfolding load_async start_ws_download parse_http_url parse_port find
load_goes_on = refl

load_async_resolved_example :
    let acts = op (async_connect true) ∷ [] in
    let es = done false ∷ done true ∷ [] in
    ((made (acts ++ (run device connecting es).1) ≡ 1)
      ⊎ ((made (acts ++ (run device connecting es).1) ≡ 0)
          × (((run device connecting es).0 ≡ abandoned)
              ⊎ (((run device connecting es).0 ≢ finished) × (answers device connecting es ≤ 4)))))
    × (((run device connecting es).0 ≡ abandoned) ↔ (write_fails device connecting es ≡ true))
load_async_resolved_example =
    load_async_resolved (codes "localhost/dir/1.mnn") connecting (op (async_connect true) ∷ [])
      device (done false ∷ done true ∷ []) load_starts

unresolved_twice_example :
    made (
      (post (failed (ws_device WsError.could_not_resolve)) ∷ op (async_connect false) ∷ [])
      ++ (run device connecting (done true ∷ [])).1)
    ≡ 2
unfolding parse_http_url parse_port find
unresolved_twice_example =
    unresolved_twice (codes "nowhere/x") connecting
      (post (failed (ws_device WsError.could_not_resolve)) ∷ op (async_connect false) ∷ []) device
      [] refl load_goes_on

payload_exact_iff_example :
    (contents : Bytes) × (cut : Bytes) × (callbacks
        (step device reading (read_done false (codes "abcWSEOFxy"))).1
      ≡ completion_with device contents ∷ [])
    × (contents ++ cut ≡ codes "abcWSEOFxy")
    × (length cut ≡ 5)
    × ((contents ≡ codes "abc") ↔ (codes "xy" ≡ []))
payload_exact_iff_example = payload_exact_iff device (codes "abc") (codes "xy")
