-- ===== src/Http/Delivery.antt =====
-- How often, and with what failure, an HTTPS download completes (src/HTTPCommon.cpp,
-- src/HTTPLoader.cpp).
use async_iomanager.Common.{
  ℕ, ◌+◌, ◌≤◌, Bool, true, false, List, [], ◌∷◌, ◌++◌, Bytes, if◌then◌else◌, ◌≡◌, ◌≢◌, arith, ◌⊎◌,
}
use async_iomanager.Io.{HttpError, http_device, failed, returned, callbacks, made, made-append}
use async_iomanager.Url.Http.{parse_http_url}
use async_iomanager.Http.{
  HttpDevice, State, connecting, handshaking, writing, reading, finished, Event, done, read_done,
  timer, stale_timer, interrupted, Actions, failed_by, step, run, make_tls, start_http_download,
  load_async, device_of, no_url,
}

-- The callbacks that a device has made when it is in a state: one when it is finished.
abbrev pub due : State → ℕ
due finished = 1
due _ = 0

pub step-due :
    (d : HttpDevice) (s : State) (e : Event) → made (step d s e).1 + due s ≡ due (step d s e).0
unfolding step
step-due d s e = ground arith

run-due :
    (d : HttpDevice) (s : State) (es : List Event)
    → made (run d s es).1 + due s ≡ due (run d s es).0
unfolding run
run-due d s [] = omega arith
run-due d s (e ∷ es) = omega (
  arith,
  step-due d s e,
  run-due d (step d s e).0 es,
  made-append (step d s e).1 (run d (step d s e).0 es).1,
)

-- Whether an event answers the pending operation.
abbrev pub is_answer : State → Event → Bool
is_answer (connecting e) (done error) = true
is_answer (handshaking e) (done error) = true
is_answer (writing e) (done error) = true
is_answer (reading e) (read_done end buffer) = true
is_answer s e = false

-- How many operations the events answer.
pub answers : HttpDevice → State → List Event → ℕ
answers d s [] = 0
answers d s (e ∷ es) = (if is_answer s e then 1 else 0) + answers d (step d s e).0 es

-- The operations that can still follow, the pending one included.
abbrev rank : State → ℕ
rank (connecting e) = 4
rank (handshaking e) = 3
rank (writing e) = 2
rank (reading e) = 1
rank finished = 0

rank-step :
    (d : HttpDevice) (s : State) (e : Event)
    → (if is_answer s e then 1 else 0) + rank (step d s e).0 ≤ rank s
unfolding step
rank-step d s e = ground arith

rank-run :
    (d : HttpDevice) (s : State) (es : List Event) → answers d s es + rank (run d s es).0 ≤ rank s
unfolding run answers
rank-run d s [] = omega arith
rank-run d s (e ∷ es) = omega (arith, rank-step d s e, rank-run d (step d s e).0 es)

rank-le : (s : State) → rank s ≤ 4
rank-le s = ground arith

unfinished : (s : State) → (due s ≡ 1) ⊎ ((due s ≡ 0) × (1 ≤ rank s))
unfinished s = ground arith

start-due :
    (d : HttpDevice) (calls : List Bool) (resolved sni_set : Bool) (reason : Bytes) (s : State)
    (acts : Actions)
    → start_http_download d calls resolved sni_set reason ≡ returned (s, acts)
    → made acts ≡ due s
unfolding start_http_download make_tls
start-due d calls resolved sni_set reason s acts h = ground arith

pub load_async-due :
    (file : Bytes) (parse save : Bool) (calls : List Bool) (resolved sni_set : Bool)
    (reason : Bytes) (s : State) (acts : Actions)
    → load_async file parse save calls resolved sni_set reason ≡ returned (s, acts)
    → made acts ≡ due s
unfolding load_async
load_async-due file parse save calls resolved sni_set reason s acts h =
    let u = (parse_http_url file no_url).1 in
    ground (arith, start-due (device_of u parse save) calls resolved sni_set reason s acts)

-- A `LoadASync` of the HTTPS loader that returns makes its callback exactly once, or, at any time
-- before, has not made it and still waits for an operation, of which at most three were answered:
-- whatever the URL, the answers and the timers, and also if a timer runs late.
pub load_async_once :
    (file : Bytes) (parse save : Bool) (calls : List Bool) (resolved sni_set : Bool)
    (reason : Bytes) (s : State) (acts : Actions) (d : HttpDevice) (es : List Event)
    → load_async file parse save calls resolved sni_set reason ≡ returned (s, acts)
    → (made (acts ++ (run d s es).1) ≡ 1)
      ⊎ ((made (acts ++ (run d s es).1) ≡ 0) × ((run d s es).0 ≢ finished) × (answers d s es ≤ 3))
load_async_once file parse save calls resolved sni_set reason s acts d es h = ground (
  arith,
  load_async-due file parse save calls resolved sni_set reason s acts h,
  made-append acts (run d s es).1,
  run-due d s es,
  rank-run d s es,
  rank-le s,
  unfinished (run d s es).0,
)

-- The error with which a stage fails when it was not the deadline.
abbrev pub error_of : State → HttpError
error_of (connecting e) = HttpError.connect_error
error_of (handshaking e) = HttpError.handshake_error
error_of (writing e) = HttpError.req_failed
error_of _ = HttpError.con_interrupt

-- An answer that is an error of the pending operation.
abbrev pub is_failure : State → Event → Bool
is_failure (reading e) (read_done interrupted buffer) = true
is_failure (reading e) (read_done end buffer) = false
is_failure (connecting e) (done true) = true
is_failure (handshaking e) (done true) = true
is_failure (writing e) (done true) = true
is_failure s e = false

abbrev pub expired : State → Bool
expired (connecting e) = e
expired (handshaking e) = e
expired (writing e) = e
expired (reading e) = e
expired finished = false

-- A stage that fails after its deadline's timer has run reports `TIMEOUT`; otherwise it reports its
-- own error. A late timer of an earlier stage makes no difference to this.
pub failure_reported :
    (d : HttpDevice) (s : State) (e : Event)
    → is_failure s e ≡ true
    → (callbacks (run d s (timer ∷ e ∷ [])).1 ≡ failed (http_device HttpError.timeout) ∷ [])
      × (callbacks (run d s (stale_timer ∷ e ∷ [])).1
          ≡ failed (http_device (if expired s then HttpError.timeout else error_of s)) ∷ [])
unfolding run step failed_by
failure_reported d s e h = ground arith
