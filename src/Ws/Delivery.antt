-- ===== src/Ws/Delivery.antt =====
-- How often a WebSocket download completes (src/WSCommon.cpp, src/WSLoader.cpp).
use async_iomanager.Common.{
  ℕ, ◌+◌, ◌≤◌, Bool, true, false, List, [], ◌∷◌, ◌++◌, Bytes, if◌then◌else◌, ◌≡◌, ◌≢◌, refl, arith,
  ◌⊎◌, ◌↔◌, ◌||◌, Bool-cases, inl, inr,
}
use async_iomanager.Io.{made, made-append}
use async_iomanager.Url.Http.{parse_http_url}
use async_iomanager.Ws.{
  WsDevice, State, connecting, handshaking, upgrading, writing, reading, finished, abandoned, Event,
  done, read_done, Actions, step, run, on_connect, start_ws_download, load_async, no_url,
}

-- The callbacks that the run from a state has still to make have been made when it is finished.
abbrev pub due : State → ℕ
due finished = 1
due _ = 0

pub step-due :
    (d : WsDevice) (s : State) (e : Event) → made (step d s e).1 + due s ≡ due (step d s e).0
unfolding step
step-due d s e = ground arith

run-due :
    (d : WsDevice) (s : State) (es : List Event) → made (run d s es).1 + due s ≡ due (run d s es).0
unfolding run
run-due d s [] = omega arith
run-due d s (e ∷ es) = omega (
  arith,
  step-due d s e,
  run-due d (step d s e).0 es,
  made-append (step d s e).1 (run d (step d s e).0 es).1,
)

-- Whether an event answers the pending operation.
abbrev pub is_answer : State → Event → Bool
is_answer connecting (done error) = true
is_answer handshaking (done error) = true
is_answer upgrading (done error) = true
is_answer writing (done error) = true
is_answer reading (read_done error buffer) = true
is_answer s e = false

-- How many operations the events answer.
pub answers : WsDevice → State → List Event → ℕ
answers d s [] = 0
answers d s (e ∷ es) = (if is_answer s e then 1 else 0) + answers d (step d s e).0 es

-- Whether the events fail the write of the request.
abbrev fails_write : State → Event → Bool
fails_write writing (done true) = true
fails_write s e = false

unfoldable pub write_fails : WsDevice → State → List Event → Bool
write_fails d s [] = false
write_fails d s (e ∷ es) = fails_write s e || write_fails d (step d s e).0 es

abbrev rank : State → ℕ
rank connecting = 5
rank handshaking = 4
rank upgrading = 3
rank writing = 2
rank reading = 1
rank _ = 0

rank-step :
    (d : WsDevice) (s : State) (e : Event)
    → (if is_answer s e then 1 else 0) + rank (step d s e).0 ≤ rank s
unfolding step
rank-step d s e = ground arith

rank-run :
    (d : WsDevice) (s : State) (es : List Event) → answers d s es + rank (run d s es).0 ≤ rank s
unfolding run answers
rank-run d s [] = omega arith
rank-run d s (e ∷ es) = omega (arith, rank-step d s e, rank-run d (step d s e).0 es)

-- A download is abandoned exactly when the write of its request fails.
step-abandoned :
    (d : WsDevice) (s : State) (e : Event)
    → s ≢ abandoned
    → ((step d s e).0 ≡ abandoned) ↔ (fails_write s e ≡ true)
unfolding step
step-abandoned d s e h = ground arith

run-abandoned_self : (d : WsDevice) (es : List Event) → (run d abandoned es).0 ≡ abandoned
unfolding run step
run-abandoned_self d [] = refl
run-abandoned_self d (e ∷ es) = run-abandoned_self d es

run-abandoned :
    (d : WsDevice) (s : State) (es : List Event)
    → s ≢ abandoned
    → ((run d s es).0 ≡ abandoned) ↔ (write_fails d s es ≡ true)
unfolding run write_fails
run-abandoned d s [] h = ground arith
run-abandoned d s (e ∷ es) h = elim (Bool-cases (fails_write s e)) [
  | inl y ↦ rw ((step-abandoned d s e h).1 y, y) ((λ _. refl), (λ _. run-abandoned_self d es))
  | inr n ↦ rw n (run-abandoned d (step d s e).0 es (λ a. ground (arith, step-abandoned d s e h)))
]

pub load_async-due :
    (file : Bytes) (s : State) (acts : Actions)
    → load_async file true ≡ (s, acts)
    → (made acts ≡ due s) × (s ≢ abandoned)
unfolding load_async start_ws_download
load_async-due file s acts h = ground arith

rank-le : (s : State) → rank s ≤ 5
rank-le s = ground arith

state_cases : (s : State) → (due s ≡ 1) ⊎ ((due s ≡ 0) × ((s ≡ abandoned) ⊎ (1 ≤ rank s)))
state_cases s = ground arith

-- Where the address is resolved, a `LoadASync` of the WebSocket loader makes its callback exactly
-- once; or it has not made it, and either it is not finished and still waits for an operation, of
-- which at most four were answered, or the write of its request failed. It is abandoned in that case and in no other.
pub load_async_resolved :
    (file : Bytes) (s : State) (acts : Actions) (d : WsDevice) (es : List Event)
    → load_async file true ≡ (s, acts)
    → ((made (acts ++ (run d s es).1) ≡ 1)
        ⊎ ((made (acts ++ (run d s es).1) ≡ 0)
            × (((run d s es).0 ≡ abandoned)
                ⊎ (((run d s es).0 ≢ finished) × (answers d s es ≤ 4)))))
      × (((run d s es).0 ≡ abandoned) ↔ (write_fails d s es ≡ true))
load_async_resolved file s acts d es h =
    let (counted, live) = load_async-due file s acts h in
    (
      ground (
        arith,
        made-append acts (run d s es).1,
        run-due d s es,
        rank-run d s es,
        rank-le s,
        state_cases (run d s es).0,
      ),
      run-abandoned d s es live,
    )

-- A failed write of the request loses the callback for good: whatever follows, it is not made.
pub write_failure_silent :
    (d : WsDevice) (s : State) (es : List Event)
    → s ≢ abandoned
    → write_fails d s es ≡ true
    → made (run d s es).1 ≡ 0
write_failure_silent d s es live h = ground (arith, run-due d s es, run-abandoned d s es live)

run-finished : (d : WsDevice) (es : List Event) → made (run d finished es).1 ≡ 0
unfolding run step
run-finished d [] = refl
run-finished d (e ∷ es) = run-finished d es

load_async_unresolved :
    (file : Bytes) (s : State) (acts : Actions)
    → (parse_http_url file no_url).0 ≡ true
    → load_async file false ≡ (s, acts)
    → (s ≡ connecting) × (made acts ≡ 1)
unfolding load_async start_ws_download
load_async_unresolved file s acts valid h = ground arith

-- Where the address of a valid URL is not resolved, the failure is posted and the connection to no
-- endpoint fails too: the callback is made twice, whatever else follows.
pub unresolved_twice :
    (file : Bytes) (s : State) (acts : Actions) (d : WsDevice) (es : List Event)
    → (parse_http_url file no_url).0 ≡ true
    → load_async file false ≡ (s, acts)
    → made (acts ++ (run d s (done true ∷ es)).1) ≡ 2
unfolding run step on_connect
unresolved_twice file s acts d es valid h =
    let (at, once) = load_async_unresolved file s acts valid h in
    ground (arith, made-append acts (run d s (done true ∷ es)).1, run-finished d es)
