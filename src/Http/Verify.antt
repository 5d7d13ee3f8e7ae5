-- ===== src/Http/Verify.antt =====
-- Whether an HTTPS download verifies its server (src/HTTPCommon.cpp, `s_verify_peer`). What a new
-- `ssl::context` has as its mode is OpenSSL's, and a parameter; a new `ssl::stream` takes the mode that
-- its context then has.
use async_iomanager.Common.{
  Bool, true, false, List, [], ◌∷◌, ◌++◌, All, All-append, Bytes, ◌⊎◌, inl, inr, Bool-cases, arith,
  if◌then◌else◌, ◌||◌, ◌∙◌, ◌≡◌, refl,
}
use async_iomanager.Io.{Action, op, Completion, returned}
use async_iomanager.Url.Http.{parse_http_url}
use async_iomanager.Http.{
  HttpDevice, State, connecting, handshaking, finished, Event, done, read_done, timer, stale_timer,
  Op, make_context, set_verify_none, make_socket, async_handshake, arm_deadline, async_connect,
  Actions, step, run, s_verify_peer, make_tls, start_http_download, load_async, device_of, no_url,
}

pub data VerifyMode : Type 0 where
  verify_none verify_peer : VerifyMode

-- The modes of the context and of the socket.
pub record Tls : Type 0 where
  pub context : VerifyMode
  pub socket : VerifyMode

-- What an action does to them, where a new context has the mode `initial`.
abbrev pub tls_after : VerifyMode → Action Op Completion → Tls → Tls
tls_after initial (op make_context) t = record t { context = initial }
tls_after initial (op set_verify_none) t = record t { context = verify_none }
tls_after initial (op make_socket) t = record t { socket = t.context }
tls_after initial a t = t

abbrev pub is_handshake : Action Op Completion → Bool
is_handshake (op async_handshake) = true
is_handshake a = false

-- The modes with which handshakes are started.
abbrev pub handshakes : VerifyMode → Tls → Actions → List VerifyMode
handshakes initial t [] = []
handshakes initial t (a ∷ acts) =
    let rest = handshakes initial (tls_after initial a t) acts in
    if is_handshake a then t.socket ∷ rest else rest

-- Whether the connection is made, or the download over.
abbrev pub connected : State → Bool
connected (connecting e) = false
connected s = true

step-connected :
    (d : HttpDevice) (s : State) (e : Event)
    → connected s ≡ true
    → All (λ a. is_handshake a ≡ false) (step d s e).1 × (connected (step d s e).0 ≡ true)
unfolding step
step-connected d s e c = ground arith

-- From there on no handshake is started.
run-connected :
    (d : HttpDevice) (s : State) (es : List Event)
    → connected s ≡ true
    → All (λ a. is_handshake a ≡ false) (run d s es).1
unfolding run
run-connected d s [] c = tt
run-connected d s (e ∷ es) c =
    let (none_started, c') = step-connected d s e c in
    All-append (λ a. is_handshake a ≡ false) (step d s e).1 (run d (step d s e).0 es).1 none_started
      (run-connected d (step d s e).0 es c')

module _ (initial : VerifyMode) where
  no_handshakes :
      (t : Tls) (acts : Actions)
      → All (λ a. is_handshake a ≡ false) acts
      → handshakes initial t acts ≡ []
  no_handshakes t [] k = refl
  no_handshakes t (a ∷ acts) (k, ks) = rw k (no_handshakes (tls_after initial a t) acts ks)

-- What a load starts with.
start-cases :
    (d : HttpDevice) (calls : List Bool) (resolved sni_set : Bool) (reason : Bytes) (s : State)
    (acts : Actions)
    → start_http_download d calls resolved sni_set reason ≡ returned (s, acts)
    → ((s ≡ finished) × All (λ a. is_handshake a ≡ false) acts)
      ⊎ ((s ≡ connecting false)
          × (acts ≡ make_tls (s_verify_peer calls) ++ op (arm_deadline 10) ∷ op async_connect ∷ []))
unfolding start_http_download
start-cases d calls resolved sni_set reason s acts h = ground arith

load-cases :
    (file : Bytes) (parse save : Bool) (calls : List Bool) (resolved sni_set : Bool)
    (reason : Bytes) (s : State) (acts : Actions)
    → load_async file parse save calls resolved sni_set reason ≡ returned (s, acts)
    → ((s ≡ finished) × All (λ a. is_handshake a ≡ false) acts)
      ⊎ ((s ≡ connecting false)
          × (acts ≡ make_tls (s_verify_peer calls) ++ op (arm_deadline 10) ∷ op async_connect ∷ []))
unfolding load_async
load-cases file parse save calls resolved sni_set reason s acts h =
    let u = (parse_http_url file no_url).1 in
    ground (arith, start-cases (device_of u parse save) calls resolved sni_set reason s acts)

-- The mode that the handshakes of a download have, which starts while `SetVerifyPeer` was called so.
abbrev pub mode : VerifyMode → List Bool → VerifyMode
mode initial calls = if s_verify_peer calls then initial else verify_none

none_started :
    (initial : VerifyMode) (t : Tls) (acts : Actions) (d : HttpDevice) (s : State) (es : List Event)
    → All (λ a. is_handshake a ≡ false) acts
    → connected s ≡ true
    → handshakes initial t (acts ++ (run d s es).1) ≡ []
none_started initial t acts d s es none_made c = no_handshakes initial t (acts ++ (run d s es).1) (
    All-append (λ a. is_handshake a ≡ false) acts (run d s es).1 none_made (run-connected d s es c))

-- Whether the events have the connection succeed.
abbrev connects_now : State → Event → Bool
connects_now (connecting e) (done false) = true
connects_now s e = false

unfoldable pub connects : HttpDevice → State → List Event → Bool
connects d s [] = false
connects d s (e ∷ es) = connects_now s e || connects d (step d s e).0 es

step-connects_now :
    (d : HttpDevice) (s : State) (e : Event)
    → connected s ≡ true
    → (connects_now s e ≡ false) × (connected (step d s e).0 ≡ true)
unfolding step
step-connects_now d s e c = ground arith

connects-connected :
    (d : HttpDevice) (s : State) (es : List Event) → connected s ≡ true → connects d s es ≡ false
unfolding connects
connects-connected d s [] c = refl
connects-connected d s (e ∷ es) c =
    let (none_now, c') = step-connects_now d s e c in
    rw none_now (connects-connected d (step d s e).0 es c')

module _ (initial : VerifyMode) (t : Tls) (d : HttpDevice) where
  -- A run that has nothing more to connect.
  quiet :
      (s : State) (es : List Event) → connected s ≡ true → handshakes initial t (run d s es).1 ≡ []
  quiet s es c = no_handshakes initial t (run d s es).1 (run-connected d s es c)

  run-handshakes :
      (e : Bool) (es : List Event)
      → handshakes initial t (run d (connecting e) es).1
        ≡ (if connects d (connecting e) es then t.socket ∷ [] else [])
  unfolding run step connects
  run-handshakes e [] = refl
  run-handshakes e (done true ∷ es) =
      quiet finished es refl ∙ rw (connects-connected d finished es refl) refl
  run-handshakes e (done false ∷ es) = rw (quiet (handshaking false) es refl) refl
  run-handshakes e (read_done end buffer ∷ es) = run-handshakes e es
  run-handshakes e (timer ∷ es) = run-handshakes true es
  run-handshakes e (stale_timer ∷ es) = run-handshakes e es

started-handshakes :
    (initial : VerifyMode) (calls : List Bool) (t : Tls) (d : HttpDevice) (es : List Event)
    → handshakes initial t (
        (make_tls (s_verify_peer calls) ++ op (arm_deadline 10) ∷ op async_connect ∷ [])
        ++ (run d (connecting false) es).1)
      ≡ (if connects d (connecting false) es then mode initial calls ∷ [] else [])
unfolding make_tls
started-handshakes initial calls t d es = elim (Bool-cases (s_verify_peer calls)) [
  | inl on ↦
      rw on (run-handshakes initial (record { context = initial; socket = initial }) d false es)
  | inr off ↦
      rw off
        (run-handshakes initial (record { context = verify_none; socket = verify_none }) d false es)
]

-- Whatever the URL, the answers and the timers, a download of the HTTPS loader starts a handshake
-- just where its connection succeeds, and then one; with the mode that a new context has, or without
-- verifying the server where the last call of `SetVerifyPeer` turned that off.
pub load_async-handshakes :
    (initial : VerifyMode) (t : Tls) (file : Bytes) (parse save : Bool) (calls : List Bool)
    (resolved sni_set : Bool) (reason : Bytes) (s : State) (acts : Actions) (d : HttpDevice)
    (es : List Event)
    → load_async file parse save calls resolved sni_set reason ≡ returned (s, acts)
    → handshakes initial t (acts ++ (run d s es).1)
      ≡ (if connects d s es then mode initial calls ∷ [] else [])
load_async-handshakes initial t file parse save calls resolved sni_set reason s acts d es h =
    elim (load-cases file parse save calls resolved sni_set reason s acts h) [
      | inl (over, none_made) ↦ rw over (
          none_started initial t acts d finished es none_made refl
          ∙ rw (connects-connected d finished es refl) refl)
      | inr (waits, made) ↦ rw (made, waits) (started-handshakes initial calls t d es)
    ]
