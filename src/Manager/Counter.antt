-- ===== src/Manager/Counter.antt =====
-- The counter of outstanding operations (`IncrementOutstandingOperations`,
-- `DecrementOutstandingOperations` of src/FileManager.cpp) against the callbacks that are still to
-- be made, over every interleaving of the application's calls and the handlers' callbacks.
use async_iomanager.Common.{
  ℕ, suc, ◌+◌, Bool, true, false, Option, none, some, List, [], ◌∷◌, Bytes, ◌≡◌, ◌↔◌, refl, arith,
  ◌∙◌, length, ◌⊎◌, inl, inr,
}
use async_iomanager.Io.{thrown, Exception}
use async_iomanager.Manager.State.{Handlers, Task, World}
use async_iomanager.Manager.Maps.{find}
use async_iomanager.Manager.Steps.{
  AppCall, loads, load_refused, load_leaks, requests, leaks, leaks-append, load_async_refused,
  load_async_thrown, saves, save_throws, Callback, Reach, here, called, back, Ended, HandedOn,
  Taken, Callback-cases, load_async-Started, save_async-Started, save_async_thrown,
}
use async_iomanager.Manager.{increment_outstanding_operations, load_async, components_of}

-- The counter exceeds the number of callbacks still to be made by `k`.
abbrev pub IsBalanced : ℕ → World → Type 0
IsBalanced k w = w.outstanding_operations ≡ length w.pending + k

pub AppCall-IsBalanced :
    (h : Handlers) (k : ℕ) (w w' : World) (c : AppCall h w w')
    → IsBalanced k w
    → IsBalanced (leaks (requests h c) + k) w'
unfolding increment_outstanding_operations
AppCall-IsBalanced h k w w' (loads url parse save f savetype d e) b =
    omega (arith, load_async-Started h url parse save f savetype d w w' e)
AppCall-IsBalanced h k w w' (load_refused url parse save f savetype e missing r) b =
    rw (load_async_refused h url parse save f savetype e w w' missing r) (omega arith)
AppCall-IsBalanced h k w w' (load_leaks url parse save f savetype e l found r) b =
    rw (load_async_thrown h url parse save f savetype e l w w' found r) (omega arith)
AppCall-IsBalanced h k w w' (saves url value none e) b =
    omega (arith, save_async-Started h url value none w w' e)
AppCall-IsBalanced h k w w' (saves url value (some f) e) b =
    omega (arith, save_async-Started h url value (some f) w w' e)
AppCall-IsBalanced h k w w' (save_throws url value f e r) b =
    ground (arith, save_async_thrown h url value f e w w' r)

pub Callback-IsBalanced :
    (h : Handlers) (k : ℕ) (w w' : World) → Callback h w w' → IsBalanced k w → IsBalanced k w'
Callback-IsBalanced h k w w' c b = ground (arith, Callback-cases h w w' c)

-- The same over a sequence of calls, and of callbacks that come back.
pub Reach-IsBalanced :
    (h : Handlers) (k : ℕ) (w : World) {log : List (Option ℕ)} (w' : World)
    → Reach h w log w'
    → IsBalanced k w
    → IsBalanced (leaks log + k) w'
Reach-IsBalanced h k w w' here b = omega arith
Reach-IsBalanced h k w w' (called {log = log} {u = u} r c) b =
    let earlier = Reach-IsBalanced h k w u r b in
    omega
      (arith, AppCall-IsBalanced h (leaks log + k) u w' c earlier, leaks-append (requests h c) log)
Reach-IsBalanced h k w w' (back {log = log} {u = u} r c) b =
    Callback-IsBalanced h (leaks log + k) u w' c (Reach-IsBalanced h k w u r b)

Ended-iff :
    (v w' : World) (p : List Task)
    → v.pending ≡ p
    → v.outstanding_operations ≡ length p + 1
    → v.stopped ≡ false
    → Ended v w'
    → (w'.stopped ≡ true) ↔ (w'.pending ≡ [])
Ended-iff v w' [] e b running d = ground arith
Ended-iff v w' (t ∷ p) e b running d = ground arith

HandedOn-iff :
    (v w' : World) → v.stopped ≡ false → HandedOn v w' → (w'.stopped ≡ true) ↔ (w'.pending ≡ [])
HandedOn-iff v w' running d = ground arith

-- Where the counter is exact and the io_context runs, a callback stops the io_context exactly when
-- it leaves no callback to be made.
pub Callback-stops :
    (h : Handlers) (w w' : World)
    → IsBalanced 0 w
    → w.stopped ≡ false
    → Callback h w w'
    → (w'.stopped ≡ true) ↔ (w'.pending ≡ [])
Callback-stops h w w' b running c = by_case (Callback-cases h w w' c)
  where
    by_case :
        (v : World) × Taken w v × (Ended v w' ⊎ HandedOn v w')
        → (w'.stopped ≡ true) ↔ (w'.pending ≡ [])
    by_case (v, t, inl d) = Ended-iff v w' v.pending refl (omega (arith, t)) (ground arith) d
    by_case (v, t, inr d) = HandedOn-iff v w' (ground arith) d

AppCall-stopped :
    (h : Handlers) (k : ℕ) (w w' : World)
    → AppCall h w w'
    → IsBalanced (suc k) w
    → w'.stopped ≡ w.stopped
unfolding increment_outstanding_operations
AppCall-stopped h k w w' (loads url parse save f savetype d e) b =
    (load_async-Started h url parse save f savetype d w w' e).running
AppCall-stopped h k w w' (load_refused url parse save f savetype e missing r) b =
    rw (load_async_refused h url parse save f savetype e w w' missing r) refl
AppCall-stopped h k w w' (load_leaks url parse save f savetype e l found r) b =
    rw (load_async_thrown h url parse save f savetype e l w w' found r) refl
AppCall-stopped h k w w' (saves url value f e) b = (save_async-Started h url value f w w' e).running
AppCall-stopped h k w w' (save_throws url value f e r) b =
    ground (arith, save_async_thrown h url value f e w w' r)

Callback-stopped :
    (h : Handlers) (k : ℕ) (w w' : World)
    → Callback h w w'
    → IsBalanced (suc k) w
    → w'.stopped ≡ w.stopped
Callback-stopped h k w w' c b = ground (arith, Callback-cases h w w' c)

-- Where callbacks are lost, the io_context is neither stopped nor made to run.
pub Reach-stopped :
    (h : Handlers) (k : ℕ) (w : World) {log : List (Option ℕ)} (w' : World)
    → Reach h w log w'
    → IsBalanced (suc k) w
    → w'.stopped ≡ w.stopped
Reach-stopped h k w w' here b = refl
Reach-stopped h k w w' (called {log = log} {u = u} r c) b =
    AppCall-stopped h (leaks log + k) u w' c (omega (arith, Reach-IsBalanced h (suc k) w u r b))
    ∙ Reach-stopped h k w u r b
Reach-stopped h k w w' (back {log = log} {u = u} r c) b =
    Callback-stopped h (leaks log + k) u w' c (omega (arith, Reach-IsBalanced h (suc k) w u r b))
    ∙ Reach-stopped h k w u r b

-- A `LoadASync` whose registered loader throws leaves the counter one too high for good: whatever
-- calls and callbacks follow, the io_context is not stopped by them.
pub leak_never_stops :
    (h : Handlers) (url : Bytes) (parse save : Bool) (f : ℕ) (savetype : Bytes) (e : Exception)
    (l k : ℕ) {log : List (Option ℕ)} (w w' w'' : World)
    → IsBalanced k w
    → w.stopped ≡ false
    → find (components_of url).prefix w.loaders ≡ some l
    → load_async h url parse save f savetype w ≡ (thrown e, w')
    → Reach h w' log w''
    → w''.stopped ≡ false
unfolding increment_outstanding_operations
leak_never_stops h url parse save f savetype e l k w w' w'' b running found r reach =
    let raised = load_async_thrown h url parse save f savetype e l w w' found r in
    Reach-stopped h k w' w'' reach (rw raised (omega arith)) ∙ rw raised running
