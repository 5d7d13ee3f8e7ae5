-- ===== src/System/Settling.antt =====
-- The counter and the final callbacks of the system (src/FileManager.cpp).
use async_iomanager.Common.{
  ℕ, ◌+◌, Option, List, [], ◌∷◌, length, length-append, ◌==◌, if◌then◌else◌, ◌≡◌, refl, ap, ◌∙◌,
  arith,
}
use async_iomanager.Io.{Completion}
use async_iomanager.Manager.State.{Handlers, reading, World}
use async_iomanager.Manager.Steps.{leaks}
use async_iomanager.Manager.Counter.{Reach-IsBalanced}
use async_iomanager.Manager.Finals.{calls, count, finals_exact}
use async_iomanager.System.Interface.{Device, Shared}
use async_iomanager.System.{task_of, Job, loading, storing, asking, System, owes, tasks, Runs}
use async_iomanager.System.Refinement.{Runs-Refines}

module _ (L : Device Completion) (S : Device (Unit {0})) (D : Shared Completion)
    (h : Handlers) where
  -- How many devices have still to make their callback.
  abbrev pub live : List (Job L S D) → ℕ
  live [] = 0
  live (loading s ctx ∷ js) = (if L.due s == 0 then 1 else 0) + live js
  live (storing s t ∷ js) = (if S.due s == 0 then 1 else 0) + live js
  live (asking k ctx ∷ js) = 1 + live js

  tasks-live : (js : List (Job L S D)) → length (tasks L S D js) ≡ live js
  tasks-live [] = refl
  tasks-live (loading s ctx ∷ js) =
      ground
        (arith, tasks-live js, length-append (owes L S D (L.due s) (reading ctx)) (tasks L S D js))
  tasks-live (storing s t ∷ js) =
      ground
        (arith, tasks-live js, length-append (owes L S D (S.due s) (task_of t)) (tasks L S D js))
  tasks-live (asking k ctx ∷ js) = omega (arith, tasks-live js)

  no_tasks : {A : Type 0} (xs : List A) → length xs ≡ 0 → xs ≡ []
  no_tasks [] e = refl
  no_tasks (x ∷ xs) e = absurd (omega arith)

  -- In a run that starts with no devices and nothing counted, the counter of outstanding operations
  -- is at any time the number of the devices that have still to make their callback, and of the loads
  -- that threw after they were counted.
  pub outstanding_operations-live :
      (w : World) (s : D.Phase) (y' : System L S D) {log : List (Option ℕ)}
      → w.outstanding_operations ≡ 0
      → w.pending ≡ []
      → Runs L S D h (record { world = w; jobs = []; shared = s }) log y'
      → y'.world.outstanding_operations ≡ live y'.jobs + leaks log
  outstanding_operations-live w s y' {log} counter held r =
      let (m, reach) =
        Runs-Refines L S D h (record { world = w; jobs = []; shared = s }) y' held r in
      let size : length y'.world.pending ≡ live y'.jobs = ap length m ∙ tasks-live y'.jobs in
      let balanced : y'.world.outstanding_operations ≡ length y'.world.pending + (leaks log + 0) =
        Reach-IsBalanced h 0 w y'.world reach (rw held (omega arith)) in
      omega (arith, balanced, size)

  -- With devices that each make at most one callback, as the WebSocket device does only where its host
  -- resolves, and callbacks that come back: when in a run that starts with no devices and nothing counted no device has a callback to make,
  -- the counter of outstanding operations is the number of the loads that threw after they were
  -- counted, and each final callback was called exactly as often as the application has asked for it.
  pub settled_finals :
      (w : World) (s : D.Phase) (y' : System L S D) {log : List (Option ℕ)} (f : ℕ)
      → w.outstanding_operations ≡ 0
      → w.pending ≡ []
      → w.finals ≡ []
      → Runs L S D h (record { world = w; jobs = []; shared = s }) log y'
      → live y'.jobs ≡ 0
      → (y'.world.outstanding_operations ≡ leaks log) × (calls f y'.world.finals ≡ count f log)
  settled_finals w s y' {log} f counter held none_called r over =
      let (m, reach) =
        Runs-Refines L S D h (record { world = w; jobs = []; shared = s }) y' held r in
      (
        omega (arith, outstanding_operations-live w s y' counter held r, over),
        finals_exact h f w y'.world none_called held reach
            (no_tasks y'.world.pending (ap length m ∙ tasks-live y'.jobs ∙ over)),
      )
