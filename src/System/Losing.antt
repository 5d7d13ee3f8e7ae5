-- ===== src/System/Losing.antt =====
-- What the loss of a request of the shared IPFS device (src/IPFSCommon.cpp,
-- `StartFindingPeersWithRetry`) means for `FileManager` (src/FileManager.cpp).
use async_iomanager.Common.{
  ℕ, zero, suc, ◌≤◌, ◌<◌, Bool, false, Option, none, some, List, [], ◌∷◌, ◌++◌, Bool-cases, ◌≡◌,
  ◌≢◌, inl, inr, refl, sym, ap, ◌∙◌, length, arith,
}
use async_iomanager.Io.{Completion}
use async_iomanager.Ipfs.{IpfsDevice, take_at, new_device}
use async_iomanager.Ipfs.Requests.{count}
use async_iomanager.Ipfs.Overlap.{step-aborted, load_async-aborted}
use async_iomanager.Manager.State.{Handlers, Task, reading, World}
use async_iomanager.Manager.Steps.{leaks}
use async_iomanager.Manager.Counter.{IsBalanced, Reach-IsBalanced, Reach-stopped}
use async_iomanager.System.Interface.{Device}
use async_iomanager.System.{
  Job, asking, System, tasks, Step, starts_load, refuses_load, leaks_load, starts_save,
  refuses_save, goes_on, loaded, writes_on, stored, starts_shared, shared_goes_on, answered, Runs,
  begin,
}
use async_iomanager.System.Tasks.{Matches, tasks-owing}
use async_iomanager.System.Refinement.{Runs-Refines}
use async_iomanager.System.Stopping.{Serves, begin_serving, then_serve, Runs-Serves, Serves-stops}
use async_iomanager.System.Sharing.{Runs-Holds, Asks, asked_for-Asks}
use async_iomanager.System.SharedIpfs.{Input, event, run_posted, step, take_posted, shared_ipfs}

step-keeps : (k : ℕ) (d : IpfsDevice) (i : Input) → count k d.aborted ≤ count k (step d i).0.aborted
step-keeps k d (event e) = step-aborted k d e
step-keeps k d (run_posted i) = by_place (take_at i d.posted)
  where
    by_place :
        (x : Option ((ℕ × Completion) × List (ℕ × Completion)))
        → count k d.aborted ≤ count k (take_posted d x).0.aborted
    by_place none = omega arith
    by_place (some (p, ps)) = omega arith

module _ (L : Device Completion) (S : Device (Unit {0})) (h : Handlers) where
  lost-kept :
      (k : ℕ) (y y' : System L S shared_ipfs) {asked : List (Option ℕ)}
      → Step L S shared_ipfs h y asked y'
      → count k y.shared.aborted ≤ count k y'.shared.aborted
  lost-kept k y y' (starts_load url parse save f savetype d s w fresh e) = omega arith
  lost-kept k y y' (refuses_load url parse save f savetype e w missing r) = omega arith
  lost-kept k y y' (leaks_load url parse save f savetype e l w found r) = omega arith
  lost-kept k y y' (starts_save url value f s w fresh e) = omega arith
  lost-kept k y y' (refuses_save url value f e w r) = omega arith
  lost-kept k y y' (goes_on before after s ctx i e none_made) = omega arith
  lost-kept k y y' (loaded before after s ctx i c t w e one fresh r) = omega arith
  lost-kept k y y' (writes_on before after s t i e none_made) = omega arith
  lost-kept k y y' (stored before after s t i e one) = omega arith
  lost-kept k y y' (starts_shared url parse save f savetype d n a w fresh e) =
      omega (arith, ap (count k) (load_async-aborted _ n parse save a.listens a.is_cid y.shared))
  lost-kept k y y' (shared_goes_on i none_made) = step-keeps k y.shared i
  lost-kept k y y' (answered before after n ctx i c t w e one fresh r) = step-keeps k y.shared i

  served-kept :
      (k : ℕ) (y y' : System L S shared_ipfs)
      → Serves L S shared_ipfs h y y'
      → count k y.shared.aborted ≤ count k y'.shared.aborted
  served-kept k y y' begin_serving = omega arith
  served-kept k y y' (then_serve {u = u} r s d) =
      omega (arith, lost-kept k u y' s, served-kept k y u r)

  -- A lost request keeps its callback among those to be made.
  Asks-tasks :
      (k : ℕ) (js : List (Job L S shared_ipfs))
      → Asks L S shared_ipfs k js
      → tasks L S shared_ipfs js ≢ []
  Asks-tasks k js (before, ctx, after, e) none_left =
      not_empty (tasks L S shared_ipfs before) (tasks L S shared_ipfs after) (reading ctx) (
        sym none_left
        ∙ ap (tasks L S shared_ipfs) e
        ∙ tasks-owing L S shared_ipfs before after (asking k ctx) (reading ctx) refl)
    where
      not_empty : (ts us : List Task) (t : Task) → [] ≡ ts ++ t ∷ us → ⊥
      not_empty [] us t e = cc
      not_empty (x ∷ ts) us t e = cc

  -- The start: nothing is counted, and the shared device is unused.
  abbrev pub unused : World → Bool → System L S shared_ipfs
  unused w dht = record { world = w; jobs = []; shared = new_device dht }

  -- A state with a lost request, on the way from there, where some loads were counted and threw.
  record HasLost (leaked : ℕ) (y : System L S shared_ipfs) : Type 0 where
    matches : Matches L S shared_ipfs y
    balanced : IsBalanced leaked y.world
    callback_left : tasks L S shared_ipfs y.jobs ≢ []

  Runs-HasLost :
      (w : World) (dht : Bool) (y : System L S shared_ipfs) (k : ℕ) {log : List (Option ℕ)}
      → w.outstanding_operations ≡ 0
      → w.pending ≡ []
      → Runs L S shared_ipfs h (unused w dht) log y
      → 0 < count k y.shared.aborted
      → HasLost (leaks log) y
  Runs-HasLost w dht y k {log} counter held r lost =
      let (m, reach) = Runs-Refines L S shared_ipfs h (unused w dht) y held r in
      let holds = Runs-Holds L S shared_ipfs k h (unused w dht) y r refl in
      record {
        matches = m;
        balanced =
            let b = Reach-IsBalanced h 0 w y.world reach (rw held (omega (arith, counter))) in
            omega (arith, b);
        callback_left =
            Asks-tasks k y.jobs
              (asked_for-Asks L S shared_ipfs k y.jobs (omega (arith, holds, lost)));
      }

  some_counted :
      (leaked : ℕ) (w : World) (ts : List Task)
      → w.pending ≡ ts
      → ts ≢ []
      → IsBalanced leaked w
      → 0 < w.outstanding_operations
  some_counted leaked w [] e left b = absurd (left refl)
  some_counted leaked w (t ∷ ts) e left b = omega (arith, ap length e, b)

  still_runs :
      (leaked : ℕ) (y y' : System L S shared_ipfs)
      → y.world.stopped ≡ false
      → HasLost leaked y
      → tasks L S shared_ipfs y'.jobs ≢ []
      → Serves L S shared_ipfs h y y'
      → y'.world.stopped ≡ false
  still_runs zero y y' running lost callback_left served =
      let stops =
        Serves-stops L S shared_ipfs h y y' lost.matches lost.balanced running
          (λ none_held. lost.callback_left (sym lost.matches ∙ none_held)) served in
      elim (Bool-cases y'.world.stopped) [
        | inl over ↦ absurd (callback_left (stops.0 over))
        | inr on ↦ on
      ]
  still_runs (suc leaked) y y' running lost callback_left served =
      let (m, reach) =
        Runs-Refines L S shared_ipfs h y y' lost.matches
          (Runs-Serves L S shared_ipfs h y y y' begin served) in
      Reach-stopped h leaked y.world y'.world reach lost.balanced ∙ running

  -- With other devices that each make at most one callback, as the WebSocket device does only where
  -- its host resolves, and callbacks that come back, from a start with nothing counted and an unused
  -- shared device: once a request of that device is lost while the io_context runs, the io_context is
  -- never stopped by the devices, whatever they do and however the other operations end, and at least
  -- one operation stays counted.
  pub lost_never_stops :
      (w : World) (dht : Bool) (y y' : System L S shared_ipfs) (k : ℕ) {log : List (Option ℕ)}
      → w.outstanding_operations ≡ 0
      → w.pending ≡ []
      → Runs L S shared_ipfs h (unused w dht) log y
      → y.world.stopped ≡ false
      → 0 < count k y.shared.aborted
      → Serves L S shared_ipfs h y y'
      → (y'.world.stopped ≡ false) × (0 < y'.world.outstanding_operations)
  lost_never_stops w dht y y' k {log} counter held r running lost served =
      let before = Runs-HasLost w dht y k counter held r lost in
      let after =
        Runs-HasLost w dht y' k counter held
          (Runs-Serves L S shared_ipfs h (unused w dht) y y' r served)
          (omega (arith, lost, served-kept k y y' served)) in
      (
        still_runs (leaks log) y y' running before after.callback_left served,
        some_counted (leaks log) y'.world (tasks L S shared_ipfs y'.jobs) after.matches
            after.callback_left after.balanced,
      )
