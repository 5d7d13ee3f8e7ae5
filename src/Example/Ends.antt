-- ===== src/Example/Ends.antt =====
-- What becomes of a run of the program (example/MNNExample.cpp) with `FileManager`
-- (src/FileManager.cpp) and the devices of its loads.
use async_iomanager.Common.{
  ℕ, suc, ◌+◌, true, Option, List, [], ◌∷◌, Bytes, length, All, ltb, subst, if◌then◌else◌, ◌≡◌, ◌≢◌,
  ◌⊎◌, inl, inr, refl, ◌↔◌, sym, ap, ◌∙◌, arith,
}
use async_iomanager.Io.{Completion, returned, thrown, undefined, Exception, Call}
use async_iomanager.Manager.State.{Handlers, Task, World}
use async_iomanager.Manager.Counter.{IsBalanced, Reach-IsBalanced}
use async_iomanager.Manager.Finals.{calls, count, owed, accounted, Reach-accounted}
use async_iomanager.System.Interface.{Device, Shared}
use async_iomanager.System.{System, tasks, begin}
use async_iomanager.System.Refinement.{Runs-Refines}
use async_iomanager.System.Stopping.{Serves, Runs-Serves, Serves-stops}
use async_iomanager.Startup.Registered.{new_process, started, started-IsIdle}
use async_iomanager.Example.{load_each, exit_of, serves, terminated, main}
use async_iomanager.Example.Loads.{
  IsLoaded, Undefined, load_each-undefined, load_each_iff, load_each-stopped, load_each-held,
  load_each-Runs, numbered, in_use, Fresh, count-numbered, leaks-numbered,
}

once :
    (f : ℕ) (args : List Bytes) (w : World) (ts : List Task)
    → w.pending ≡ ts
    → accounted f w ≡ count f (numbered 0 args []) + accounted f started
    → calls f w.finals + owed f ts ≡ (if ltb f (length args) then 1 else 0)
once f args w ts e a =
    let none_called = ap (calls f) started-IsIdle.none_called in
    let none_owed = ap (owed f) started-IsIdle.nothing_held in
    ground (arith, ap (owed f) e, none_called, none_owed, count-numbered f 0 args [])

exit_of_iff : (r : Call (Unit {0})) → (exit_of r ≡ serves) ↔ (r ≡ returned tt)
exit_of_iff r = ground arith

exit_of_cases :
    (r : Call (Unit {0}))
    → (exit_of r ≡ serves) ⊎ ((e : Exception) × (exit_of r ≡ terminated e)) ⊎ (r ≡ undefined)
exit_of_cases (returned tt) = inl refl
exit_of_cases (thrown e) = inr (inl (e, refl))
exit_of_cases undefined = inr (inr refl)

-- After `InitializeSingletons` of a new process, the program comes to run the io_context exactly
-- where each of its arguments has a prefix whose loader is registered, and that loader returns from
-- its call. If it does not come to that, an exception that is not caught terminates it, unless some
-- call of a loader has no defined behaviour.
pub main_serves_iff :
    (from_string : Bytes → Option ℕ) (cache_dir_of : ℕ → Bytes) (bitswap : ℕ) (h : Handlers)
    (arg : Bytes) (args : List Bytes)
    → let m = main from_string cache_dir_of bitswap h new_process (arg ∷ args) in
      ((m.exit ≡ serves) ↔ All (IsLoaded h started.loaders) (arg ∷ args))
      × ((m.exit ≡ serves) ⊎ ((e : Exception) × (m.exit ≡ terminated e)) ⊎ Undefined h)
unfolding main
main_serves_iff from_string cache_dir_of bitswap h arg args =
    let (to, from) = exit_of_iff (load_each h 0 (arg ∷ args) started).0 in
    let (sound, complete) = load_each_iff h 0 (arg ∷ args) started in
    (
      (λ e. sound (to e), λ v. from (complete v)),
      elim (exit_of_cases (load_each h 0 (arg ∷ args) started).0) [
        | inl on ↦ inl on
        | inr (inl thrown_out) ↦ inr (inl thrown_out)
        | inr (inr e) ↦ inr (inr (load_each-undefined h 0 (arg ∷ args) started e))
      ],
    )

module _ (L : Device Completion) (S : Device (Unit {0})) (D : Shared Completion)
    (h : Handlers) where
  -- The io_context with a device for each argument, once `main` comes to run it.
  abbrev pub serving : World → List Bytes → List L.Phase → D.Phase → System L S D
  serving w args phases shared = record {
    world = w;
    jobs = in_use L S D h 0 args phases [];
    shared = shared;
  }

  -- Where each load has a device that makes at most one callback, as the WebSocket device does only
  -- where its host resolves, and the callbacks come back: while the devices of a program that runs the io_context go on, the io_context is stopped exactly
  -- when none of them has a callback left to make; and at any time the final callback of each
  -- argument has been called or is still owed by a device, once, and no other final callback.
  pub main_ends :
      (from_string : Bytes → Option ℕ) (cache_dir_of : ℕ → Bytes) (bitswap : ℕ) (arg : Bytes)
      (args : List Bytes) (phases : List L.Phase) (shared : D.Phase) (y' : System L S D) (f : ℕ)
      → let m = main from_string cache_dir_of bitswap h new_process (arg ∷ args) in
        m.exit ≡ serves
        → Fresh L S D h (arg ∷ args) phases
        → Serves L S D h (serving m.world (arg ∷ args) phases shared) y'
        → ((y'.world.stopped ≡ true) ↔ (tasks L S D y'.jobs ≡ []))
          × (calls f y'.world.finals + owed f (tasks L S D y'.jobs)
              ≡ (if ltb f (length (arg ∷ args)) then 1 else 0))
  unfolding main
  main_ends from_string cache_dir_of bitswap arg args phases shared y' f exit fresh r =
      let x : System L S D = record { world = started; jobs = []; shared = shared } in
      let loads = load_each h 0 (arg ∷ args) started in
      let y = serving loads.1 (arg ∷ args) phases shared in
      let e = ap (λ (c : Call (Unit {0})). (c, loads.1)) ((exit_of_iff loads.0).0 exit) in
      let asked = load_each-Runs L S D h 0 (arg ∷ args) phases x x loads.1 fresh e begin in
      let (matches, reach) = Runs-Refines L S D h x y started-IsIdle.nothing_held asked in
      let (matches', reach') =
        Runs-Refines L S D h x y' started-IsIdle.nothing_held
          (Runs-Serves L S D h x y y' asked r) in
      (
        Serves-stops L S D h y y' matches
            (subst (λ n. IsBalanced (n + 0) loads.1) (leaks-numbered 0 (arg ∷ args) [])
              (Reach-IsBalanced h 0 started loads.1 reach (
                started-IsIdle.counter
                ∙ ap (λ ts. length ts + 0) (sym started-IsIdle.nothing_held))))
            (load_each-stopped h 0 (arg ∷ args) started loads.1 e ∙ started-IsIdle.running)
            (some_held loads.1 (load_each-held h 0 (arg ∷ args) started loads.1 e)) r,
        once f (arg ∷ args) y'.world (tasks L S D y'.jobs) matches'
            (Reach-accounted h f started y'.world reach'),
      )
    where
      some_held :
          (w : World)
          → length w.pending ≡ suc (length args) + length started.pending
          → w.pending ≢ []
      some_held w size e = absurd (omega (arith, size, ap length e))
