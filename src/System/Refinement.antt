-- ===== src/System/Refinement.antt =====
-- The system of `FileManager` and its devices implements the abstract view of src/FileManager.cpp
-- alone, in which the callbacks of the handlers come at any time.
use async_iomanager.Common.{
  refl, ℕ, ◌≡◌, [], Option, none, some, List, ◌∷◌, ◌++◌, ◌&&◌, if◌then◌else◌, sym, ap, ◌∙◌,
}
use async_iomanager.Io.{Completion, has_value, returned}
use async_iomanager.Manager.State.{Handlers, LoadContext, reading, writing, saving, World}
use async_iomanager.Manager.{handle_read, increment_outstanding_operations}
use async_iomanager.Manager.Held.{
  load_async-pending, save_async-pending, save_async-refused, handle_read-pending,
}
use async_iomanager.Manager.Steps.{
  load_refused, load_leaks, load_async_refused, load_async_thrown, loads, saves, save_throws, read,
  Callback, Reach, here, called, back,
}
use async_iomanager.System.Interface.{Device, Shared}
use async_iomanager.System.{
  WriteTask, Job, handle_write, task_of, context_of, loading, storing, System, owes, tasks, without,
  Step, starts_load, refuses_load, leaks_load, starts_save, refuses_save, goes_on, loaded,
  writes_on, stored, starts_shared, shared_goes_on, answered, asking, Runs, begin, then_step,
}
use async_iomanager.System.Tasks.{
  Matches, owing, done, tasks-append, tasks-owing, tasks-done, tasks-same, tasks-handed_on,
  handle_write-pending, handle_write-Callback, makes_its_callback, keeps_its_callback,
}

module _ (L : Device Completion) (S : Device (Unit {0})) (D : Shared Completion)
    (h : Handlers) where
  -- What a step of the system is in the abstract view.
  abbrev Refines : System L S D → List (Option ℕ) → System L S D → Type 0
  Refines y asked y' =
      Matches L S D y'
      × ((log : List (Option ℕ)) (w : World)
          → Reach h w log y.world
          → Reach h w (asked ++ log) y'.world)

  -- A completion of a load, and the end of a write, are callbacks of the abstract view.
  pub loaded-Callback :
      (y : System L S D) (before after : List (Job L S D)) (s : L.Phase) (ctx : LoadContext)
      (i : L.Input) (c : Completion) (w : World)
      → y.jobs ≡ before ++ loading s ctx ∷ after
      → (L.step s i).1 ≡ c ∷ []
      → handle_read h ctx c (without L S D y.world before after) ≡ (returned tt, w)
      → Matches L S D y
      → Callback h y.world w
  loaded-Callback y before after s ctx i c w e one r m =
      let (owed, paid) = makes_its_callback L s i c one in
      read (tasks L S D before) (tasks L S D after) ctx c
        (m
          ∙ ap (tasks L S D) e
          ∙ tasks-owing L S D before after (loading s ctx) (reading ctx)
              (owing L S D (L.due s) (reading ctx) owed))
        r

  pub answered-Callback :
      (y : System L S D) (before after : List (Job L S D)) (k : ℕ) (ctx : LoadContext)
      (c : Completion) (w : World)
      → y.jobs ≡ before ++ asking k ctx ∷ after
      → handle_read h ctx c (without L S D y.world before after) ≡ (returned tt, w)
      → Matches L S D y
      → Callback h y.world w
  answered-Callback y before after k ctx c w e r m =
      read (tasks L S D before) (tasks L S D after) ctx c
        (m ∙ ap (tasks L S D) e ∙ tasks-owing L S D before after (asking k ctx) (reading ctx) refl)
        r

  pub stored-Callback :
      (y : System L S D) (before after : List (Job L S D)) (s : S.Phase) (t : WriteTask)
      (i : S.Input)
      → y.jobs ≡ before ++ storing s t ∷ after
      → (S.step s i).1 ≡ tt ∷ []
      → Matches L S D y
      → Callback h y.world (handle_write t (without L S D y.world before after))
  stored-Callback y before after s t i e one m =
      let (owed, paid) = makes_its_callback S s i tt one in
      handle_write-Callback h t (tasks L S D before) (tasks L S D after) y.world (
        m
        ∙ ap (tasks L S D) e
        ∙ tasks-owing L S D before after (storing s t) (task_of t)
            (owing L S D (S.due s) (task_of t) owed))

  pub step-Refines :
      (y y' : System L S D) {asked : List (Option ℕ)}
      → Step L S D h y asked y'
      → Matches L S D y
      → Refines y asked y'
  step-Refines y y' (starts_load url parse save f savetype d s w fresh e) m = (
    load_async-pending h url parse save f savetype d y.world w e
        ∙ ap (λ x. reading (context_of url savetype f) ∷ x) m
        ∙ ap (λ x. x ++ tasks L S D y.jobs)
            (sym (owing L S D (L.due s) (reading (context_of url savetype f)) fresh)),
    λ log v r. called r (loads url parse save f savetype d e),
  )
  step-Refines y y' (refuses_load url parse save f savetype e w missing r) m = (
    rw (load_async_refused h url parse save f savetype e y.world w missing r) m,
    λ log v u. called u (load_refused url parse save f savetype e missing r),
  )
  step-Refines y y' (leaks_load url parse save f savetype e l w found r) m = (
    unfold increment_outstanding_operations in
        rw (load_async_thrown h url parse save f savetype e l y.world w found r) m,
    λ log v u. called u (load_leaks url parse save f savetype e l found r),
  )
  step-Refines y y' (starts_save url value none s w fresh e) m = (
    save_async-pending h url value none y.world w e
        ∙ ap (λ x. saving none value ∷ x) m
        ∙ ap (λ x. x ++ tasks L S D y.jobs) (sym (owing L S D (S.due s) (saving none value) fresh)),
    λ log v r. called r (saves url value none e),
  )
  step-Refines y y' (starts_save url value (some f) s w fresh e) m = (
    save_async-pending h url value (some f) y.world w e
        ∙ ap (λ x. saving (some f) value ∷ x) m
        ∙ ap (λ x. x ++ tasks L S D y.jobs)
            (sym (owing L S D (S.due s) (saving (some f) value) fresh)),
    λ log v r. called r (saves url value (some f) e),
  )
  step-Refines y y' (refuses_save url value f e w r) m = (
    save_async-refused h url value f e y.world w r ∙ m,
    λ log v u. called u (save_throws url value f e r),
  )
  step-Refines y y' (goes_on before after s ctx i e none_made) m = (
    m
        ∙ ap (tasks L S D) e
        ∙ tasks-same L S D before after (loading s ctx) (loading (L.step s i).0 ctx)
            (ap (λ n. owes L S D n (reading ctx)) (keeps_its_callback L s i none_made)),
    λ log v r. r,
  )
  step-Refines y y' (writes_on before after s t i e none_made) m = (
    m
        ∙ ap (tasks L S D) e
        ∙ tasks-same L S D before after (storing s t) (storing (S.step s i).0 t)
            (ap (λ n. owes L S D n (task_of t)) (keeps_its_callback S s i none_made)),
    λ log v r. r,
  )
  step-Refines y y' (loaded before after s ctx i c t w e one fresh r) m =
      let (owed, paid) = makes_its_callback L s i c one in
      let rest = before ++ loading (L.step s i).0 ctx ∷ after in
      let q =
        tasks-done L S D before after (loading (L.step s i).0 ctx)
          (done L S D (L.due (L.step s i).0) (reading ctx) paid) in
      (
        handle_read-pending h ctx c (without L S D y.world before after) w r
            ∙ ap (λ x. if has_value c.buffers && c.save then writing ∷ x else x) (sym q)
            ∙ sym (tasks-handed_on L S D c t rest fresh),
        λ log v u. back u (loaded-Callback y before after s ctx i c w e one r m),
      )
  step-Refines y y' (stored before after s t i e one) m =
      let (owed, paid) = makes_its_callback S s i tt one in
      let q =
        tasks-done L S D before after (storing (S.step s i).0 t)
          (done L S D (S.due (S.step s i).0) (task_of t) paid) in
      (
        handle_write-pending t (without L S D y.world before after) ∙ sym q,
        λ log v u. back u (stored-Callback y before after s t i e one m),
      )
  step-Refines y y' (starts_shared url parse save f savetype d k a w fresh e) m = (
    load_async-pending h url parse save f savetype d y.world w e
        ∙ ap (λ x. reading (context_of url savetype f) ∷ x) m,
    λ log v r. called r (loads url parse save f savetype d e),
  )
  step-Refines y y' (shared_goes_on i none_made) m = (m, λ log v r. r)
  step-Refines y y' (answered before after k ctx i c t w e one fresh r) m =
      let q = tasks-append L S D before after in
      (
        handle_read-pending h ctx c (without L S D y.world before after) w r
            ∙ ap (λ x. if has_value c.buffers && c.save then writing ∷ x else x) (sym q)
            ∙ sym (tasks-handed_on L S D c t (before ++ after) fresh),
        λ log v u. back u (answered-Callback y before after k ctx c w e r m),
      )

  -- The system of `FileManager` with devices that each keep to one callback implements
  -- `FileManager` alone with callbacks that come at any time: what the system does in a run from a
  -- state in which the callbacks that are waited for are those that the devices have still to make,
  -- a sequence of calls and callbacks does to the world, with the same final callbacks asked for;
  -- and the callbacks waited for are again those still to be made.
  pub Runs-Refines :
      (y y' : System L S D) {log : List (Option ℕ)}
      → Matches L S D y
      → Runs L S D h y log y'
      → Matches L S D y' × Reach h y.world log y'.world
  Runs-Refines y y' m begin = (m, here)
  Runs-Refines y y' m (then_step {log = log} {u = u} r s) =
      let (n, reach) = Runs-Refines y u m r in
      let (k, extend) = step-Refines u y' s n in (k, extend log y.world reach)
