-- ===== src/System.antt =====
-- `FileManager` (src/FileManager.cpp) together with the devices of its handlers, in one io_context:
-- every ordering of the calls of the application and the inputs of the devices.
pub mod Interface
pub mod Tasks
pub mod Refinement
pub mod Settling
pub mod Stopping
pub mod Sharing
pub mod SharedIpfs
pub mod Losing
pub mod Instances
pub mod Starts
mod Tests
use async_iomanager.Common.{
  ℕ, ◌≤◌, ◌+◌, Bool, Option, none, some, List, [], ◌∷◌, ◌++◌, Bytes, ◌==◌, ◌&&◌, if◌then◌else◌, ◌≡◌,
  ◌⊎◌,
}
use async_iomanager.Io.{ResultType, Completion, Exception, has_value, returned, thrown}
use async_iomanager.Manager.State.{
  Data, Handlers, LoadContext, Task, reading, writing, saving, World,
}
use async_iomanager.Manager.Maps.{find}
use async_iomanager.Manager.{components_of, handle_read, load_async, save_async, written, saved}
use Interface.{Device, Shared}

-- The lambda that holds an operation: of a load that saves, or of a save.
pub data WriteTask : Type 0 where
  of_load : WriteTask
  of_save : Option ℕ → ResultType → WriteTask

abbrev pub task_of : WriteTask → Task
task_of of_load = writing
task_of (of_save f value) = saving f value

-- A call of such a lambda.
abbrev pub handle_write : WriteTask → World → World
handle_write of_load w = written w
handle_write (of_save f value) w = saved f value w

-- What `LoadASync` captures.
abbrev pub context_of : Bytes → Bytes → ℕ → LoadContext
context_of url savetype f = record {
  savetype = savetype;
  suffix = (components_of url).extension;
  finalcall = f;
}

module _ (L : Device Completion) (S : Device (Unit {0})) (D : Shared Completion) where
  -- A device in the io_context, with the callback that it holds.
  pub data Job : Type 0 where
    loading : L.Phase → LoadContext → Job
    storing : S.Phase → WriteTask → Job
    -- a load of the shared device, with the number of its callback
    asking : ℕ → LoadContext → Job

  pub record System : Type 0 where
    pub world : World
    pub jobs : List Job
    pub shared : D.Phase

  -- The callback that a device has still to make.
  abbrev pub owes : ℕ → Task → List Task
  owes due t = if due == 0 then t ∷ [] else []

  abbrev pub tasks_of : Job → List Task
  tasks_of (loading s ctx) = owes (L.due s) (reading ctx)
  tasks_of (storing s t) = owes (S.due s) (task_of t)
  tasks_of (asking k ctx) = reading ctx ∷ []

  abbrev pub tasks : List Job → List Task
  tasks [] = []
  tasks (j ∷ js) = tasks_of j ++ tasks js

  -- How many loads of the shared device have a number.
  abbrev pub asked_for : ℕ → List Job → ℕ
  asked_for k [] = 0
  asked_for k (loading s ctx ∷ js) = asked_for k js
  asked_for k (storing s t ∷ js) = asked_for k js
  asked_for k (asking n ctx ∷ js) = (if n == k then 1 else 0) + asked_for k js

  -- The world while the callback of a device runs: the callback is not held any more.
  abbrev pub without : World → List Job → List Job → World
  without w before after = record w { pending = tasks before ++ tasks after }

  -- The device of the saver that a load hands its buffers to.
  abbrev pub handed_on : Completion → S.Phase → List Job
  handed_on c t = if has_value c.buffers && c.save then storing t of_load ∷ [] else []

  module _ (h : Handlers) where
    -- One step, with the final callbacks that the application asks for in it, and `none` for a load
    -- that throws after it was counted. A device starts in
    -- any phase in which it has not made its callback.
    pub data Step (y : System) : List (Option ℕ) → System → Type 0 where
      starts_load :
          (url : Bytes) (parse save : Bool) (f : ℕ) (savetype : Bytes) (d : Data) (s : L.Phase)
          (w : World)
          → L.due s ≡ 0
          → load_async h url parse save f savetype y.world ≡ (returned d, w)
          → Step y (some f ∷ []) (record {
            world = w;
            jobs = loading s (context_of url savetype f) ∷ y.jobs;
            shared = y.shared;
          })
      refuses_load :
          (url : Bytes) (parse save : Bool) (f : ℕ) (savetype : Bytes) (e : Exception) (w : World)
          → find (components_of url).prefix y.world.loaders ≡ none
          → load_async h url parse save f savetype y.world ≡ (thrown e, w)
          → Step y [] (record { world = w; jobs = y.jobs; shared = y.shared })
      leaks_load :
          (url : Bytes) (parse save : Bool) (f : ℕ) (savetype : Bytes) (e : Exception) (l : ℕ)
          (w : World)
          → find (components_of url).prefix y.world.loaders ≡ some l
          → load_async h url parse save f savetype y.world ≡ (thrown e, w)
          → Step y (none ∷ []) (record { world = w; jobs = y.jobs; shared = y.shared })
      starts_save :
          (url : Bytes) (value : ResultType) (f : Option ℕ) (s : S.Phase) (w : World)
          → S.due s ≡ 0
          → save_async h url value f y.world ≡ (returned tt, w)
          → Step y
              (elim f [ none ↦ [] | some g ↦ some g ∷ [] ])
              (record { world = w; jobs = storing s (of_save f value) ∷ y.jobs; shared = y.shared })
      refuses_save :
          (url : Bytes) (value : ResultType) (f : Option ℕ) (e : Exception) (w : World)
          → save_async h url value f y.world ≡ (thrown e, w)
          → Step y [] (record { world = w; jobs = y.jobs; shared = y.shared })
      goes_on :
          (before after : List Job) (s : L.Phase) (ctx : LoadContext) (i : L.Input)
          → y.jobs ≡ before ++ loading s ctx ∷ after
          → (L.step s i).1 ≡ []
          → Step y [] (record {
            world = y.world;
            jobs = before ++ loading (L.step s i).0 ctx ∷ after;
            shared = y.shared;
          })
      loaded :
          (before after : List Job) (s : L.Phase) (ctx : LoadContext) (i : L.Input) (c : Completion)
          (t : S.Phase) (w : World)
          → y.jobs ≡ before ++ loading s ctx ∷ after
          → (L.step s i).1 ≡ c ∷ []
          → S.due t ≡ 0
          → handle_read h ctx c (without y.world before after) ≡ (returned tt, w)
          → Step y [] (record {
            world = w;
            jobs = handed_on c t ++ (before ++ loading (L.step s i).0 ctx ∷ after);
            shared = y.shared;
          })
      writes_on :
          (before after : List Job) (s : S.Phase) (t : WriteTask) (i : S.Input)
          → y.jobs ≡ before ++ storing s t ∷ after
          → (S.step s i).1 ≡ []
          → Step y [] (record {
            world = y.world;
            jobs = before ++ storing (S.step s i).0 t ∷ after;
            shared = y.shared;
          })
      stored :
          (before after : List Job) (s : S.Phase) (t : WriteTask) (i : S.Input)
          → y.jobs ≡ before ++ storing s t ∷ after
          → (S.step s i).1 ≡ tt ∷ []
          → Step y [] (record {
            world = handle_write t (without y.world before after);
            jobs = before ++ storing (S.step s i).0 t ∷ after;
            shared = y.shared;
          })
      starts_shared :
          (url : Bytes) (parse save : Bool) (f : ℕ) (savetype : Bytes) (d : Data) (k : ℕ)
          (a : D.Answers) (w : World)
          → asked_for k y.jobs ≡ 0
          → load_async h url parse save f savetype y.world ≡ (returned d, w)
          → Step y (some f ∷ []) (record {
            world = w;
            jobs = asking k (context_of url savetype f) ∷ y.jobs;
            shared = D.start (components_of url).base k parse save a y.shared;
          })
      shared_goes_on :
          (i : D.Input)
          → (D.step y.shared i).1 ≡ []
          → Step y [] (record { world = y.world; jobs = y.jobs; shared = (D.step y.shared i).0 })
      answered :
          (before after : List Job) (k : ℕ) (ctx : LoadContext) (i : D.Input) (c : Completion)
          (t : S.Phase) (w : World)
          → y.jobs ≡ before ++ asking k ctx ∷ after
          → (D.step y.shared i).1 ≡ (k, c) ∷ []
          → S.due t ≡ 0
          → handle_read h ctx c (without y.world before after) ≡ (returned tt, w)
          → Step y [] (record {
            world = w;
            jobs = handed_on c t ++ (before ++ after);
            shared = (D.step y.shared i).0;
          })

    -- Every ordering of the steps, with the final callbacks asked for on the way.
    pub data Runs (y : System) : List (Option ℕ) → System → Type 0 where
      begin : Runs y [] y
      then_step :
          {log asked : List (Option ℕ)} {u v : System}
          → Runs y log u
          → Step u asked v
          → Runs y (asked ++ log) v
