-- ===== src/Manager/Throwing.antt =====
-- The counter of outstanding operations (`IncrementOutstandingOperations`,
-- `DecrementOutstandingOperations` of src/FileManager.cpp) over every interleaving of calls and
-- callbacks, with the callbacks that throw: the saver to which `handle_read` hands the buffers may
-- throw, and the exception leaves `io_context::run`.
use async_iomanager.Common.{ℕ, ◌+◌, List, ◌∷◌, ◌++◌, ◌≡◌}
use async_iomanager.Io.{Completion, thrown, Exception}
use async_iomanager.Manager.State.{Handlers, LoadContext, Task, reading, World}
use async_iomanager.Manager.Steps.{AppCall, requests, leaks, Callback}
use async_iomanager.Manager.{handle_read}

module _ (h : Handlers) where
  -- A callback that throws: a `handle_read` whose saver does.
  pub data Throwing (w w' : World) : Type 0 where
    read_throws :
        (before after : List Task) (ctx : LoadContext) (c : Completion) (e : Exception)
        → w.pending ≡ before ++ reading ctx ∷ after
        → handle_read h ctx c (record w { pending = before ++ after }) ≡ (thrown e, w')
        → Throwing w w'

  -- Every interleaving of calls and callbacks with defined behaviour, and how many of them lose an
  -- operation on the way: the loads that throw after they were counted, and the callbacks that throw.
  pub data Passes (w : World) : ℕ → World → Type 0 where
    at_start : Passes w 0 w
    called :
        {lost : ℕ} {u v : World}
        → Passes w lost u
        → (c : AppCall h u v) → Passes w (leaks (requests h c) + lost) v
    back : {lost : ℕ} {u v : World} → Passes w lost u → Callback h u v → Passes w lost v
    threw : {lost : ℕ} {u v : World} → Passes w lost u → Throwing u v → Passes w (1 + lost) v
