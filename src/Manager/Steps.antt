-- ===== src/Manager/Steps.antt =====
-- The calls of the application and the callbacks of the handlers as steps of the world
-- (src/FileManager.cpp), and what each step does to the counter, the tasks and the io_context.
use async_iomanager.Common.{
  ℕ, ◌+◌, ◌-◌, Bool, true, Option, none, some, List, [], ◌∷◌, ◌++◌, Bytes, leb, ◌==◌, if◌then◌else◌,
  ◌≡◌, refl, arith, length, length-append, ◌⊎◌, inl,
}
use async_iomanager.Io.{ResultType, Completion, returned, thrown, Exception}
use async_iomanager.Manager.State.{
  Data, Handlers, LoadContext, Task, reading, writing, saving, World,
}
use async_iomanager.Manager.Maps.{find}
use async_iomanager.Manager.{
  components_of, increment_outstanding_operations, decrement_outstanding_operations, handle_read,
  handle_buffers, check_parser, save_buffers, load_async, save_async, written, saved,
}

-- A call of the application. A `LoadASync` throws where no loader is registered for its URL, or where
-- the loader throws.
module _ (h : Handlers) where
  pub data AppCall (w w' : World) : Type 0 where
    loads :
        (url : Bytes) (parse save : Bool) (f : ℕ) (savetype : Bytes) (d : Data)
        → load_async h url parse save f savetype w ≡ (returned d, w')
        → AppCall w w'
    load_refused :
        (url : Bytes) (parse save : Bool) (f : ℕ) (savetype : Bytes) (e : Exception)
        → find (components_of url).prefix w.loaders ≡ none
        → load_async h url parse save f savetype w ≡ (thrown e, w')
        → AppCall w w'
    load_leaks :
        (url : Bytes) (parse save : Bool) (f : ℕ) (savetype : Bytes) (e : Exception) (l : ℕ)
        → find (components_of url).prefix w.loaders ≡ some l
        → load_async h url parse save f savetype w ≡ (thrown e, w')
        → AppCall w w'
    saves :
        (url : Bytes) (value : ResultType) (f : Option ℕ)
        → save_async h url value f w ≡ (returned tt, w')
        → AppCall w w'
    save_throws :
        (url : Bytes) (value : ResultType) (f : Option ℕ) (e : Exception)
        → save_async h url value f w ≡ (thrown e, w')
        → AppCall w w'

  -- A callback that comes back: one task of the world is taken and run. Those that throw are in
  -- Throwing.
  pub data Callback (w w' : World) : Type 0 where
    read :
        (before after : List Task) (ctx : LoadContext) (c : Completion)
        → w.pending ≡ before ++ reading ctx ∷ after
        → handle_read h ctx c (record w { pending = before ++ after }) ≡ (returned tt, w')
        → Callback w w'
    write :
        (before after : List Task)
        → w.pending ≡ before ++ writing ∷ after
        → w' ≡ written (record w { pending = before ++ after })
        → Callback w w'
    finish :
        (before after : List Task) (f : Option ℕ) (value : ResultType)
        → w.pending ≡ before ++ saving f value ∷ after
        → w' ≡ saved f value (record w { pending = before ++ after })
        → Callback w w'

  -- The final callbacks that a call of the application asks for; `none` stands for a call that
  -- throws after the operation was counted.
  abbrev pub requests : {w w' : World} → AppCall w w' → List (Option ℕ)
  requests (loads url parse save f savetype d e) = some f ∷ []
  requests (load_refused url parse save f savetype e missing r) = []
  requests (load_leaks url parse save f savetype e l found r) = none ∷ []
  requests (saves url value none e) = []
  requests (saves url value (some f) e) = some f ∷ []
  requests (save_throws url value f e r) = []

  -- Every interleaving of such calls and callbacks, with the final callbacks asked for on the way.
  pub data Reach (w : World) : List (Option ℕ) → World → Type 0 where
    here : Reach w [] w
    called :
        {log : List (Option ℕ)} {u v : World}
        → Reach w log u
        → (c : AppCall u v) → Reach w (requests c ++ log) v
    back : {log : List (Option ℕ)} {u v : World} → Reach w log u → Callback u v → Reach w log v

-- How many calls threw after they were counted.
abbrev pub leaks : List (Option ℕ) → ℕ
leaks [] = 0
leaks (none ∷ log) = 1 + leaks log
leaks (some f ∷ log) = leaks log

pub leaks-append : (xs ys : List (Option ℕ)) → leaks (xs ++ ys) ≡ leaks xs + leaks ys
leaks-append [] ys = omega arith
leaks-append (none ∷ xs) ys = omega (arith, leaks-append xs ys)
leaks-append (some f ∷ xs) ys = leaks-append xs ys

-- What a callback that ends an operation does to the counter and the io_context.
pub record Ended (w w' : World) : Type 0 where
  pub lowered : w'.outstanding_operations ≡ w.outstanding_operations - 1
  pub tasks : w'.pending ≡ w.pending
  pub stops : w'.stopped ≡ (if leb w.outstanding_operations 1 then true else w.stopped)

pub decrement-Ended : (w : World) → Ended w (decrement_outstanding_operations w)
unfolding decrement_outstanding_operations
decrement-Ended w = ground arith

pub saved-Ended : (f : Option ℕ) (v : ResultType) (w : World) → Ended w (saved f v w)
unfolding saved
saved-Ended f v w = ground (arith, decrement-Ended w)

-- What a callback that hands its operation on to a write does.
pub record HandedOn (w w' : World) : Type 0 where
  pub kept : w'.outstanding_operations ≡ w.outstanding_operations
  pub tasks : w'.pending ≡ writing ∷ w.pending
  pub running : w'.stopped ≡ w.stopped

pub handle_read_cases :
    (h : Handlers) (ctx : LoadContext) (c : Completion) (w w' : World)
    → handle_read h ctx c w ≡ (returned tt, w')
    → Ended w w' ⊎ HandedOn w w'
unfolding handle_read handle_buffers check_parser save_buffers
handle_read_cases h ctx c w w' e = ground (arith, decrement-Ended w)

pub length_middle {ℓ} :
    {A : Type ℓ} (xs ys : List A) (x : A) → length (xs ++ x ∷ ys) ≡ length (xs ++ ys) + 1
length_middle xs ys x = omega (arith, length-append xs (x ∷ ys), length-append xs ys)

-- A callback takes one task, then ends its operation or hands it on.
pub record Taken (w v : World) : Type 0 where
  pub one_less : length w.pending ≡ length v.pending + 1
  pub counter : v.outstanding_operations ≡ w.outstanding_operations
  pub context : v.stopped ≡ w.stopped

pub take_middle :
    (w : World) (before after : List Task) (t : Task)
    → w.pending ≡ before ++ t ∷ after
    → Taken w (record w { pending = before ++ after })
take_middle w before after t e = record {
  one_less = rw e (length_middle before after t);
  counter = refl;
  context = refl;
}

pub Callback-cases :
    (h : Handlers) (w w' : World)
    → Callback h w w'
    → (v : World) × Taken w v × (Ended v w' ⊎ HandedOn v w')
Callback-cases h w w' (read before after ctx c e r) =
    (_, take_middle w before after (reading ctx) e, handle_read_cases h ctx c _ w' r)
Callback-cases h w w' (write before after e r) =
    let v = record w { pending = before ++ after } in
    (v, take_middle w before after writing e, inl (rw r (unfold written in decrement-Ended v)))
Callback-cases h w w' (finish before after f value e r) =
    let v = record w { pending = before ++ after } in
    (v, take_middle w before after (saving f value) e, inl (rw r (saved-Ended f value v)))

-- What a call of the application that starts an operation does.
pub record Started (w w' : World) : Type 0 where
  pub raised : w'.outstanding_operations ≡ w.outstanding_operations + 1
  pub one_more : length w'.pending ≡ length w.pending + 1
  pub running : w'.stopped ≡ w.stopped

pub load_async-Started :
    (h : Handlers) (url : Bytes) (parse save : Bool) (f : ℕ) (savetype : Bytes) (d : Data)
    (w w' : World)
    → load_async h url parse save f savetype w ≡ (returned d, w')
    → Started w w'
unfolding load_async increment_outstanding_operations
load_async-Started h url parse save f savetype d w w' e = ground arith

pub load_async_refused :
    (h : Handlers) (url : Bytes) (parse save : Bool) (f : ℕ) (savetype : Bytes) (e : Exception)
    (w w' : World)
    → find (components_of url).prefix w.loaders ≡ none
    → load_async h url parse save f savetype w ≡ (thrown e, w')
    → w' ≡ w
unfolding load_async
load_async_refused h url parse save f savetype e w w' missing r = ground arith

pub load_async_thrown :
    (h : Handlers) (url : Bytes) (parse save : Bool) (f : ℕ) (savetype : Bytes) (e : Exception)
    (l : ℕ) (w w' : World)
    → find (components_of url).prefix w.loaders ≡ some l
    → load_async h url parse save f savetype w ≡ (thrown e, w')
    → w' ≡ increment_outstanding_operations w
unfolding load_async
load_async_thrown h url parse save f savetype e l w w' found r = ground arith

pub save_async-Started :
    (h : Handlers) (url : Bytes) (value : ResultType) (f : Option ℕ) (w w' : World)
    → save_async h url value f w ≡ (returned tt, w')
    → Started w w'
unfolding save_async increment_outstanding_operations
save_async-Started h url value f w w' e = ground arith

pub save_async_thrown :
    (h : Handlers) (url : Bytes) (value : ResultType) (f : Option ℕ) (e : Exception) (w w' : World)
    → save_async h url value f w ≡ (thrown e, w')
    → (w'.outstanding_operations ≡ w.outstanding_operations)
      × (w'.pending ≡ w.pending)
      × (w'.stopped ≡ (if w.outstanding_operations == 0 then w'.stopped else w.stopped))
unfolding save_async increment_outstanding_operations decrement_outstanding_operations
save_async_thrown h url value f e w w' r = ground arith
