-- ===== src/Manager.antt =====
-- src/FileManager.cpp: the registries of handlers, the counter of outstanding operations, and the
-- synchronous and asynchronous calls. A handler is named by the number that stands for its address;
-- what it does is a call through `Handlers`. An asynchronous call that returns has taken its
-- callback: it is a task of the world until the callback is made.
-- The counter is an `int` that starts at 0 and is lowered only where it is positive, so a natural
-- number stands for it exactly, up to the overflow at 2 ^ 31 operations at once.
pub mod Maps
pub mod State
pub mod Steps
pub mod Counter
pub mod Throwing
pub mod Finals
pub mod Dispatch
pub mod Held
mod Tests
use async_iomanager.Common.{
  ℕ, ◌+◌, ◌-◌, Bool, true, false, Option, none, some, List, [], ◌∷◌, ◌++◌, Bytes, codes, leb, ◌==◌,
  if◌then◌else◌,
}
use async_iomanager.Io.{ResultType, has_value, Completion, Call}
use async_iomanager.Url.Components.{Components, get_url_components}
use Maps.{register}
use State.{
  Data, Handlers, LoadContext, Task, reading, writing, saving, World, M, ◌>>=◌, ◌>>◌, return,
  modify, virtual, rethrow_after, call_final, add_task, find_or_throw, find_unchecked,
}

unfoldable pub register_loader : Bytes → ℕ → World → World
register_loader prefix handler w = record w { loaders = register prefix handler w.loaders }

pub register_parser : Bytes → ℕ → World → World
register_parser suffix handler w = record w { parsers = register suffix handler w.parsers }

unfoldable pub register_saver : Bytes → ℕ → World → World
register_saver prefix handler w = record w { savers = register prefix handler w.savers }

unfoldable pub increment_outstanding_operations : World → World
increment_outstanding_operations w = record w {
  outstanding_operations = w.outstanding_operations + 1;
}

unfoldable pub decrement_outstanding_operations : World → World
decrement_outstanding_operations w =
    if leb w.outstanding_operations 0
    then record w { stopped = true }
    else (let left = w.outstanding_operations - 1 in
        if left == 0
        then record w { outstanding_operations = left; stopped = true }
        else record w { outstanding_operations = left })

-- What `GetOutstandingOperationsPointer` points to: a copy of the counter.
pub get_outstanding_operations_pointer : World → ℕ
get_outstanding_operations_pointer w = w.outstanding_operations

-- The outputs of `getURLComponents` before the call.
abbrev pub no_components : Components
no_components = record { prefix = []; base = []; extension = [] }

abbrev pub components_of : Bytes → Components
components_of url = (get_url_components url no_components).1

-- The first half of `handle_read`: the parser is looked up and not called.
pub check_parser : Bool → M (Unit {0})
check_parser parse =
    if parse then (do _ ← find_unchecked (λ w. w.parsers) (codes "mnn"); return tt) else return tt

module _ (h : Handlers) where
  unfoldable pub parse_data : Bytes → Data → M Data
  parse_data suffix value = do
    parser ← find_or_throw (λ w. w.parsers) (codes "No parser registered for suffix ") suffix
    virtual (h.parse_data parser value)

  unfoldable pub load_file : Bytes → Bool → M Data
  load_file url parse = do
    let c = components_of url
    loader ← find_or_throw (λ w. w.loaders) (codes "No loader registered for prefix ") c.prefix
    value ← virtual (h.load_file loader c.base)
    if parse then parse_data c.extension value else return value

  unfoldable pub save_file : Bytes → Data → M (Unit {0})
  save_file url value = do
    let c = components_of url
    saver ← find_or_throw (λ w. w.savers) (codes "No saver registered for prefix ") c.prefix
    virtual (h.save_file saver c.base value)

  -- The second half of `handle_read`: the buffers are saved, and their write holds the operation,
  -- or the operation is over.
  pub save_buffers : LoadContext → ResultType → Bool → M (Unit {0})
  save_buffers ctx buffers save =
      if save
      then (do
        saver ← find_unchecked (λ w. w.savers) ctx.savetype
        virtual (h.save_async saver [] buffers ctx.suffix)
        modify (add_task writing))
      else modify decrement_outstanding_operations

  -- The branch on whether the load brought a value.
  unfoldable pub handle_buffers : LoadContext → Completion → M (Unit {0})
  handle_buffers ctx c =
      if has_value c.buffers
      then (do check_parser c.parse; save_buffers ctx c.buffers c.save)
      else modify decrement_outstanding_operations

  -- The lambda `handle_read` of `LoadASync`.
  unfoldable pub handle_read : LoadContext → Completion → M (Unit {0})
  handle_read ctx c = do handle_buffers ctx c; modify (call_final ctx.finalcall c.buffers)

  unfoldable pub load_async : Bytes → Bool → Bool → ℕ → Bytes → M Data
  load_async url parse save finalcall savetype = do
    let c = components_of url
    loader ← find_or_throw (λ w. w.loaders) (codes "No loader registered for prefix ") c.prefix
    modify increment_outstanding_operations
    value ← virtual (h.load_async loader c.base parse save)
    modify (
        add_task
          (reading (record { savetype = savetype; suffix = c.extension; finalcall = finalcall })))
    return value

  unfoldable pub save_async : Bytes → ResultType → Option ℕ → M (Unit {0})
  save_async url value finalcall = do
    let c = components_of url
    saver ← find_or_throw (λ w. w.savers) (codes "No saver registered for prefix ") c.prefix
    modify increment_outstanding_operations
    rethrow_after decrement_outstanding_operations
        (virtual (h.save_async saver c.base value c.extension))
    modify (add_task (saving finalcall value))

-- The lambda `handle_write` of `LoadASync`, and that of `SaveASync`.
pub written : World → World
written w = decrement_outstanding_operations w

pub saved : Option ℕ → ResultType → World → World
saved finalcall value w =
    let w' = decrement_outstanding_operations w in
    elim finalcall [ none ↦ w' | some f ↦ call_final f value w' ]
