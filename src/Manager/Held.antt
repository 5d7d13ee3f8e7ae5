-- ===== src/Manager/Held.antt =====
-- The callbacks that the handlers hold (src/FileManager.cpp): what each operation adds to them.
use async_iomanager.Common.{ℕ, Bool, Option, ◌∷◌, Bytes, ◌&&◌, if◌then◌else◌, ◌≡◌, arith}
use async_iomanager.Io.{ResultType, Completion, Exception, has_value, returned, thrown}
use async_iomanager.Manager.State.{Data, Handlers, LoadContext, reading, writing, saving, World}
use async_iomanager.Manager.{
  increment_outstanding_operations, decrement_outstanding_operations, check_parser, save_buffers,
  handle_buffers, components_of, handle_read, load_async, save_async, written, saved,
}

decrement-pending : (w : World) → (decrement_outstanding_operations w).pending ≡ w.pending
unfolding decrement_outstanding_operations
decrement-pending w = ground arith

pub load_async-pending :
    (h : Handlers) (url : Bytes) (parse save : Bool) (f : ℕ) (savetype : Bytes) (d : Data)
    (w w' : World)
    → load_async h url parse save f savetype w ≡ (returned d, w')
    → w'.pending
      ≡ reading
          (record { savetype = savetype; suffix = (components_of url).extension; finalcall = f })
        ∷ w.pending
unfolding load_async increment_outstanding_operations
load_async-pending h url parse save f savetype d w w' e = ground arith

pub save_async-pending :
    (h : Handlers) (url : Bytes) (value : ResultType) (f : Option ℕ) (w w' : World)
    → save_async h url value f w ≡ (returned tt, w')
    → w'.pending ≡ saving f value ∷ w.pending
unfolding save_async increment_outstanding_operations
save_async-pending h url value f w w' e = ground arith

pub save_async-refused :
    (h : Handlers) (url : Bytes) (value : ResultType) (f : Option ℕ) (e : Exception) (w w' : World)
    → save_async h url value f w ≡ (thrown e, w')
    → w'.pending ≡ w.pending
unfolding save_async increment_outstanding_operations
save_async-refused h url value f e w w' r =
    ground (arith, decrement-pending (increment_outstanding_operations w))

pub handle_read-pending :
    (h : Handlers) (ctx : LoadContext) (c : Completion) (w w' : World)
    → handle_read h ctx c w ≡ (returned tt, w')
    → w'.pending ≡ (if has_value c.buffers && c.save then writing ∷ w.pending else w.pending)
unfolding handle_read handle_buffers check_parser save_buffers
handle_read-pending h ctx c w w' e = ground (arith, decrement-pending w)

pub written-pending : (w : World) → (written w).pending ≡ w.pending
unfolding written
written-pending w = decrement-pending w

pub saved-pending : (f : Option ℕ) (v : ResultType) (w : World) → (saved f v w).pending ≡ w.pending
unfolding saved
saved-pending f v w = ground (arith, decrement-pending w)
