-- ===== src/Manager/Finals.antt =====
-- The final callbacks of the application (`finalcall` in src/FileManager.cpp): how often each is
-- called, over every interleaving of calls and callbacks.
use async_iomanager.Common.{
  ℕ, ◌+◌, Option, none, some, List, [], ◌∷◌, ◌++◌, ◌==◌, if◌then◌else◌, ◌≡◌, refl, arith, ◌∙◌,
}
use async_iomanager.Io.{ResultType, Completion, returned}
use async_iomanager.Manager.State.{Handlers, LoadContext, Task, reading, writing, saving, World}
use async_iomanager.Manager.Steps.{
  AppCall, loads, load_refused, load_leaks, load_async_refused, load_async_thrown, saves,
  save_throws, Callback, read, write, finish, Reach, here, called, back, requests,
}
use async_iomanager.Manager.{
  increment_outstanding_operations, decrement_outstanding_operations, handle_read, handle_buffers,
  check_parser, save_buffers, load_async, save_async, written, saved,
}

-- How often the final callback `f` was asked for.
abbrev pub count : ℕ → List (Option ℕ) → ℕ
count f [] = 0
count f (none ∷ gs) = count f gs
count f (some g ∷ gs) = (if g == f then 1 else 0) + count f gs

-- How often `f` was called.
abbrev pub calls : ℕ → List (ℕ × ResultType) → ℕ
calls f [] = 0
calls f ((g, r) ∷ gs) = (if g == f then 1 else 0) + calls f gs

-- How often the tasks will call `f`.
abbrev pub owed_by : ℕ → Task → ℕ
owed_by f (reading ctx) = if ctx.finalcall == f then 1 else 0
owed_by f writing = 0
owed_by f (saving none value) = 0
owed_by f (saving (some g) value) = if g == f then 1 else 0

abbrev pub owed : ℕ → List Task → ℕ
owed f [] = 0
owed f (t ∷ ts) = owed_by f t + owed f ts

owed-middle :
    (f : ℕ) (before after : List Task) (t : Task)
    → owed f (before ++ t ∷ after) ≡ owed_by f t + owed f (before ++ after)
owed-middle f [] after t = refl
owed-middle f (b ∷ before) after t = omega (arith, owed-middle f before after t)

count-append : (f : ℕ) (gs hs : List (Option ℕ)) → count f (gs ++ hs) ≡ count f gs + count f hs
count-append f [] hs = omega arith
count-append f (none ∷ gs) hs = count-append f gs hs
count-append f (some g ∷ gs) hs = omega (arith, count-append f gs hs)

-- The calls that were made and those that are owed.
abbrev pub accounted : ℕ → World → ℕ
accounted f w = calls f w.finals + owed f w.pending

decrement-accounted :
    (w : World)
    → ((decrement_outstanding_operations w).finals ≡ w.finals)
      × ((decrement_outstanding_operations w).pending ≡ w.pending)
unfolding decrement_outstanding_operations
decrement-accounted w = ground arith

handle_read-accounted :
    (h : Handlers) (f : ℕ) (ctx : LoadContext) (c : Completion) (w w' : World)
    → handle_read h ctx c w ≡ (returned tt, w')
    → accounted f w' ≡ owed_by f (reading ctx) + accounted f w
unfolding handle_read handle_buffers check_parser save_buffers
handle_read-accounted h f ctx c w w' e = ground (arith, decrement-accounted w)

saved-accounted :
    (f : ℕ) (g : Option ℕ) (value : ResultType) (w : World)
    → accounted f (saved g value w) ≡ owed_by f (saving g value) + accounted f w
unfolding saved
saved-accounted f none value w = ground (arith, decrement-accounted w)
saved-accounted f (some g) value w = ground (arith, decrement-accounted w)

Callback-accounted :
    (h : Handlers) (f : ℕ) (w w' : World) → Callback h w w' → accounted f w' ≡ accounted f w
unfolding written
Callback-accounted h f w w' (read before after ctx c e r) =
    ground (arith, handle_read-accounted h f ctx c _ w' r, owed-middle f before after (reading ctx))
Callback-accounted h f w w' (write before after e r) = ground (
  arith,
  decrement-accounted (record w { pending = before ++ after }),
  owed-middle f before after writing,
)
Callback-accounted h f w w' (finish before after g value e r) = ground (
  arith,
  saved-accounted f g value (record w { pending = before ++ after }),
  owed-middle f before after (saving g value),
)

AppCall-accounted :
    (h : Handlers) (f : ℕ) (w w' : World) (c : AppCall h w w')
    → accounted f w' ≡ count f (requests h c) + accounted f w
unfolding load_async save_async increment_outstanding_operations decrement_outstanding_operations
AppCall-accounted h f w w' (loads url parse save g savetype d e) = ground arith
AppCall-accounted h f w w' (load_refused url parse save g savetype e missing r) =
    rw (load_async_refused h url parse save g savetype e w w' missing r) (omega arith)
AppCall-accounted h f w w' (load_leaks url parse save g savetype e l found r) =
    rw (load_async_thrown h url parse save g savetype e l w w' found r) (omega arith)
AppCall-accounted h f w w' (saves url value none e) = ground arith
AppCall-accounted h f w w' (saves url value (some g) e) = ground arith
AppCall-accounted h f w w' (save_throws url value g e r) = ground arith

-- After any calls, and callbacks that come back, each final callback was called, or is still owed,
-- once for each call that asked for it.
pub Reach-accounted :
    (h : Handlers) (f : ℕ) (w : World) {log : List (Option ℕ)} (w' : World)
    → Reach h w log w'
    → accounted f w' ≡ count f log + accounted f w
Reach-accounted h f w w' here = omega arith
Reach-accounted h f w w' (called {log = log} {u = u} r c) = omega (
  arith,
  AppCall-accounted h f u w' c,
  Reach-accounted h f w u r,
  count-append f (requests h c) log,
)
Reach-accounted h f w w' (back {u = u} r c) =
    Callback-accounted h f u w' c ∙ Reach-accounted h f w u r

-- From a world in which no callback is owed and no final callback was called, after any sequence of
-- calls, and callbacks that come back: when no callback is left to be made, each final callback was
-- called exactly as often as the calls have asked for it.
pub finals_exact :
    (h : Handlers) (f : ℕ) (w : World) {log : List (Option ℕ)} (w' : World)
    → w.finals ≡ []
    → w.pending ≡ []
    → Reach h w log w'
    → w'.pending ≡ []
    → calls f w'.finals ≡ count f log
finals_exact h f w w' none_called none_owed r all_done = ground (arith, Reach-accounted h f w w' r)
