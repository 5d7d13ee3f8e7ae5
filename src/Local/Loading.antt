-- ===== src/Local/Loading.antt =====
-- What the load of a local file reports (src/MNNLoader.cpp).
use async_iomanager.Common.{
  append-nil, arith, ℕ, ◌+◌, length, Bool, true, false, some, List, [], ◌∷◌, ◌++◌, Bytes, filename,
  ◌==◌, if◌then◌else◌, ◌≡◌, refl, ap,
}
use async_iomanager.Io.{
  MnnLoaderError, mnn_loader, success, Completion, failed, callbacks, callbacks-append,
}
use async_iomanager.Local.{
  State, reading, finished, Event, read_done, load_async, on_read, step, run,
}

-- The callbacks that a load has made when it is in a state: one when it is finished.
abbrev pub due : State → ℕ
due reading = 0
due finished = 1

pub step-due :
    (file : Bytes) (parse save : Bool) (s : State) (e : Event)
    → length (callbacks (step file parse save s e).1) + due s ≡ due (step file parse save s e).0
unfolding step on_read
step-due file parse save reading (read_done error buffer) = ground arith
step-due file parse save finished e = omega arith

pub load_async-due :
    (file : Bytes) (opens : Bool)
    → length (callbacks (load_async file opens).1) ≡ due (load_async file opens).0
unfolding load_async
load_async-due file opens = ground arith

-- The completions that the reads call for: the first read decides.
abbrev pub expected : Bytes → Bool → Bool → List Event → List Completion
expected file parse save [] = []
expected file parse save (read_done error buffer ∷ es) =
    (if error == 2
      then record {
        buffers = success (some (record { paths = filename file ∷ []; contents = buffer ∷ [] }));
        parse = parse;
        save = save;
      }
      else failed (mnn_loader MnnLoaderError.read_error))
    ∷ []

run-finished :
    (file : Bytes) (parse save : Bool) (es : List Event)
    → callbacks (run file parse save finished es).1 ≡ []
unfolding run step
run-finished file parse save [] = refl
run-finished file parse save (e ∷ es) = run-finished file parse save es

on_read-callbacks :
    (file : Bytes) (parse save : Bool) (error : ℕ) (buffer : Bytes)
    → ((on_read file parse save error buffer).0 ≡ finished)
      × (callbacks (on_read file parse save error buffer).1
          ≡ expected file parse save (read_done error buffer ∷ []))
unfolding on_read
on_read-callbacks file parse save error buffer = ground arith

run-reading :
    (file : Bytes) (parse save : Bool) (es : List Event)
    → callbacks (run file parse save reading es).1 ≡ expected file parse save es
unfolding run step
run-reading file parse save [] = refl
run-reading file parse save (read_done error buffer ∷ es) =
    let (s, acts) = on_read file parse save error buffer in
    let (over, made) = on_read-callbacks file parse save error buffer in
    rw
      (
        callbacks-append acts (run file parse save s es).1,
        over,
        run-finished file parse save es,
        append-nil,
      )
      made

-- The load of a local file reports once: at once that the file does not open, or, when the read is
-- over, the whole file under its name where the read ended at the end of the file, and a read error
-- otherwise. What happens later makes no difference.
pub load_async-expected :
    (file : Bytes) (parse save opens : Bool) (es : List Event)
    → let (s, acts) = load_async file opens in
      callbacks (acts ++ (run file parse save s es).1) ≡ (
        if opens
        then expected file parse save es
        else failed (mnn_loader MnnLoaderError.file_open_fail) ∷ [])
unfolding load_async
load_async-expected file parse save true es = run-reading file parse save es
load_async-expected file parse save false es =
    ap (λ cs. failed (mnn_loader MnnLoaderError.file_open_fail) ∷ cs)
      (run-finished file parse save es)
