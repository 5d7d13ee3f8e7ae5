-- ===== src/Manager/Tests.antt =====
-- A small file manager, runs of it, and the theorems about src/FileManager.cpp at it.
use async_iomanager.Common.{
  ℕ, true, false, none, some, [], ◌∷◌, codes, find, rfind, if◌then◌else◌, ◌==◌, ◌≡◌, ◌≢◌, ◌↔◌, ◌⊎◌,
  refl, arith,
}
use async_iomanager.Io.{
  HttpError, http_device, failure, success, has_value, Completion, returned, thrown, undefined,
  runtime_error,
}
use async_iomanager.Url.Components.{get_url_components, extension_of}
use async_iomanager.Manager.State.{Handlers, LoadContext, reading, World}
use async_iomanager.Manager.Maps
use async_iomanager.Manager.Dispatch.{handle_read_undefined_iff}
use async_iomanager.Manager.{
  load_async, save_async, handle_read, increment_outstanding_operations,
  decrement_outstanding_operations,
}

-- Handler 1 answers; handler 2 throws from its asynchronous calls.
abbrev handlers : Handlers
handlers = record {
  load_file = λ l base. returned base;
  parse_data = λ p value. returned value;
  save_file = λ s base value. returned tt;
  load_async = λ l base parse save. if l == 2 then thrown (runtime_error []) else returned base;
  save_async = λ s base r suffix. if s == 2 then thrown (runtime_error []) else returned tt;
}

abbrev fresh : World
fresh = record {
  loaders = (codes "file", 1) ∷ (codes "bad", 2) ∷ [];
  parsers = [];
  savers = (codes "bad", 2) ∷ [];
  outstanding_operations = 0;
  stopped = false;
  pending = [];
  finals = [];
}

abbrev context : LoadContext
context = record { savetype = codes "file"; suffix = codes "x"; finalcall = 7 }

-- After `LoadASync("file://a.x", …)` with the final callback 7.
abbrev loading : World
loading = record fresh { outstanding_operations = 1; pending = reading context ∷ [] }

abbrev timed_out : Completion
timed_out = record {
  buffers = failure (http_device HttpError.timeout);
  parse = false;
  save = false;
}

abbrev over : World
over = record fresh { stopped = true; finals = (7, timed_out.buffers) ∷ [] }

-- A load that throws, then a load that times out.
abbrev leaked : World
leaked = record fresh { outstanding_operations = 1 }

abbrev loading_then : World
loading_then = record leaked { outstanding_operations = 2; pending = reading context ∷ [] }

abbrev one_left : World
one_left = record leaked { finals = (7, timed_out.buffers) ∷ [] }

-- The load of a file that is to be saved with the saver that throws.
abbrev to_bad : LoadContext
to_bad = record { savetype = codes "bad"; suffix = codes "x"; finalcall = 8 }

abbrev holding : World
holding = record one_left { outstanding_operations = 2; pending = reading to_bad ∷ [] }

abbrev two_lost : World
two_lost = record holding { pending = [] }

abbrev loaded : Completion
loaded = record { buffers = success none; parse = false; save = true }

bad_save_runs :
    save_async handlers (codes "bad://a") (success none) none loading
    ≡ (thrown (runtime_error []), loading)
unfolding save_async increment_outstanding_operations decrement_outstanding_operations
    get_url_components extension_of find rfind Maps.find
bad_save_runs = refl

never_undefined :
    (l : ℕ)
    → Maps.find context.savetype fresh.savers ≡ some l
    → handlers.save_async l [] (success none) context.suffix ≢ undefined
never_undefined l e = ground arith

handle_read_undefined_iff_example :
    let c = record timed_out { buffers = success none; parse = true } in
    ((handle_read handlers context c fresh).0 ≡ undefined) ↔ (
      (has_value c.buffers ≡ true)
      × (((c.parse ≡ true) × (Maps.find (codes "mnn") fresh.parsers ≡ none))
          ⊎ ((c.save ≡ true) × (Maps.find context.savetype fresh.savers ≡ none))))
handle_read_undefined_iff_example =
    handle_read_undefined_iff handlers context
      (record timed_out { buffers = success none; parse = true }) fresh never_undefined
