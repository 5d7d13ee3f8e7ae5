-- ===== src/System/Tests.antt =====
-- A run of `FileManager` with the device of a local file (src/FileManager.cpp, src/MNNLoader.cpp), and
-- the theorems about the system at it.
mod Losing
use async_iomanager.Common.{
  ℕ, ◌<◌, ◌⊎◌, List, Bytes, arith, true, false, some, [], ◌∷◌, codes, find, rfind, inl, inr, ◌≡◌,
  refl,
}
use async_iomanager.Io.{
  ipfs_device, IpfsDeviceError, MnnLoaderError, mnn_loader, failed, Completion, returned,
}
use async_iomanager.Url.Components.{get_url_components, extension_of}
use async_iomanager.Local
use async_iomanager.Manager.State.{Handlers, LoadContext, Task, World}
use async_iomanager.Manager.State.{reading as held}
use async_iomanager.Manager.Maps
use async_iomanager.Manager.Steps.{Reach}
use async_iomanager.Manager.Finals.{calls}
use async_iomanager.Manager.{
  load_async, handle_read, handle_buffers, increment_outstanding_operations,
  decrement_outstanding_operations,
}
use async_iomanager.System.Interface.{awaits, posted, input}
use async_iomanager.Ipfs
use async_iomanager.Ipfs.{IpfsDevice, new_device, no_providers, not_found, run_queued, found, retry}
use async_iomanager.Ipfs.Requests.{count}
use async_iomanager.Url.Ipfs.{parse_ipfs_url}
use async_iomanager.System.Stopping.{Serves, begin_serving, then_serve}
use async_iomanager.System.Sharing.{Asks}
use async_iomanager.System.Losing.{unused, lost_never_stops}
use async_iomanager.System.SharedIpfs.{Answers, event, run_posted, step, shared_ipfs}
use async_iomanager.System.Instances.{loaders, savers, Reading}
use async_iomanager.System.{
  asking, starts_shared, shared_goes_on, answered, Job, loading, System, starts_load, loaded, Runs,
  begin, then_step,
}
use async_iomanager.System.Tasks.{Matches}
use async_iomanager.System.Refinement.{Runs-Refines}
use async_iomanager.System.Settling.{settled_finals}

abbrev handlers : Handlers
handlers = record {
  load_file = λ l base. returned base;
  parse_data = λ p value. returned value;
  save_file = λ s base value. returned tt;
  load_async = λ l base parse save. returned base;
  save_async = λ s base r suffix. returned tt;
}

abbrev fresh : World
fresh = record {
  loaders = (codes "file", 1) ∷ [];
  parsers = [];
  savers = [];
  outstanding_operations = 0;
  stopped = false;
  pending = [];
  finals = [];
}

abbrev context : LoadContext
context = record { savetype = codes "ipfs"; suffix = codes "x"; finalcall = 7 }

-- After `LoadASync("file://a.x", …)` with the final callback 7.
abbrev counted : World
counted = record fresh { outstanding_operations = 1; pending = held context ∷ [] }

abbrev unreadable : Completion
unreadable = failed (mnn_loader MnnLoaderError.read_error)

abbrev over : World
over = record fresh { stopped = true; finals = (7, unreadable.buffers) ∷ [] }

abbrev file : Local.State → Reading
file s = record { file = codes "a.x"; parse = false; save = false; state = s }

abbrev job : Local.State → Job loaders savers shared_ipfs
job s = loading (awaits (inr (inr (inl (file s))))) context

load_runs :
    load_async handlers (codes "file://a.x") false false 7 (codes "ipfs") fresh
    ≡ (returned (codes "a.x"), counted)
unfolding load_async increment_outstanding_operations get_url_components extension_of find rfind
    Maps.find
load_runs = refl

read_runs :
    handle_read handlers context unreadable (record counted { pending = [] }) ≡ (returned tt, over)
unfolding handle_read handle_buffers decrement_outstanding_operations
read_runs = refl

abbrev start : System loaders savers shared_ipfs
start = record { world = fresh; jobs = []; shared = new_device true }

abbrev end : System loaders savers shared_ipfs
end = record { world = over; jobs = job Local.finished ∷ []; shared = new_device true }

-- The file opens, and its read fails.
unreadable_file : Runs loaders savers shared_ipfs handlers start (some 7 ∷ []) end
unfolding Local.step Local.on_read get_url_components extension_of find rfind
unreadable_file =
    then_step
      (then_step begin (
        starts_load (codes "file://a.x") false false 7 (codes "ipfs") (codes "a.x")
          (awaits (inr (inr (inl (file Local.reading))))) counted refl load_runs))
      (loaded [] [] (awaits (inr (inr (inl (file Local.reading))))) context
        (input (inr (inr (inl (Local.read_done 5 []))))) unreadable (posted tt) over refl refl refl
        read_runs)

Runs-Refines_example :
    Matches loaders savers shared_ipfs end × Reach handlers fresh (some 7 ∷ []) over
Runs-Refines_example =
    Runs-Refines loaders savers shared_ipfs handlers start end refl unreadable_file

settled_finals_example : (over.outstanding_operations ≡ 0) × (calls 7 over.finals ≡ 1)
settled_finals_example =
    settled_finals loaders savers shared_ipfs handlers fresh (new_device true) end 7 refl refl refl
      unreadable_file refl
