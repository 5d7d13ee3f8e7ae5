-- ===== src/System/Tests/Losing.antt =====
-- A run in which the shared IPFS device loses a request (src/FileManager.cpp, src/IPFSCommon.cpp), and
-- the theorems about the shared device at it.
use async_iomanager.System.Tests.{handlers, fresh}
use async_iomanager.Common.{
  ℕ, ◌<◌, List, Bytes, arith, true, false, some, [], ◌∷◌, codes, find, rfind, ◌≡◌, refl,
}
use async_iomanager.Io.{ipfs_device, IpfsDeviceError, failed, Completion, returned}
use async_iomanager.Url.Components.{get_url_components, extension_of}
use async_iomanager.Manager.State.{LoadContext, Task, World}
use async_iomanager.Manager.State.{reading as held}
use async_iomanager.Manager.Maps
use async_iomanager.Manager.{
  load_async, handle_read, handle_buffers, increment_outstanding_operations,
  decrement_outstanding_operations,
}
use async_iomanager.System.Interface.{posted}
use async_iomanager.Ipfs
use async_iomanager.Ipfs.{
  started, IpfsDevice, new_device, no_providers, not_found, run_queued, found, retry,
}
use async_iomanager.Ipfs.Requests.{count}
use async_iomanager.Url.Ipfs.{parse_ipfs_url}
use async_iomanager.System.Stopping.{Serves, begin_serving, then_serve}
use async_iomanager.System.Losing.{unused, lost_never_stops}
use async_iomanager.System.SharedIpfs.{Answers, event, run_posted, step, shared_ipfs}
use async_iomanager.System.Instances.{loaders, savers}
use async_iomanager.System.{
  asking, starts_shared, shared_goes_on, answered, System, Runs, begin, then_step,
}

-- Two loads on the shared IPFS device, by which the request of the first one is lost.
abbrev ipfs_world : World
ipfs_world = record fresh { loaders = (codes "ipfs", 3) ∷ [] }

abbrev asked_context : ℕ → LoadContext
asked_context f = record { savetype = codes "ipfs"; suffix = codes "x"; finalcall = f }

abbrev asked_world : ℕ → List Task → World
asked_world n ts = record ipfs_world { outstanding_operations = n; pending = ts }

abbrev both_held : List Task
both_held = held (asked_context 8) ∷ held (asked_context 7) ∷ []

abbrev answers : Answers
answers = record { listens = true; is_cid = true }

abbrev base : Bytes
base = codes "c/a.x"

-- The device while the loads are made, and after the answers to their searches.
abbrev loaded_device : IpfsDevice
loaded_device =
    Ipfs.load_async base 2 false false true true
      (Ipfs.load_async base 1 false false true true (new_device true))

abbrev device_after : IpfsDevice → List Ipfs.Event → IpfsDevice
device_after d [] = d
device_after d (e ∷ es) = device_after (Ipfs.step d e) es

abbrev searches : List Ipfs.Event
searches =
    run_queued 0 started ∷ run_queued 0 started ∷ found 0 no_providers ∷ found 0 no_providers ∷ []

abbrev losing : System loaders savers shared_ipfs
losing = record {
  world = asked_world 2 both_held;
  jobs = asking 2 (asked_context 8) ∷ asking 1 (asked_context 7) ∷ [];
  shared = device_after loaded_device searches;
}

first_runs :
    load_async handlers (codes "ipfs://c/a.x") false false 7 (codes "ipfs") ipfs_world
    ≡ (returned (codes "c/a.x"), asked_world 1 (held (asked_context 7) ∷ []))
unfolding load_async increment_outstanding_operations get_url_components extension_of find rfind
    Maps.find
first_runs = refl

second_runs :
    load_async handlers
      (codes "ipfs://c/a.x")
      false
      false
      8
      (codes "ipfs")
      (asked_world 1 (held (asked_context 7) ∷ []))
    ≡ (returned (codes "c/a.x"), asked_world 2 both_held)
unfolding load_async increment_outstanding_operations get_url_components extension_of find rfind
    Maps.find
second_runs = refl

losing_run :
    Runs loaders savers shared_ipfs handlers
      (unused loaders savers handlers ipfs_world true)
      (some 8 ∷ some 7 ∷ [])
      losing
unfolding get_url_components extension_of find rfind
losing_run =
    then_step
      (then_step
        (then_step
          (then_step
            (then_step
              (then_step begin (
                starts_shared (codes "ipfs://c/a.x") false false 7 (codes "ipfs") (codes "c/a.x") 1
                  answers (asked_world 1 (held (asked_context 7) ∷ [])) refl first_runs))
              (starts_shared (codes "ipfs://c/a.x") false false 8 (codes "ipfs") (codes "c/a.x") 2
                answers (asked_world 2 both_held) refl second_runs))
            (shared_goes_on (event (run_queued 0 started)) refl))
          (shared_goes_on (event (run_queued 0 started)) refl))
        (shared_goes_on (event (found 0 no_providers)) refl))
      (shared_goes_on (event (found 0 no_providers)) refl)

first_lost : 0 < count 1 losing.shared.aborted
unfolding Ipfs.load_async Ipfs.load_async_shared parse_ipfs_url find Ipfs.take_at Ipfs.step
    Ipfs.run_task Ipfs.start_finding_peers Ipfs.on_found Ipfs.start_finding_peers_with_retry
first_lost = omega arith

-- The second search fails, and its callback runs.
abbrev undecodable : Completion
undecodable = failed (ipfs_device IpfsDeviceError.cannot_decode)

abbrev settled : System loaders savers shared_ipfs
settled = record {
  world = record (asked_world 1 (held (asked_context 7) ∷ [])) {
    finals = (8, undecodable.buffers) ∷ [];
  };
  jobs = asking 1 (asked_context 7) ∷ [];
  shared =
      (step (device_after losing.shared (retry started ∷ found 0 not_found ∷ [])) (run_posted 0)).0;
}

undecodable_runs :
    handle_read handlers (asked_context 8) undecodable (asked_world 2 (held (asked_context 7) ∷ []))
    ≡ (returned tt, settled.world)
unfolding handle_read handle_buffers decrement_outstanding_operations
undecodable_runs = refl

second_posted :
    (step (device_after losing.shared (retry started ∷ found 0 not_found ∷ [])) (run_posted 0)).1
    ≡ (2, undecodable) ∷ []
unfolding Ipfs.load_async Ipfs.load_async_shared parse_ipfs_url find Ipfs.take_at Ipfs.step
    Ipfs.run_task Ipfs.start_finding_peers Ipfs.on_found Ipfs.start_finding_peers_with_retry
    Ipfs.complete
second_posted = refl

second_ends : Serves loaders savers shared_ipfs handlers losing settled
second_ends =
    then_serve
      (then_serve (then_serve begin_serving (shared_goes_on (event (retry started)) refl) tt)
        (shared_goes_on (event (found 0 not_found)) refl) tt)
      (answered [] (asking 1 (asked_context 7) ∷ []) 2 (asked_context 8) (run_posted 0) undecodable
        (posted tt) settled.world refl second_posted refl undecodable_runs)
      tt

lost_never_stops_example :
    (settled.world.stopped ≡ false) × (0 < settled.world.outstanding_operations)
lost_never_stops_example =
    lost_never_stops loaders savers handlers ipfs_world true losing settled 1 refl refl losing_run
      refl first_lost second_ends
