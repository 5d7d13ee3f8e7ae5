-- ===== src/Ipfs/Overlap.antt =====
-- When an IPFS device loses a request (src/IPFSCommon.cpp, `StartFindingPeersWithRetry`).
use async_iomanager.Common.{
  ℕ, ◌≤◌, Bool, Bytes, Option, none, some, List, [], ◌∷◌, ◌≡◌, refl, ap, arith,
}
use async_iomanager.Ipfs.{
  Search, Request, UnixFsContent, Task, find_peers, request_block, IpfsDevice, Found, no_providers,
  Event, run_queued, found, received, retry, complete, request_block_main, start_finding_peers,
  waiting, start_finding_peers_with_retry, on_found, convert_unix_fs_content_to_result, on_received,
  take_at, run_task, step, run, load_async, load_async_shared,
}
use async_iomanager.Ipfs.Requests.{
  count, count_posted, all_requests, count-append, step-all_requests, run-all_requests,
}

-- A lost request stays lost.
found-aborted :
    (h : ℕ) (r : Request) (answer : Found) (d : IpfsDevice)
    → count h d.aborted ≤ count h (on_found r answer d).aborted
unfolding on_found start_finding_peers_with_retry complete request_block_main
found-aborted h r answer d = ground (arith, count-append h (waiting d.retrying) d.aborted)

start-aborted :
    (r : Request) (search : Search) (d : IpfsDevice)
    → (start_finding_peers r search d).aborted ≡ d.aborted
unfolding start_finding_peers complete request_block_main
start-aborted r search d = ground arith

task-aborted :
    (t : Task) (search : Search) (d : IpfsDevice) → (run_task t search d).aborted ≡ d.aborted
unfolding run_task request_block_main
task-aborted (find_peers r) search d = start-aborted r search d
task-aborted (request_block r) search d = refl

received-aborted :
    (r : Request) (answer : Option UnixFsContent) (d : IpfsDevice)
    → (on_received r answer d).aborted ≡ d.aborted
unfolding on_received convert_unix_fs_content_to_result complete
received-aborted r answer d = ground arith

pub step-aborted :
    (h : ℕ) (d : IpfsDevice) (e : Event) → count h d.aborted ≤ count h (step d e).aborted
unfolding step
step-aborted h d (run_queued i search) =
    elim (take_at i d.queued)
      as (λ x.
        let y : IpfsDevice = elim x [
          | none ↦ d
          | some p ↦ run_task p.0 search (record d { queued = p.1 })
        ] in
        count h d.aborted ≤ count h y.aborted) [
          | none ↦ omega arith
          | some (r, rs) ↦
              omega (arith, ap (count h) (task-aborted r search (record d { queued = rs })))
        ]
step-aborted h d (found i answer) =
    elim (take_at i d.searching)
      as (λ x.
        let y : IpfsDevice = elim x [
          | none ↦ d
          | some p ↦ on_found p.0 answer (record d { searching = p.1 })
        ] in
        count h d.aborted ≤ count h y.aborted) [
          | none ↦ omega arith
          | some (r, rs) ↦ found-aborted h r answer (record d { searching = rs })
        ]
step-aborted h d (received i answer) =
    elim (take_at i d.requesting)
      as (λ x.
        let y : IpfsDevice = elim x [
          | none ↦ d
          | some p ↦ on_received p.0 answer (record d { requesting = p.1 })
        ] in
        count h d.aborted ≤ count h y.aborted) [
          | none ↦ omega arith
          | some (r, rs) ↦
              omega (arith, ap (count h) (received-aborted r answer (record d { requesting = rs })))
        ]
step-aborted h d (retry search) =
    elim d.retrying
      as (λ x.
        let y : IpfsDevice = elim x [
          | none ↦ d
          | some r ↦ start_finding_peers r search (record d { retrying = none })
        ] in
        count h d.aborted ≤ count h y.aborted) [
          | none ↦ omega arith
          | some r ↦
              omega (arith, ap (count h) (start-aborted r search (record d { retrying = none })))
        ]

pub load_async-aborted :
    (url : Bytes) (handle_read : ℕ) (parse save listens is_cid : Bool) (d : IpfsDevice)
    → (load_async url handle_read parse save listens is_cid d).aborted ≡ d.aborted
unfolding load_async load_async_shared complete
load_async-aborted url handle_read parse save listens is_cid d = ground arith

run-aborted :
    (h : ℕ) (d : IpfsDevice) (es : List Event) → count h d.aborted ≤ count h (run d es).aborted
unfolding run
run-aborted h d [] = omega arith
run-aborted h d (e ∷ es) = omega (arith, step-aborted h d e, run-aborted h (step d e) es)

overlap-aborted :
    (d : IpfsDevice) (i : ℕ) (r r' : Request) (rs : List Request)
    → d.retrying ≡ some r
    → take_at i d.searching ≡ some (r', rs)
    → 1 ≤ count r.handle_read (step d (found i no_providers)).aborted
unfolding step on_found start_finding_peers_with_retry
overlap-aborted d i r r' rs at e = rw (step, e, at) (ground arith)

-- Where a request waits for the timer, which has not expired, is the only one with its handle, and the search of another
-- one finds no providers, the first is never completed, whatever events follow.
pub overlap_loses :
    (d : IpfsDevice) (i : ℕ) (r r' : Request) (rs : List Request) (es : List Event)
    → d.retrying ≡ some r
    → take_at i d.searching ≡ some (r', rs)
    → all_requests r.handle_read d ≡ 1
    → count_posted r.handle_read (run d (found i no_providers ∷ es)).posted ≡ 0
unfolding run
overlap_loses d i r r' rs es at e once =
    let s = step d (found i no_providers) in
    omega (
      arith,
      once,
      overlap-aborted d i r r' rs at e,
      run-aborted r.handle_read s es,
      run-all_requests r.handle_read s es,
      step-all_requests r.handle_read d (found i no_providers),
    )
