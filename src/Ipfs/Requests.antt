-- ===== src/Ipfs/Requests.antt =====
-- What becomes of the requests of an IPFS device (src/IPFSCommon.cpp, src/IPFSLoader.cpp).
use async_iomanager.Common.{
  ℕ, zero, suc, ◌+◌, Bool, Option, none, some, List, [], ◌∷◌, ◌++◌, Bytes, ◌==◌, if◌then◌else◌, ◌≡◌,
  refl, ap, ◌∙◌, arith,
}
use async_iomanager.Io.{Completion}
use async_iomanager.Ipfs.{
  Search, Request, UnixFsContent, Task, find_peers, request_block, IpfsDevice, Found, Event,
  run_queued, found, received, retry, complete, request_block_main, start_finding_peers, waiting,
  start_finding_peers_with_retry, on_found, convert_unix_fs_content_to_result, on_received, take_at,
  run_task, step, run, load_async_shared, load_async, new_device,
}

-- 1 where a number is the handle.
abbrev pub is : ℕ → ℕ → ℕ
is h n = if n == h then 1 else 0

-- A sum over a list.
abbrev pub total {ℓ} : {A : Type ℓ} → (A → ℕ) → List A → ℕ
total f [] = 0
total f (x ∷ xs) = f x + total f xs

abbrev pub task_request : Task → Request
task_request (find_peers r) = r
task_request (request_block r) = r

-- How often a handle occurs.
abbrev pub count : ℕ → List Request → ℕ
count h rs = total (λ r. is h r.handle_read) rs

abbrev pub count_queued : ℕ → List Task → ℕ
count_queued h ts = total (λ t. is h (task_request t).handle_read) ts

abbrev pub count_posted : ℕ → List (ℕ × Completion) → ℕ
count_posted h ps = total (λ p. is h p.0) ps

-- The requests for a handle that are under way.
abbrev pub under_way : ℕ → IpfsDevice → ℕ
under_way h d =
    count_queued h d.queued
    + count h d.searching
    + count h d.requesting
    + count h (waiting d.retrying)

-- All requests for a handle: under way, completed, lost with the timer, or in a search that threw.
abbrev pub all_requests : ℕ → IpfsDevice → ℕ
all_requests h d = under_way h d + count_posted h d.posted + count h d.aborted + count h d.thrown

pub count-append : (h : ℕ) (rs ss : List Request) → count h (rs ++ ss) ≡ count h rs + count h ss
count-append h [] ss = omega arith
count-append h (r ∷ rs) ss = omega (arith, count-append h rs ss)

pub total-take_at {ℓ} :
    {A : Type ℓ} (f : A → ℕ) (i : ℕ) (xs : List A)
    → total f xs ≡ elim (take_at i xs) [ none ↦ total f xs | some p ↦ f p.0 + total f p.1 ]
unfolding take_at
total-take_at f i [] = refl
total-take_at f zero (x ∷ xs) = refl
total-take_at f (suc i) (x ∷ xs) = ground (arith, total-take_at f i xs)

-- A request that is handed on is counted once more.
start-all_requests :
    (h : ℕ) (r : Request) (search : Search) (d : IpfsDevice)
    → all_requests h (start_finding_peers r search d) ≡ is h r.handle_read + all_requests h d
unfolding start_finding_peers complete request_block_main
start-all_requests h r search d = ground arith

task-all_requests :
    (h : ℕ) (t : Task) (search : Search) (d : IpfsDevice)
    → all_requests h (run_task t search d) ≡ is h (task_request t).handle_read + all_requests h d
unfolding run_task request_block_main
task-all_requests h (find_peers r) search d = start-all_requests h r search d
task-all_requests h (request_block r) search d = omega arith

found-all_requests :
    (h : ℕ) (r : Request) (answer : Found) (d : IpfsDevice)
    → all_requests h (on_found r answer d) ≡ is h r.handle_read + all_requests h d
unfolding on_found start_finding_peers_with_retry complete request_block_main
found-all_requests h r answer d = ground (arith, count-append h (waiting d.retrying) d.aborted)

received-all_requests :
    (h : ℕ) (r : Request) (answer : Option UnixFsContent) (d : IpfsDevice)
    → all_requests h (on_received r answer d) ≡ is h r.handle_read + all_requests h d
unfolding on_received convert_unix_fs_content_to_result complete
received-all_requests h r answer d = ground arith

-- What one answer does, given how the list of its requests splits.
task_answered :
    (h : ℕ) (search : Search) (x : Option (Task × List Task)) (d : IpfsDevice)
    → count_queued h d.queued ≡ elim x [
      | none ↦ count_queued h d.queued
      | some p ↦ is h (task_request p.0).handle_read + count_queued h p.1
    ]
    → all_requests h
        (elim x [ none ↦ d | some p ↦ run_task p.0 search (record d { queued = p.1 }) ])
      ≡ all_requests h d
task_answered h search none d e = refl
task_answered h search (some (r, rs)) d e =
    omega (arith, e, task-all_requests h r search (record d { queued = rs }))

search_answered :
    (h : ℕ) (answer : Found) (x : Option (Request × List Request)) (d : IpfsDevice)
    → count h d.searching
      ≡ elim x [ none ↦ count h d.searching | some p ↦ is h p.0.handle_read + count h p.1 ]
    → all_requests h
        (elim x [ none ↦ d | some p ↦ on_found p.0 answer (record d { searching = p.1 }) ])
      ≡ all_requests h d
search_answered h answer none d e = refl
search_answered h answer (some (r, rs)) d e =
    omega (arith, e, found-all_requests h r answer (record d { searching = rs }))

content_answered :
    (h : ℕ) (answer : Option UnixFsContent) (x : Option (Request × List Request)) (d : IpfsDevice)
    → count h d.requesting
      ≡ elim x [ none ↦ count h d.requesting | some p ↦ is h p.0.handle_read + count h p.1 ]
    → all_requests h
        (elim x [ none ↦ d | some p ↦ on_received p.0 answer (record d { requesting = p.1 }) ])
      ≡ all_requests h d
content_answered h answer none d e = refl
content_answered h answer (some (r, rs)) d e =
    omega (arith, e, received-all_requests h r answer (record d { requesting = rs }))

retry_answered :
    (h : ℕ) (search : Search) (x : Option Request) (d : IpfsDevice)
    → d.retrying ≡ x
    → all_requests h
        (elim x [ none ↦ d | some r ↦ start_finding_peers r search (record d { retrying = none }) ])
      ≡ all_requests h d
retry_answered h search none d e = refl
retry_answered h search (some r) d e = omega (
  arith,
  ap (λ x. count h (waiting x)) e,
  start-all_requests h r search (record d { retrying = none }),
)

pub step-all_requests :
    (h : ℕ) (d : IpfsDevice) (e : Event) → all_requests h (step d e) ≡ all_requests h d
unfolding step
step-all_requests h d (run_queued i search) =
    task_answered h search (take_at i d.queued) d (total-take_at _ i d.queued)
step-all_requests h d (found i answer) =
    search_answered h answer (take_at i d.searching) d (total-take_at _ i d.searching)
step-all_requests h d (received i answer) =
    content_answered h answer (take_at i d.requesting) d (total-take_at _ i d.requesting)
step-all_requests h d (retry search) = retry_answered h search d.retrying d refl

pub run-all_requests :
    (h : ℕ) (d : IpfsDevice) (es : List Event) → all_requests h (run d es) ≡ all_requests h d
unfolding run
run-all_requests h d [] = refl
run-all_requests h d (e ∷ es) = run-all_requests h (step d e) es ∙ step-all_requests h d e

pub load_async-all_requests :
    (h : ℕ) (url : Bytes) (handle_read : ℕ) (parse save listens is_cid : Bool) (d : IpfsDevice)
    → all_requests h (load_async url handle_read parse save listens is_cid d)
      ≡ is h handle_read + all_requests h d
unfolding load_async load_async_shared complete
load_async-all_requests h url handle_read parse save listens is_cid d = ground arith

-- What happens to a shared device: a call of the loader, with the answers that it gets at once, or
-- an event.
pub data Input : Type 0 where
  load : Bytes → ℕ → Bool → Bool → Bool → Bool → Input
  event : Event → Input

pub apply : IpfsDevice → Input → IpfsDevice
apply d (load url handle_read parse save listens is_cid) =
    load_async url handle_read parse save listens is_cid d
apply d (event e) = step d e

pub apply_all : IpfsDevice → List Input → IpfsDevice
apply_all d [] = d
apply_all d (i ∷ is) = apply_all (apply d i) is

-- How many loads have a handle.
abbrev pub loads : ℕ → List Input → ℕ
loads h [] = 0
loads h (load url handle_read parse save listens is_cid ∷ is) =
    (if handle_read == h then 1 else 0) + loads h is
loads h (event e ∷ is) = loads h is

apply_all-all_requests :
    (h : ℕ) (d : IpfsDevice) (is : List Input)
    → all_requests h (apply_all d is) ≡ loads h is + all_requests h d
unfolding apply_all apply
apply_all-all_requests h d [] = omega arith
apply_all-all_requests h d (load url handle_read parse save listens is_cid ∷ is) = omega (
  arith,
  apply_all-all_requests h (load_async url handle_read parse save listens is_cid d) is,
  load_async-all_requests h url handle_read parse save listens is_cid d,
)
apply_all-all_requests h d (event e ∷ is) =
    omega (arith, apply_all-all_requests h (step d e) is, step-all_requests h d e)

-- Whatever the loads, the answers and their order, each load of the shared device is at any time
-- either under way, or completed once, or lost in a wait for the timer that another request has
-- cancelled, or lost with an exception that its search has thrown, and never two of these.
pub loads_accounted :
    (h : ℕ) (dht : Bool) (is : List Input)
    → let d = apply_all (new_device dht) is in
      under_way h d + count_posted h d.posted + count h d.aborted + count h d.thrown ≡ loads h is
loads_accounted h dht is = omega (arith, apply_all-all_requests h (new_device dht) is)
