-- ===== src/Ipfs/Growth.antt =====
-- What one event adds to the completions of a device that serves one request (src/IPFSCommon.cpp,
-- src/IPFSLoader.cpp).
use async_iomanager.Common.{
  ℕ, ◌+◌, ◌≤◌, Option, none, some, List, [], ◌∷◌, length, ◌==◌, if◌then◌else◌, ◌≡◌, arith,
}
use async_iomanager.Io.{Completion}
use async_iomanager.Ipfs.{
  Search, Request, UnixFsContent, Task, find_peers, request_block, IpfsDevice, Found, Event,
  run_queued, found, received, retry, complete, request_block_main, start_finding_peers,
  start_finding_peers_with_retry, on_found, convert_unix_fs_content_to_result, on_received, take_at,
  run_task, step,
}

abbrev Grows : IpfsDevice → IpfsDevice → Type 0
Grows d d' = length d.posted ≤ length d'.posted

run_task-Grows : (t : Task) (search : Search) (d : IpfsDevice) → Grows d (run_task t search d)
unfolding run_task start_finding_peers complete request_block_main
run_task-Grows (find_peers r) search d = ground arith
run_task-Grows (request_block r) search d = omega arith

start-Grows :
    (r : Request) (search : Search) (d : IpfsDevice) → Grows d (start_finding_peers r search d)
unfolding start_finding_peers complete request_block_main
start-Grows r search d = ground arith

on_found-Grows : (r : Request) (answer : Found) (d : IpfsDevice) → Grows d (on_found r answer d)
unfolding on_found start_finding_peers_with_retry complete request_block_main
on_found-Grows r answer d = ground arith

on_received-Grows :
    (r : Request) (answer : Option UnixFsContent) (d : IpfsDevice)
    → Grows d (on_received r answer d)
unfolding on_received convert_unix_fs_content_to_result complete
on_received-Grows r answer d = ground arith

answered-Grows :
    {A : Type 0} (x : Option A) (d : IpfsDevice) (f : A → IpfsDevice)
    → ((a : A) → Grows d (f a))
    → Grows d (elim x [ none ↦ d | some a ↦ f a ])
answered-Grows none d f h = omega arith
answered-Grows (some a) d f h = h a

-- No completion is taken back.
pub step-Grows : (d : IpfsDevice) (e : Event) → Grows d (step d e)
unfolding step
step-Grows d (run_queued i search) =
    answered-Grows (take_at i d.queued) d (λ p. run_task p.0 search (record d { queued = p.1 }))
      (λ p. run_task-Grows p.0 search (record d { queued = p.1 }))
step-Grows d (found i answer) =
    answered-Grows (take_at i d.searching) d
      (λ p. on_found p.0 answer (record d { searching = p.1 }))
      (λ p. on_found-Grows p.0 answer (record d { searching = p.1 }))
step-Grows d (received i answer) =
    answered-Grows (take_at i d.requesting) d
      (λ p. on_received p.0 answer (record d { requesting = p.1 }))
      (λ p. on_received-Grows p.0 answer (record d { requesting = p.1 }))
step-Grows d (retry search) =
    answered-Grows d.retrying d (λ r. start_finding_peers r search (record d { retrying = none }))
      (λ r. start-Grows r search (record d { retrying = none }))

-- The completions that some posted ones have more than others, where these are at most one.
abbrev pub new_posts : List (ℕ × Completion) → List (ℕ × Completion) → List Completion
new_posts old [] = []
new_posts old (p ∷ ps) = if length old == length (p ∷ ps) then [] else p.1 ∷ []

pub new_posts-length :
    (old new : List (ℕ × Completion))
    → length old ≤ length new
    → length new ≤ 1
    → length (new_posts old new) + length old ≡ length new
new_posts-length old [] grows most = omega arith
new_posts-length old (p ∷ ps) grows most = ground arith
