-- ===== src/Ipfs/Alone.antt =====
-- A request that has a device of its own (src/IPFSLoader.cpp, `LoadASync` with an external Bitswap
-- instance; src/IPFSCommon.cpp).
use async_iomanager.Common.{
  ℕ, zero, suc, ◌+◌, Bool, Option, none, some, List, [], ◌∷◌, length, ◌≡◌, refl, ap, arith,
}
use async_iomanager.Ipfs.{
  Search, Request, UnixFsContent, Task, find_peers, request_block, IpfsDevice, Found, Event,
  run_queued, found, received, retry, complete, request_block_main, start_finding_peers, waiting,
  start_finding_peers_with_retry, on_found, convert_unix_fs_content_to_result, on_received, take_at,
  run_task, step, run, load_async_external,
}

-- How many requests a device has under way.
abbrev pub busy : IpfsDevice → ℕ
busy d = length d.queued + length d.searching + length d.requesting + length (waiting d.retrying)

-- One request, under way, completed, or in a search that threw, and none lost with the timer.
pub record IsAlone (d : IpfsDevice) : Type 0 where
  pub one : busy d + length d.posted + length d.thrown ≡ 1
  pub none_lost : d.aborted ≡ []

-- The device without the one request.
record IsEmpty (d : IpfsDevice) : Type 0 where
  nothing : busy d + length d.posted + length d.thrown ≡ 0
  none_lost : d.aborted ≡ []

start-IsAlone :
    (r : Request) (search : Search) (d : IpfsDevice)
    → IsEmpty d
    → IsAlone (start_finding_peers r search d)
unfolding start_finding_peers complete request_block_main
start-IsAlone r search d e = record {
  one = ground (arith, e.nothing);
  none_lost = ground (arith, e.none_lost);
}

task-IsAlone :
    (t : Task) (search : Search) (d : IpfsDevice) → IsEmpty d → IsAlone (run_task t search d)
unfolding run_task request_block_main
task-IsAlone (find_peers r) search d e = start-IsAlone r search d e
task-IsAlone (request_block r) search d e = record {
  one = omega (arith, e.nothing);
  none_lost = e.none_lost;
}

found-IsAlone :
    (r : Request) (answer : Found) (d : IpfsDevice) → IsEmpty d → IsAlone (on_found r answer d)
unfolding on_found start_finding_peers_with_retry complete request_block_main
found-IsAlone r answer d e = record {
  one = ground (arith, e.nothing);
  none_lost = ground (arith, e.nothing, e.none_lost);
}

received-IsAlone :
    (r : Request) (answer : Option UnixFsContent) (d : IpfsDevice)
    → IsEmpty d
    → IsAlone (on_received r answer d)
unfolding on_received convert_unix_fs_content_to_result complete
received-IsAlone r answer d e = record {
  one = ground (arith, e.nothing);
  none_lost = ground (arith, e.none_lost);
}

length-take_at {ℓ} :
    {A : Type ℓ} (i : ℕ) (xs : List A)
    → length xs ≡ elim (take_at i xs) [ none ↦ length xs | some p ↦ 1 + length p.1 ]
unfolding take_at
length-take_at i [] = refl
length-take_at zero (x ∷ xs) = omega arith
length-take_at (suc i) (x ∷ xs) = ground (arith, length-take_at i xs)

task_answered :
    (search : Search) (x : Option (Task × List Task)) (d : IpfsDevice)
    → length d.queued ≡ elim x [ none ↦ length d.queued | some p ↦ 1 + length p.1 ]
    → IsAlone d
    → IsAlone (elim x [ none ↦ d | some p ↦ run_task p.0 search (record d { queued = p.1 }) ])
task_answered search none d e a = a
task_answered search (some (r, rs)) d e a =
    task-IsAlone r search (record d { queued = rs })
      (record { nothing = omega (arith, e, a.one); none_lost = a.none_lost })

search_answered :
    (answer : Found) (x : Option (Request × List Request)) (d : IpfsDevice)
    → length d.searching ≡ elim x [ none ↦ length d.searching | some p ↦ 1 + length p.1 ]
    → IsAlone d
    → IsAlone (elim x [ none ↦ d | some p ↦ on_found p.0 answer (record d { searching = p.1 }) ])
search_answered answer none d e a = a
search_answered answer (some (r, rs)) d e a =
    found-IsAlone r answer (record d { searching = rs })
      (record { nothing = omega (arith, e, a.one); none_lost = a.none_lost })

content_answered :
    (answer : Option UnixFsContent) (x : Option (Request × List Request)) (d : IpfsDevice)
    → length d.requesting ≡ elim x [ none ↦ length d.requesting | some p ↦ 1 + length p.1 ]
    → IsAlone d
    → IsAlone
        (elim x [ none ↦ d | some p ↦ on_received p.0 answer (record d { requesting = p.1 }) ])
content_answered answer none d e a = a
content_answered answer (some (r, rs)) d e a =
    received-IsAlone r answer (record d { requesting = rs })
      (record { nothing = omega (arith, e, a.one); none_lost = a.none_lost })

retry_answered :
    (search : Search) (x : Option Request) (d : IpfsDevice)
    → d.retrying ≡ x
    → IsAlone d
    → IsAlone
        (elim x [ none ↦ d | some r ↦ start_finding_peers r search (record d { retrying = none }) ])
retry_answered search none d e a = a
retry_answered search (some r) d e a =
    start-IsAlone r search (record d { retrying = none })
      (record {
        nothing = omega (arith, ap (λ x. length (waiting x)) e, a.one);
        none_lost = a.none_lost;
      })

pub step-IsAlone : (d : IpfsDevice) (e : Event) → IsAlone d → IsAlone (step d e)
unfolding step
step-IsAlone d (run_queued i search) a =
    task_answered search (take_at i d.queued) d (length-take_at i d.queued) a
step-IsAlone d (found i answer) a =
    search_answered answer (take_at i d.searching) d (length-take_at i d.searching) a
step-IsAlone d (received i answer) a =
    content_answered answer (take_at i d.requesting) d (length-take_at i d.requesting) a
step-IsAlone d (retry search) a = retry_answered search d.retrying d refl a

run-IsAlone : (d : IpfsDevice) (es : List Event) → IsAlone d → IsAlone (run d es)
unfolding run
run-IsAlone d [] a = a
run-IsAlone d (e ∷ es) a = run-IsAlone (step d e) es (step-IsAlone d e a)

pub start_external :
    (r : Request) (dht is_cid created : Bool) → IsAlone (load_async_external r dht is_cid created)
unfolding load_async_external complete
start_external r dht is_cid created = record { one = ground arith; none_lost = ground arith }

-- A request on a device of its own is never lost with the timer: at any time it is under way, or has
-- been completed once, or its search has thrown.
pub load_async_external_once :
    (r : Request) (dht is_cid created : Bool) (es : List Event)
    → let d = run (load_async_external r dht is_cid created) es in
      (busy d + length d.posted + length d.thrown ≡ 1) × (d.aborted ≡ [])
load_async_external_once r dht is_cid created es =
    let a =
      run-IsAlone (load_async_external r dht is_cid created) es
        (start_external r dht is_cid created) in
    (a.one, a.none_lost)
