-- ===== src/Ipfs/Tests.antt =====
-- Loads of an IPFS device (src/IPFSCommon.cpp, src/IPFSLoader.cpp), and the theorems about them.
use async_iomanager.Ipfs.Instance.{
  InstanceCall, listen_error, dht_error, device, get_instances, get_instances-expected,
}
use async_iomanager.Common.{ℕ, ◌+◌, true, false, none, some, List, [], ◌∷◌, codes, ◌≡◌, refl}
use async_iomanager.Ipfs.{
  started, Request, UnixFsContent, IpfsDevice, not_found, no_providers, run_queued, found, retry,
  take_at, run, new_device,
}
use async_iomanager.Ipfs.Requests.{
  count, count_posted, under_way, Input, load, event, apply_all, loads_accounted,
}
use async_iomanager.Ipfs.Overlap.{overlap_loses}

-- Two loads on the shared device, whose searches both find no providers.
abbrev both_retry : List Input
both_retry =
    load (codes "cid/one") 1 false false true true
    ∷ load (codes "cid/two") 2 false false true true
    ∷ event (run_queued 0 started)
    ∷ event (run_queued 0 started)
    ∷ event (found 0 no_providers)
    ∷ event (found 0 no_providers)
    ∷ event (retry started)
    ∷ event (found 0 not_found)
    ∷ []

loads_accounted_example :
    under_way 1 (apply_all (new_device true) both_retry)
      + count_posted 1 (apply_all (new_device true) both_retry).posted
      + count 1 (apply_all (new_device true) both_retry).aborted
      + count 1 (apply_all (new_device true) both_retry).thrown
    ≡ 1
loads_accounted_example = loads_accounted 1 true both_retry

abbrev request : ℕ → Request
request h = record {
  handle_read = h;
  cid = codes "cid";
  filename = codes "one";
  parse = false;
  save = false;
}

-- The first request waits for the timer, the second one searches.
abbrev overlapping : IpfsDevice
overlapping = record (new_device true) { searching = request 2 ∷ []; retrying = some (request 1) }

second_searches : take_at 0 overlapping.searching ≡ some (request 2, [])
unfolding take_at
second_searches = refl

overlap_loses_example :
    count_posted 1
      (run overlapping (found 0 no_providers ∷ retry started ∷ found 0 not_found ∷ [])).posted
    ≡ 0
overlap_loses_example =
    overlap_loses overlapping 0 (request 1) (request 2) [] (retry started ∷ found 0 not_found ∷ [])
      refl second_searches refl

abbrev one_file : UnixFsContent
one_file = record { single_file = true; files = (codes "Qm", codes "abc") ∷ [] }

-- The DHT of the first call that can listen does not start; the next call returns the device.
abbrev half_started : List InstanceCall
half_started =
    record { ioc = 1; listens = false; dht_starts = true }
    ∷ record { ioc = 1; listens = true; dht_starts = false }
    ∷ record { ioc = 2; listens = true; dht_starts = true }
    ∷ []

get_instances-expected_example :
    (get_instances half_started none).0
    ≡ listen_error ∷ dht_error ∷ device (record { ioc = 1; dht_started = false }) ∷ []
get_instances-expected_example = get_instances-expected half_started
