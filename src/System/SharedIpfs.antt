-- ===== src/System/SharedIpfs.antt =====
-- The shared device of IPFS in the system (src/IPFSCommon.cpp, src/IPFSLoader.cpp), and what the loss
-- of a request means for `FileManager`.
use async_iomanager.Common.{
  ℕ, ◌+◌, ◌≤◌, Bool, Option, none, some, List, [], ◌∷◌, length, ◌≡◌, arith,
}
use async_iomanager.Io.{Completion}
use async_iomanager.Ipfs
use async_iomanager.Ipfs.{IpfsDevice, take_at, load_async}
use async_iomanager.Ipfs.Requests.{
  all_requests, count_posted, is, total-take_at, step-all_requests, load_async-all_requests,
}
use async_iomanager.System.Interface.{Shared, made_for}

-- An event of the device, or a completion callback that was posted runs.
pub data Input : Type 0 where
  event : Ipfs.Event → Input
  run_posted : ℕ → Input

abbrev pub take_posted :
    IpfsDevice
    → Option ((ℕ × Completion) × List (ℕ × Completion))
    → IpfsDevice × List (ℕ × Completion)
take_posted d none = (d, [])
take_posted d (some (p, ps)) = (record d { posted = ps }, p ∷ [])

abbrev pub step : IpfsDevice → Input → IpfsDevice × List (ℕ × Completion)
step d (event e) = (Ipfs.step d e, [])
step d (run_posted i) = take_posted d (take_at i d.posted)

-- Whether the instance can listen, and whether the text is a content identifier.
pub record Answers : Type 0 where
  pub listens : Bool
  pub is_cid : Bool

pub shared_holds :
    (j : ℕ) (d : IpfsDevice) (i : Input)
    → made_for j (step d i).1 + all_requests j (step d i).0 ≡ all_requests j d
shared_holds j d (event e) = omega (arith, step-all_requests j d e)
shared_holds j d (run_posted i) =
    by_place (take_at i d.posted) (total-take_at (λ p. is j p.0) i d.posted)
  where
    by_place :
        (x : Option ((ℕ × Completion) × List (ℕ × Completion)))
        → count_posted j d.posted
          ≡ elim x [ none ↦ count_posted j d.posted | some p ↦ is j p.0.0 + count_posted j p.1 ]
        → made_for j (take_posted d x).1 + all_requests j (take_posted d x).0 ≡ all_requests j d
    by_place none e = omega arith
    by_place (some (p, ps)) e = omega (arith, e)

pub shared_one : (d : IpfsDevice) (i : Input) → length (step d i).1 ≤ 1
shared_one d (event e) = omega arith
shared_one d (run_posted i) = by_place (take_at i d.posted)
  where
    by_place :
        (x : Option ((ℕ × Completion) × List (ℕ × Completion))) → length (take_posted d x).1 ≤ 1
    by_place none = omega arith
    by_place (some (p, ps)) = omega arith

-- The shared device of IPFS.
abbrev pub shared_ipfs : Shared Completion
shared_ipfs = record {
  Phase = IpfsDevice;
  Answers = Answers;
  Input = Input;
  start = λ file k parse save a d. load_async file k parse save a.listens a.is_cid d;
  step = step;
  held = all_requests;
  start_holds =
      λ j file k parse save a d. load_async-all_requests j file k parse save a.listens a.is_cid d;
  step_holds = shared_holds;
  one_at_most = shared_one;
}
