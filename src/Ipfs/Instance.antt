-- ===== src/Ipfs/Instance.antt =====
-- The shared device (src/IPFSCommon.cpp, `IPFSDevice::getInstance`). Whether the address can be
-- listened on, and whether the DHT starts, are answers.
use async_iomanager.Common.{
  ℕ, Bool, true, Option, none, some, List, [], ◌∷◌, if◌then◌else◌, ◌≡◌, refl, arith,
}

-- A device: the io_context for which it was made, and whether its DHT was started.
pub record SharedDevice : Type 0 where
  pub ioc : ℕ
  pub dht_started : Bool

-- A call, for an io_context, with its answers.
pub record InstanceCall : Type 0 where
  pub ioc : ℕ
  pub listens : Bool
  pub dht_starts : Bool

pub data Outcome : Type 0 where
  listen_error dht_error : Outcome
  device : SharedDevice → Outcome

-- `instance_` before and after; a device whose DHT does not start stays.
pub get_instance : InstanceCall → Option SharedDevice → Outcome × Option SharedDevice
get_instance c (some d) = (device d, some d)
get_instance c none =
    let made : SharedDevice = record { ioc = c.ioc; dht_started = c.dht_starts } in
    if c.listens
    then ((if c.dht_starts then device made else dht_error), some made)
    else (listen_error, none)

pub get_instances : List InstanceCall → Option SharedDevice → List Outcome × Option SharedDevice
get_instances [] i = ([], i)
get_instances (c ∷ cs) i =
    let (r, i') = get_instance c i in let (rs, i'') = get_instances cs i' in (r ∷ rs, i'')

abbrev pub same_device : SharedDevice → List InstanceCall → List Outcome
same_device d [] = []
same_device d (c ∷ cs) = device d ∷ same_device d cs

-- What the calls return, when there is no device: each fails until one can listen. Its device is made
-- for its io_context, and all later calls return it, even if it failed to start its DHT.
abbrev pub expected : List InstanceCall → List Outcome
expected [] = []
expected (c ∷ cs) =
    let rest = expected cs in
    if c.listens
    then ((if c.dht_starts then device (record { ioc = c.ioc; dht_started = true }) else dht_error)
        ∷ same_device (record { ioc = c.ioc; dht_started = c.dht_starts }) cs)
    else listen_error ∷ rest

get_instances-some :
    (d : SharedDevice) (cs : List InstanceCall) → (get_instances cs (some d)).0 ≡ same_device d cs
unfolding get_instances get_instance
get_instances-some d [] = refl
get_instances-some d (c ∷ cs) = rw (get_instances-some d cs) refl

-- From a process with no device, a sequence of calls of `getInstance` returns just that: the calls
-- fail until one can listen; that one makes the device for its own io_context, and every later call
-- returns this device, whatever its own io_context, and also where the call that made it reported
-- that the DHT did not start.
pub get_instances-expected : (cs : List InstanceCall) → (get_instances cs none).0 ≡ expected cs
unfolding get_instances get_instance
get_instances-expected [] = refl
get_instances-expected (c ∷ cs) = ground (
  arith,
  get_instances-expected cs,
  get_instances-some (record { ioc = c.ioc; dht_started = c.dht_starts }) cs,
)
