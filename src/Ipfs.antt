-- ===== src/Ipfs.antt =====
-- src/IPFSCommon.cpp and src/IPFSLoader.cpp: the download of content from IPFS. One device serves
-- many requests; what each waits for is in a list of its own, except that a device has one timer for
-- the retries. An event is an answer of Bitswap or of the DHT to the request at a place of its list,
-- a lambda that runs, or the timer. How a search starts, whether a text is a content identifier
-- and whether a device can be made are answers too.
pub mod Requests
pub mod Overlap
pub mod Alone
pub mod Growth
pub mod Content
pub mod Instance
pub mod Providers
mod Tests
use async_iomanager.Common.{
  ℕ, zero, suc, ◌+◌, Bool, true, false, Option, none, some, List, [], ◌∷◌, ◌++◌, Bytes, is_empty,
  map, if◌then◌else◌,
}
use async_iomanager.Io.{
  IpfsDeviceError, IpfsLoaderError, ipfs_device, ipfs_loader, Files, success, Completion, failed,
}
use async_iomanager.Url.Ipfs.{IpfsUrl, parse_ipfs_url}

-- A call of `LoadASync` that is under way: a number stands for its `handle_read`.
pub record Request : Type 0 where
  pub handle_read : ℕ
  pub cid : Bytes
  pub filename : Bytes
  pub parse : Bool
  pub save : Bool

-- Bitswap's `UnixFSContent`: whether its type is `SINGLE_FILE`, and its files.
pub record UnixFsContent : Type 0 where
  pub single_file : Bool
  pub files : List (Bytes × Bytes)

-- A posted lambda of the loader.
pub data Task : Type 0 where
  find_peers request_block : Request → Task

pub record IpfsDevice : Type 0 where
  -- whether `dht_` is set
  pub dht : Bool
  pub queued : List Task
  -- the requests that wait for `FindProviders`, and for `RequestContent`
  pub searching : List Request
  pub requesting : List Request
  -- the request that waits for `dhtretry_`
  pub retrying : Option Request
  -- the requests whose wait for it was cancelled: their lambda logs an error
  pub aborted : List Request
  -- the requests whose search has thrown: the exception has left `io_context::run`
  pub thrown : List Request
  -- the calls of completion callbacks that were posted, the latest first
  pub posted : List (ℕ × Completion)

pub data Found : Type 0 where
  -- an error, or a list of providers, which may be empty
  not_found no_providers providers : Found

-- How a search starts: the hash of the content identifier makes no peer identifier, which the code
-- needs and does not use; `FindProviders` fails at once, or the search is under way.
pub data Search : Type 0 where
  no_peer_id not_started started : Search

pub data Event : Type 0 where
  run_queued : ℕ → Search → Event
  found : ℕ → Found → Event
  received : ℕ → Option UnixFsContent → Event
  -- the timer, and how the search that follows starts
  retry : Search → Event

unfoldable pub complete : Request → Completion → IpfsDevice → IpfsDevice
complete r c d = record d { posted = (r.handle_read, c) ∷ d.posted }

abbrev pub cannot_decode : Completion
cannot_decode = failed (ipfs_device IpfsDeviceError.cannot_decode)

-- `RequestBlockMain`.
unfoldable pub request_block_main : Request → IpfsDevice → IpfsDevice
request_block_main r d = record d { requesting = r ∷ d.requesting }

-- `StartFindingPeers`, with how the search starts.
unfoldable pub start_finding_peers : Request → Search → IpfsDevice → IpfsDevice
start_finding_peers r search d =
    if d.dht
    then elim search [
      | no_peer_id ↦ record d { thrown = r ∷ d.thrown }
      | not_started ↦ complete r cannot_decode d
      | started ↦ record d { searching = r ∷ d.searching }
    ]
    else request_block_main r d

-- The request that waits for a timer, as a list.
abbrev pub waiting : Option Request → List Request
waiting none = []
waiting (some r) = r ∷ []

-- `StartFindingPeersWithRetry`: `expires_from_now` cancels a wait that is pending. A wait that is over,
-- and whose lambda is queued, is not cancelled: in the model the lambda runs as soon as the wait is over.
unfoldable pub start_finding_peers_with_retry : Request → IpfsDevice → IpfsDevice
start_finding_peers_with_retry r d = record d {
  retrying = some r;
  aborted = waiting d.retrying ++ d.aborted;
}

-- The lambda of `FindProviders`.
unfoldable pub on_found : Request → Found → IpfsDevice → IpfsDevice
on_found r not_found d = complete r cannot_decode d
on_found r no_providers d = start_finding_peers_with_retry r d
on_found r providers d = request_block_main r d

-- The names and the contents that `convertUnixFSContentToResult` makes of the files.
pub convert_files : UnixFsContent → Bytes → Files
convert_files content filename =
    if content.single_file
    then elim content.files [
      | [] ↦ record { paths = []; contents = [] }
      | file ∷ files ↦ record {
        paths = (if is_empty filename then file.0 else filename) ∷ [];
        contents = file.1 ∷ [];
      }
    ]
    else record {
      paths = map (λ (f : Bytes × Bytes). f.0) content.files;
      contents = map (λ (f : Bytes × Bytes). f.1) content.files;
    }

-- `convertUnixFSContentToResult`; its `catch` is for want of memory.
pub convert_unix_fs_content_to_result : Request → UnixFsContent → IpfsDevice → IpfsDevice
convert_unix_fs_content_to_result r content d =
    complete r
      (record {
        buffers = success (some (convert_files content r.filename));
        parse = r.parse;
        save = r.save;
      })
      d

-- The lambda of `RequestContent`.
pub on_received : Request → Option UnixFsContent → IpfsDevice → IpfsDevice
on_received r none d = complete r cannot_decode d
on_received r (some content) d = convert_unix_fs_content_to_result r content d

-- The element at a place, and the others.
unfoldable pub take_at {ℓ} : {A : Type ℓ} → ℕ → List A → Option (A × List A)
take_at i [] = none
take_at zero (x ∷ xs) = some (x, xs)
take_at (suc i) (x ∷ xs) = elim (take_at i xs) [ none ↦ none | some (y, ys) ↦ some (y, x ∷ ys) ]

unfoldable pub run_task : Task → Search → IpfsDevice → IpfsDevice
run_task (find_peers r) search d = start_finding_peers r search d
run_task (request_block r) search d = request_block_main r d

-- One event. An answer to a request that is not there does not occur, and changes nothing.
unfoldable pub step : IpfsDevice → Event → IpfsDevice
step d (run_queued i search) = elim (take_at i d.queued) [
  | none ↦ d
  | some (t, ts) ↦ run_task t search (record d { queued = ts })
]
step d (found i answer) = elim (take_at i d.searching) [
  | none ↦ d
  | some (r, rs) ↦ on_found r answer (record d { searching = rs })
]
step d (received i answer) = elim (take_at i d.requesting) [
  | none ↦ d
  | some (r, rs) ↦ on_received r answer (record d { requesting = rs })
]
step d (retry search) = elim d.retrying [
  | none ↦ d
  | some r ↦ start_finding_peers r search (record d { retrying = none })
]

pub run : IpfsDevice → List Event → IpfsDevice
run d [] = d
run d (e ∷ es) = run (step d e) es

abbrev pub new_device : Bool → IpfsDevice
new_device dht = record {
  dht = dht;
  queued = [];
  searching = [];
  requesting = [];
  retrying = none;
  aborted = [];
  thrown = [];
  posted = [];
}

abbrev pub no_url : IpfsUrl
no_url = record { cid = []; file = [] }

abbrev pub fail : Request → IpfsLoaderError → IpfsDevice → IpfsDevice
fail r e d = complete r (failed (ipfs_loader e)) d

-- `IPFSLoader::LoadASync` without an external Bitswap instance: the device is the shared one.
unfoldable pub load_async_shared : Request → Bool → Bool → IpfsDevice → IpfsDevice
load_async_shared r listens is_cid d =
    if listens
    then (if is_cid
        then record d { queued = find_peers r ∷ d.queued }
        else fail r IpfsLoaderError.bad_cid d)
    else fail r IpfsLoaderError.cannot_listen d

-- With an external instance: the device is new, and has the external DHT if there is one.
pub load_async_external : Request → Bool → Bool → Bool → IpfsDevice
load_async_external r dht is_cid created =
    if is_cid
    then (if created
        then record (new_device dht) {
          queued = (if dht then find_peers r else request_block r) ∷ [];
        }
        else fail r IpfsLoaderError.cannot_listen (new_device dht))
    else fail r IpfsLoaderError.bad_cid (new_device dht)

-- The request for a file of a URL.
abbrev pub request_of : Bytes → ℕ → Bool → Bool → Request
request_of url handle_read parse save = record {
  handle_read = handle_read;
  cid = (parse_ipfs_url url no_url).1.cid;
  filename = (parse_ipfs_url url no_url).1.file;
  parse = parse;
  save = save;
}

-- `IPFSLoader::LoadASync` on the shared device.
unfoldable pub load_async : Bytes → ℕ → Bool → Bool → Bool → Bool → IpfsDevice → IpfsDevice
load_async url handle_read parse save listens is_cid d =
    let r = request_of url handle_read parse save in
    if (parse_ipfs_url url no_url).0
    then load_async_shared r listens is_cid d
    else fail r IpfsLoaderError.invalid_url d
