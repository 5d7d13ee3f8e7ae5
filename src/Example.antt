-- ===== src/Example.antt =====
-- example/MNNExample.cpp: the program that loads the URLs on its command line, with the IPFS network
-- that it has set up. The number of a final callback is the place of its URL among the arguments.
pub mod Providers
pub mod Loads
pub mod Ends
mod Tests
use async_iomanager.Common.{
  ℕ, ◌+◌, Bool, true, false, Option, none, some, List, [], ◌∷◌, ◌++◌, Bytes, codes, get_elem?, ◌&&◌,
  if◌then◌else◌,
}
use async_iomanager.Io.{ResultType, has_value, Call, returned, thrown, undefined, Exception}
use async_iomanager.Url.Components.{get_url_components}
use async_iomanager.Url.Ipfs.{IpfsUrl, parse_ipfs_url}
use async_iomanager.Manager.Maps.{same}
use async_iomanager.Manager.State.{Handlers, World, M, ◌>>=◌, return}
use async_iomanager.Manager.{no_components, load_async}
use async_iomanager.Bitswap
use async_iomanager.Bitswap.{no_instance, set_bitswap}
use async_iomanager.Startup.{Process, initialize_singletons}

-- The calls of Bitswap, and the lines that are printed.
pub data Output : Type 0 where
  usage : Output
  add_provider : ℕ → Output
  added_provider : Bytes → Bytes → Output
  invalid_cid could_not_parse skipped : Bytes → Output

abbrev pub no_parts : IpfsUrl
no_parts = record { cid = []; file = [] }

-- `ContentIdentifierCodec::fromString` is a parameter; a number stands for a content identifier.
module _ (from_string : Bytes → Option ℕ) where
  -- The branches on the base of an IPFS URL.
  pub seek_content : Bytes → Bytes → List Output
  seek_content file_name base =
      let (parsed, parts) = parse_ipfs_url base no_parts in
      if parsed
      then elim (from_string parts.cid) [
        | some cid ↦ add_provider cid ∷ added_provider parts.cid file_name ∷ []
        | none ↦ invalid_cid file_name ∷ []
      ]
      else could_not_parse file_name ∷ []

  -- The body of the loop that adds the provider.
  pub seek : Bytes → List Output
  seek file_name =
      let (split, c) = get_url_components file_name no_components in
      if split && same c.prefix (codes "ipfs")
      then seek_content file_name c.base
      else skipped file_name ∷ []

  pub seek_each : List Bytes → List Output
  seek_each [] = []
  seek_each (file_name ∷ file_names) = seek file_name ++ seek_each file_names

-- The loop of the loads.
pub load_each : Handlers → ℕ → List Bytes → M (Unit {0})
load_each h i [] = return tt
load_each h i (file_name ∷ file_names) = do
  _ ← load_async h file_name false true i (codes "ipfs")
  load_each h (i + 1) file_names

-- How `main` goes on: it returns 1, an exception leaves it, or it runs the io_context.
pub data Exit : Type 0 where
  failed : Exit
  terminated : Exception → Exit
  undefined_exit : Exit
  serves : Exit

abbrev pub exit_of : Call (Unit {0}) → Exit
exit_of (returned a) = serves
exit_of (thrown e) = terminated e
exit_of undefined = undefined_exit

pub record Program : Type 0 where
  pub exit : Exit
  pub world : World
  pub external : Bitswap.Handlers
  pub output : List Output

-- The IPFS handlers, which `InitializeSingletons` has made.
abbrev pub no_external : Bitswap.Handlers
no_external = record { loader = some no_instance; saver = some no_instance; cache_dir = [] }

-- `main`, up to `io_context::run`, with its arguments but for the name of the program. Its Bitswap
-- instance and the directory of it are parameters.
pub main : (Bytes → Option ℕ) → (ℕ → Bytes) → ℕ → Handlers → Process → List Bytes → Program
main from_string cache_dir_of bitswap h p [] = record {
  exit = failed;
  world = p.world;
  external = no_external;
  output = usage ∷ [];
}
main from_string cache_dir_of bitswap h p (arg ∷ args) =
    let (r, w) = load_each h 0 (arg ∷ args) (initialize_singletons p).world in
    record {
      exit = exit_of r;
      world = w;
      external = set_bitswap cache_dir_of (some bitswap) none no_external;
      output = seek_each from_string (arg ∷ args);
    }
