-- ===== src/Example/Tests.antt =====
-- The program with one local file (example/MNNExample.cpp), and the theorems about it.
use async_iomanager.Common.{
  ◌⊎◌, ℕ, true, false, Option, none, some, [], ◌∷◌, Bytes, codes, find, rfind, All, is_empty,
  if◌then◌else◌, ◌≡◌, ◌↔◌, ◌+◌, refl, inl, inr,
}
use async_iomanager.Io.{Exception, MnnLoaderError, mnn_loader, failed, Completion, returned}
use async_iomanager.Url.Components.{get_url_components, extension_of}
use async_iomanager.Url.Ipfs.{parse_ipfs_url}
use async_iomanager.Local
use async_iomanager.Manager.State.{Handlers, World}
use async_iomanager.Manager.Maps
use async_iomanager.Manager.Finals.{calls, owed}
use async_iomanager.Manager.{handle_read, handle_buffers}
use async_iomanager.System.Interface.{awaits, posted, input}
use async_iomanager.Ipfs.{new_device}
use async_iomanager.System.SharedIpfs.{shared_ipfs}
use async_iomanager.System.Instances.{loaders, savers, Reading}
use async_iomanager.System.{System, context_of, loading, loaded, tasks, without}
use async_iomanager.System.Stopping.{Serves, begin_serving, then_serve}
use async_iomanager.Startup.Registered.{new_process, started, started-maps}
use async_iomanager.Example.{terminated, serves, main, Program, seek, seek_content}
use async_iomanager.Example.Providers.{provided, Providers, main-Providers}
use async_iomanager.Example.Loads.{Undefined, IsLoaded}
use async_iomanager.Example.Ends.{main_serves_iff, serving, main_ends}

abbrev handlers : Handlers
handlers = record {
  load_file = λ l base. returned base;
  parse_data = λ p value. returned value;
  save_file = λ s base value. returned tt;
  load_async = λ l base parse save. returned base;
  save_async = λ s base r suffix. returned tt;
}

-- Every text but the empty one is read as the content identifier 9.
abbrev from_string : Bytes → Option ℕ
from_string text = if is_empty text then none else some 9

abbrev cache_dir_of : ℕ → Bytes
cache_dir_of b = codes "/cache"

abbrev program : Program
program = main from_string cache_dir_of 4 handlers new_process (codes "file://a.x" ∷ [])

one_provider : provided (seek from_string (codes "ipfs://Qm1/a.mnn")) ≡ 9 ∷ []
unfolding seek seek_content get_url_components extension_of find rfind parse_ipfs_url
one_provider = refl

main-Providers_example :
    Providers from_string (codes "ipfs://Qm1/a.mnn" ∷ codes "file://a.x" ∷ []) (
      provided
        (main from_string cache_dir_of 4 handlers new_process
          (codes "ipfs://Qm1/a.mnn" ∷ codes "file://a.x" ∷ [])).output)
main-Providers_example =
    main-Providers from_string cache_dir_of 4 handlers new_process
      (codes "ipfs://Qm1/a.mnn" ∷ codes "file://a.x" ∷ [])

main_serves_iff_example :
    ((program.exit ≡ serves) ↔ All (IsLoaded handlers started.loaders) (codes "file://a.x" ∷ []))
    × ((program.exit ≡ serves)
        ⊎ ((e : Exception) × (program.exit ≡ terminated e))
        ⊎ Undefined handlers)
main_serves_iff_example =
    main_serves_iff from_string cache_dir_of 4 handlers (codes "file://a.x") []

is_loaded : IsLoaded handlers started.loaders (codes "file://a.x")
unfolding get_url_components extension_of find rfind Maps.find
is_loaded = record {
  loader = 1;
  value = codes "a.x";
  registered = rw (started-maps.0) refl;
  comes_back = refl;
}

program_serves : program.exit ≡ serves
program_serves = main_serves_iff_example.0.1 (is_loaded, tt)

abbrev reading : Local.State → Reading
reading s = record { file = codes "a.x"; parse = false; save = true; state = s }

abbrev phase : Local.State → loaders.Phase
phase s = awaits (inr (inr (inl (reading s))))

abbrev unreadable : Completion
unreadable = failed (mnn_loader MnnLoaderError.read_error)

abbrev start : System loaders savers shared_ipfs
start =
    serving loaders savers shared_ipfs handlers program.world (codes "file://a.x" ∷ [])
      (phase Local.reading ∷ []) (new_device true)

-- The world after the callback with the failure.
abbrev failed_world : World
failed_world =
    (handle_read handlers (context_of (codes "file://a.x") (codes "ipfs") 0) unreadable
      (without loaders savers shared_ipfs program.world [] [])).1

abbrev end : System loaders savers shared_ipfs
end = record {
  world = failed_world;
  jobs = loading (phase Local.finished) (context_of (codes "file://a.x") (codes "ipfs") 0) ∷ [];
  shared = new_device true;
}

-- The read of the file fails.
unreadable_file : Serves loaders savers shared_ipfs handlers start end
unfolding Local.step Local.on_read handle_read handle_buffers
unreadable_file =
    then_serve begin_serving
      (loaded [] [] (phase Local.reading) (context_of (codes "file://a.x") (codes "ipfs") 0)
        (input (inr (inr (inl (Local.read_done 5 []))))) unreadable (posted tt) failed_world refl
        refl refl refl)
      tt

main_ends_example :
    ((failed_world.stopped ≡ true) ↔ (tasks loaders savers shared_ipfs end.jobs ≡ []))
    × (calls 0 failed_world.finals + owed 0 (tasks loaders savers shared_ipfs end.jobs) ≡ 1)
main_ends_example =
    main_ends loaders savers shared_ipfs handlers from_string cache_dir_of 4 (codes "file://a.x") []
      (phase Local.reading ∷ []) (new_device true) end 0 program_serves (refl, (refl, tt))
      unreadable_file
