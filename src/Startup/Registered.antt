-- ===== src/Startup/Registered.antt =====
-- What is registered after `FileManager::InitializeSingletons` (src/FileManager.cpp).
use async_iomanager.Common.{
  ℕ, Bool, true, false, Option, none, List, [], ◌∷◌, ◌++◌, Bytes, codes, ◌⊎◌, ◌≡◌, ◌≢◌, refl, arith,
  ap, All, ◌∙◌, ◌||◌, ◌↔◌, Bool-cases, inl, inr,
}
use async_iomanager.Io.{ResultType, returned, thrown, range_error}
use async_iomanager.Manager.State.{Data, Handlers, World}
use async_iomanager.Manager.Maps
use async_iomanager.Manager.Maps.{same}
use async_iomanager.Manager.Dispatch.{no_loader_throws, no_saver_throws, no_parser_never_returns}
use async_iomanager.Manager.{
  register_loader, register_saver, components_of, load_async, load_file, save_file, save_async,
}
use async_iomanager.Startup.{
  Class, construct, Process, initialize_singleton, initialize_singletons, initialize_each,
  startup_order,
}

-- A singleton that exists goes on existing, and the one that is initialized exists.
exists-kept :
    (c e : Class) (p : Process) → p.exists e ≡ true → (initialize_singleton c p).exists e ≡ true
unfolding initialize_singleton
exists-kept c e p h = ground arith

exists-initialized : (c : Class) (p : Process) → (initialize_singleton c p).exists c ≡ true
unfolding initialize_singleton
exists-initialized c p = ground arith

-- A singleton that exists is left alone.
initialize_existing : (c : Class) (p : Process) → p.exists c ≡ true → initialize_singleton c p ≡ p
unfolding initialize_singleton
initialize_existing c p e = rw e refl

each-kept :
    (cs : List Class) (e : Class) (p : Process)
    → p.exists e ≡ true
    → (initialize_each cs p).exists e ≡ true
unfolding initialize_each
each-kept [] e p h = h
each-kept (c ∷ cs) e p h = each-kept cs e (initialize_singleton c p) (exists-kept c e p h)

each-exists : (cs : List Class) (p : Process) → All (λ e. (initialize_each cs p).exists e ≡ true) cs
unfolding initialize_each
each-exists [] p = tt
each-exists (c ∷ cs) p =
    let p' = initialize_singleton c p in
    (each-kept cs c p' (exists-initialized c p), each-exists cs p')

each_existing :
    (cs : List Class) (p : Process) → All (λ e. p.exists e ≡ true) cs → initialize_each cs p ≡ p
unfolding initialize_each
each_existing [] p h = refl
each_existing (c ∷ cs) p (h, hs) =
    ap (initialize_each cs) (initialize_existing c p h) ∙ each_existing cs p hs

-- A second `InitializeSingletons` changes nothing, whatever was initialized before the first.
pub initialize_singletons_again :
    (p : Process) → initialize_singletons (initialize_singletons p) ≡ initialize_singletons p
unfolding initialize_singletons
initialize_singletons_again p =
    each_existing startup_order (initialize_each startup_order p) (each-exists startup_order p)

-- A process before `InitializeSingletons`, in which nothing has been registered.
abbrev pub new_process : Process
new_process = record {
  exists = λ c. false;
  world = record {
    loaders = [];
    parsers = [];
    savers = [];
    outstanding_operations = 0;
    stopped = false;
    pending = [];
    finals = [];
  };
}

-- `FileManager` after it.
abbrev pub started : World
started = (initialize_singletons new_process).world

pub started-maps :
    (started.loaders ≡ (codes "file", 1) ∷ (codes "https", 2) ∷ (codes "ipfs", 3) ∷ [])
    × (started.parsers ≡ [])
    × (started.savers
        ≡ (codes "ipfs", 4) ∷ (codes "file", 5) ∷ (codes "mnn", 5) ∷ (codes "sftp", 6) ∷ [])
unfolding initialize_singletons initialize_each initialize_singleton construct register_loader
    register_saver Maps.register
started-maps = (refl, refl, refl)

-- The world that `InitializeSingletons` leaves: no operation, and the io_context not stopped.
pub record IsIdle (w : World) : Type 0 where
  pub counter : w.outstanding_operations ≡ 0
  pub running : w.stopped ≡ false
  pub nothing_held : w.pending ≡ []
  pub none_called : w.finals ≡ []

pub started-IsIdle : IsIdle started
unfolding initialize_singletons initialize_each initialize_singleton construct register_loader
    register_saver
started-IsIdle = record { counter = refl; running = refl; nothing_held = refl; none_called = refl }

-- The loaders and the savers that a prefix reaches.
abbrev pub is_loadable : Bytes → Bool
is_loadable prefix =
    same (codes "file") prefix || (same (codes "https") prefix || same (codes "ipfs") prefix)

abbrev pub is_local : Bytes → Bool
is_local prefix = same (codes "file") prefix || same (codes "mnn") prefix

abbrev pub is_savable : Bytes → Bool
is_savable prefix = is_local prefix || (same (codes "ipfs") prefix || same (codes "sftp") prefix)

started-loaders :
    (prefix : Bytes) → (is_loadable prefix ≡ false) ↔ (Maps.find prefix started.loaders ≡ none)
unfolding Maps.find
started-loaders prefix = rw (started-maps.0) (ground arith)

started-savers :
    (prefix : Bytes) → (is_savable prefix ≡ false) ↔ (Maps.find prefix started.savers ≡ none)
unfolding Maps.find
started-savers prefix = rw (started-maps.2) (ground arith)

started-parsers : (suffix : Bytes) → Maps.find suffix started.parsers ≡ none
unfolding Maps.find
started-parsers suffix = rw (started-maps.1) refl

-- After `InitializeSingletons` of a new process, with whatever handlers: a load of a URL whose prefix
-- is not "file", "https" or "ipfs", and a save to one whose prefix is not "file", "mnn", "ipfs" or
-- "sftp", throws and changes nothing; and no synchronous load that is to be parsed comes back with a
-- value, whatever the URL, since there is no parser.
pub started_refuses :
    (h : Handlers) (url : Bytes) (parse save : Bool) (f : ℕ) (g : Option ℕ) (savetype : Bytes)
    (value v : Data) (buffers : ResultType)
    → let prefix = (components_of url).prefix in
      let no_loader = range_error (codes "No loader registered for prefix " ++ prefix) in
      let no_saver = range_error (codes "No saver registered for prefix " ++ prefix) in
      ((is_loadable prefix ≡ true)
        ⊎ ((load_file h url parse started ≡ (thrown no_loader, started))
            × (load_async h url parse save f savetype started ≡ (thrown no_loader, started))))
      × ((is_savable prefix ≡ true)
          ⊎ ((save_file h url value started ≡ (thrown no_saver, started))
              × (save_async h url buffers g started ≡ (thrown no_saver, started))))
      × ((load_file h url true started).0 ≢ returned v)
started_refuses h url parse save f g savetype value v buffers =
    let prefix = (components_of url).prefix in
    (
      elim (Bool-cases (is_loadable prefix)) [
        | inl known ↦ inl known
        | inr unknown ↦ inr (
            no_loader_throws h url parse save f savetype started
              ((started-loaders prefix).0 unknown))
      ],
      elim (Bool-cases (is_savable prefix)) [
        | inl known ↦ inl known
        | inr unknown ↦
            inr (no_saver_throws h url g value buffers started ((started-savers prefix).0 unknown))
      ],
      no_parser_never_returns h url v started (started-parsers (components_of url).extension),
    )
