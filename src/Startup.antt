-- ===== src/Startup.antt =====
-- How the handlers come to be registered: `InitializeSingletons` of src/FileManager.cpp, and the
-- `InitializeSingleton` functions and constructors of the handlers (src/MNNLoader.cpp,
-- src/HTTPLoader.cpp, src/IPFSLoader.cpp, src/IPFSSaver.cpp, src/MNNSaver.cpp, src/SFTPSaver.cpp,
-- src/WSLoader.cpp, src/SFTPLoader.cpp). The handlers' synchronous functions too.
pub mod Registered
pub mod Synchronous
mod Tests
use async_iomanager.Common.{
  ℕ, Bool, true, false, Option, none, some, List, [], ◌∷◌, Bytes, codes, ◌==◌, if◌then◌else◌,
}
use async_iomanager.Io.{Call, returned, undefined, ResultType}
use async_iomanager.Manager.State.{Data, Handlers, World}
use async_iomanager.Manager.{register_loader, register_saver}
use async_iomanager.Local.Sync.{Disk, load_file, save_file}

pub data Class : Type 0 where
  mnn_loader http_loader ipfs_loader ipfs_saver mnn_saver sftp_saver ws_loader sftp_loader : Class

-- The numbers that stand for the addresses of the instances.
abbrev pub address : Class → ℕ
address mnn_loader = 1
address http_loader = 2
address ipfs_loader = 3
address ipfs_saver = 4
address mnn_saver = 5
address sftp_saver = 6
address ws_loader = 7
address sftp_loader = 8

abbrev pub same_class : Class → Class → Bool
same_class c e = address c == address e

-- The constructor of a class: it registers the instance.
pub construct : Class → World → World
construct mnn_loader w = register_loader (codes "file") (address mnn_loader) w
construct http_loader w = register_loader (codes "https") (address http_loader) w
construct ipfs_loader w = register_loader (codes "ipfs") (address ipfs_loader) w
construct ipfs_saver w = register_saver (codes "ipfs") (address ipfs_saver) w
construct mnn_saver w =
    register_saver (codes "mnn") (address mnn_saver)
      (register_saver (codes "file") (address mnn_saver) w)
construct sftp_saver w = register_saver (codes "sftp") (address sftp_saver) w
construct ws_loader w = register_loader (codes "wss") (address ws_loader) w
construct sftp_loader w = register_loader (codes "sftp") (address sftp_loader) w

-- The process: which `_instance` pointers are set, and `FileManager`.
pub record Process : Type 0 where
  pub exists : Class → Bool
  pub world : World

-- `InitializeSingleton` of a class.
pub initialize_singleton : Class → Process → Process
initialize_singleton c p = if p.exists c then p else record {
  exists = λ e. if same_class c e then true else p.exists e;
  world = construct c p.world;
}

pub initialize_each : List Class → Process → Process
initialize_each [] p = p
initialize_each (c ∷ cs) p = initialize_each cs (initialize_singleton c p)

abbrev pub startup_order : List Class
startup_order = mnn_loader ∷ http_loader ∷ ipfs_loader ∷ ipfs_saver ∷ mnn_saver ∷ sftp_saver ∷ []

-- `FileManager::InitializeSingletons`.
pub initialize_singletons : Process → Process
initialize_singletons p = initialize_each startup_order p

-- `LoadFile` of the loaders. Those of the remote ones return a fixed text.
pub load_file_of : Disk → Class → Bytes → Call Data
load_file_of disk mnn_loader filename = load_file disk filename
load_file_of disk http_loader filename = returned (codes "Inside the HTTPLoader::LoadFile Function")
load_file_of disk ws_loader filename = returned (codes "Inside the WSLoader::LoadFile Function")
load_file_of disk sftp_loader filename =
    returned (codes "Inside the SFTPTLoader::LoadFile Function")
load_file_of disk ipfs_loader filename = returned (codes "init")
-- the others are no loaders, and are not registered as such
load_file_of disk _ filename = undefined

-- The outcome of `SaveFile` of the savers, but for SFTP, whose outcome is given.
pub save_file_of :
    Disk → ℕ → (Bytes → Data → Call (Unit {0})) → Class → Bytes → Data → Call (Unit {0})
save_file_of disk room sftp mnn_saver filename value = (save_file disk room filename (some value)).0
save_file_of disk room sftp ipfs_saver filename value = returned tt
save_file_of disk room sftp sftp_saver filename value = sftp filename value
save_file_of disk room sftp _ filename value = undefined

-- The class of the instance at an address.
pub class_at : ℕ → Option Class
class_at a =
    if a == 1
    then some mnn_loader
    else (if a == 2
        then some http_loader
        else (if a == 3
            then some ipfs_loader
            else (if a == 4
                then some ipfs_saver
                else (if a == 5
                    then some mnn_saver
                    else (if a == 6
                        then some sftp_saver
                        else (if a == 7
                            then some ws_loader
                            else (if a == 8 then some sftp_loader else none)))))))

-- What the handlers depend on: the disk with its room, the outcome of an upload, and how the
-- asynchronous calls come back.
pub record Setting : Type 0 where
  pub disk : Disk
  pub room : ℕ
  pub upload : Bytes → Data → Call (Unit {0})
  pub load_async : ℕ → Bytes → Bool → Bool → Call Data
  pub save_async : ℕ → Bytes → ResultType → Bytes → Call (Unit {0})

-- The virtual functions of the instances. There is no parser.
pub handlers : Setting → Handlers
handlers t = record {
  load_file =
      λ a base. elim (class_at a) [ none ↦ undefined | some c ↦ load_file_of t.disk c base ];
  parse_data = λ p value. undefined;
  save_file = λ a base value. elim (class_at a) [
    | none ↦ undefined
    | some c ↦ save_file_of t.disk t.room t.upload c base value
  ];
  load_async = t.load_async;
  save_async = t.save_async;
}
