-- ===== src/Startup/Tests.antt =====
-- Runs of the start and of the synchronous calls (src/FileManager.cpp), and the theorems about them.
use async_iomanager.Common.{true, false, none, some, [], codes, find, rfind, ◌≡◌, refl, arith}
use async_iomanager.Io.{returned, thrown, runtime_error}
use async_iomanager.Url.Components.{get_url_components, extension_of}
use async_iomanager.Manager.{components_of, load_file, save_file}
use async_iomanager.Local.Sync
use async_iomanager.Local.Sync.{Disk}
use async_iomanager.Startup.{ws_loader, Process, Setting, handlers, initialize_singleton}
use async_iomanager.Startup.Registered.{new_process, started}
use async_iomanager.Startup.Synchronous.{load_file-save_file_url}

abbrev disk : Disk
disk = record { contents = λ path. none; readable = λ path. true; writable = λ path. true }

abbrev setting : Setting
setting = record {
  disk = disk;
  room = 10;
  upload = λ base value. thrown (runtime_error []);
  load_async = λ l base parse save. returned base;
  save_async = λ s base r suffix. returned tt;
}

-- A process in which the WebSocket loader was initialized by hand.
abbrev with_ws : Process
with_ws = initialize_singleton ws_loader new_process

-- A WebSocket URL reaches no loader.
wss_prefix : (components_of (codes "wss://a/b.mnn")).prefix ≡ codes "wss"
unfolding get_url_components extension_of find rfind
wss_prefix = refl

abbrev stored : Setting
stored = record setting {
  disk = (Sync.save_file disk 10 (codes "d/a.mnn") (some (codes "hello"))).1;
}

load_file-save_file_url_example :
    (save_file (handlers stored) (codes "file://d/a.mnn") (codes "hello") started
      ≡ ((handlers stored).save_file 5 (codes "d/a.mnn") (codes "hello"), started))
    × ((handlers setting).save_file 5 (codes "d/a.mnn") (codes "hello")
        ≡ (Sync.save_file setting.disk setting.room (codes "d/a.mnn") (some (codes "hello"))).0)
    × (save_file (handlers setting) (codes "file://d/a.mnn") (codes "hello") started
        ≡ (returned tt, started))
    × (load_file (handlers stored) (codes "file://d/a.mnn") false started
        ≡ (returned (codes "hello"), started))
load_file-save_file_url_example =
    load_file-save_file_url setting (handlers stored) (codes "d/a.mnn") (codes "hello")
      (omega arith) refl refl
