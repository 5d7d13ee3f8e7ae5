-- ===== src/Startup/Synchronous.antt =====
-- The synchronous calls of `FileManager` with the handlers that are registered (src/FileManager.cpp,
-- src/MNNLoader.cpp, src/MNNSaver.cpp, src/HTTPLoader.cpp, src/IPFSLoader.cpp, src/IPFSSaver.cpp).
use async_iomanager.Common.{
  ℕ, ◌≤◌, true, false, none, some, ◌++◌, Bytes, codes, find, length, take_all, refl, ◌≡◌, ap, ◌∙◌,
}
use async_iomanager.Io.{returned}
use async_iomanager.Url.Components.{Components, extension_of}
use async_iomanager.Url.Components.Laws.{extension_of-IsExtension}
use async_iomanager.Manager.State.{Data, Handlers}
use async_iomanager.Manager.Maps
use async_iomanager.Manager.Dispatch.{components_written, load_file-reaches, save_file-reaches}
use async_iomanager.Manager.{components_of, load_file, save_file}
use async_iomanager.Local.Sync
use async_iomanager.Local.Sync.{save_file-cut}
use async_iomanager.Startup.{Setting, handlers, class_at, load_file_of, save_file_of}
use async_iomanager.Startup.Registered.{started, started-maps}

-- The parts of a URL with one of the registered prefixes.
abbrev url_of : Bytes → Bytes → Bytes
url_of prefix base = prefix ++ (codes "://" ++ base)

abbrev parts_of : Bytes → Bytes → Components
parts_of prefix base = record { prefix = prefix; base = base; extension = extension_of base }

url_parts :
    (prefix base : Bytes)
    → find (codes "://") prefix ≡ none
    → components_of (url_of prefix base) ≡ parts_of prefix base
url_parts prefix base clean =
    components_written prefix base (extension_of base) clean (extension_of-IsExtension base)

module _ (h : Handlers) (prefix base : Bytes) (clean : find (codes "://") prefix ≡ none) where
  loads_by :
      (a : ℕ)
      → Maps.find prefix started.loaders ≡ some a
      → load_file h (url_of prefix base) false started ≡ (h.load_file a base, started)
  loads_by a e =
      load_file-reaches h (url_of prefix base) a started (
        ap (λ (c : Components). Maps.find c.prefix started.loaders) (url_parts prefix base clean)
        ∙ e)
      ∙ ap (λ (c : Components). (h.load_file a c.base, started)) (url_parts prefix base clean)

  saves_by :
      (a : ℕ) (value : Data)
      → Maps.find prefix started.savers ≡ some a
      → save_file h (url_of prefix base) value started ≡ (h.save_file a base value, started)
  saves_by a value e =
      save_file-reaches h (url_of prefix base) a value started (
        ap (λ (c : Components). Maps.find c.prefix started.savers) (url_parts prefix base clean)
        ∙ e)
      ∙ ap (λ (c : Components). (h.save_file a c.base value, started)) (url_parts prefix base clean)

clean_prefix :
    (find (codes "://") (codes "file") ≡ none)
    × (find (codes "://") (codes "https") ≡ none)
    × (find (codes "://") (codes "ipfs") ≡ none)
unfolding find
clean_prefix = (refl, refl, refl)

-- After `InitializeSingletons`, `SaveFile` of data to a "file://" URL hands the base of the URL and just
-- that data to the handler 5, whatever the handlers do. With those that are registered this is
-- `MNNSaver::SaveFile`; it returns, and a `LoadFile` of the same URL, on the disk that `MNNSaver` leaves,
-- gives the data back, where the file may be written and read and the disk has room. Neither call
-- changes `FileManager`.
pub load_file-save_file_url :
    (t : Setting) (h : Handlers) (base content : Bytes)
    → length content ≤ t.room
    → t.disk.readable base ≡ true
    → t.disk.writable base ≡ true
    → let url = codes "file" ++ (codes "://" ++ base) in
      let written = (Sync.save_file t.disk t.room base (some content)).1 in
      (save_file h url content started ≡ (h.save_file 5 base content, started))
      × ((handlers t).save_file 5 base content
          ≡ (Sync.save_file t.disk t.room base (some content)).0)
      × (save_file (handlers t) url content started ≡ (returned tt, started))
      × (load_file (handlers (record t { disk = written })) url false started
          ≡ (returned content, started))
unfolding handlers class_at load_file_of save_file_of Maps.find
load_file-save_file_url t h base content fits may_read may_write =
    let (saved, loaded) = save_file-cut t.disk t.room base content may_read may_write in
    let t' = record t { disk = (Sync.save_file t.disk t.room base (some content)).1 } in
    (
      saves_by h (codes "file") base clean_prefix.0 5 content (rw (started-maps.2) refl),
      refl,
      saves_by (handlers t) (codes "file") base clean_prefix.0 5 content (rw (started-maps.2) refl)
          ∙ ap (λ r. (r, started)) saved,
      loads_by (handlers t') (codes "file") base clean_prefix.0 1 (rw (started-maps.0) refl)
          ∙ ap (λ r. (r, started)) (loaded ∙ ap (λ x. returned x) (take_all t.room content fits)),
    )

-- After `InitializeSingletons`, `LoadFile` of any "https://" or "ipfs://" URL returns a fixed text,
-- and `SaveFile` to any "ipfs://" URL returns, with whatever data.
pub remote_fixed :
    (t : Setting) (base : Bytes) (value : Data)
    → (load_file (handlers t) (codes "https" ++ (codes "://" ++ base)) false started
        ≡ (returned (codes "Inside the HTTPLoader::LoadFile Function"), started))
      × (load_file (handlers t) (codes "ipfs" ++ (codes "://" ++ base)) false started
          ≡ (returned (codes "init"), started))
      × (save_file (handlers t) (codes "ipfs" ++ (codes "://" ++ base)) value started
          ≡ (returned tt, started))
unfolding handlers class_at load_file_of save_file_of Maps.find
remote_fixed t base value = (
  loads_by (handlers t) (codes "https") base clean_prefix.1 2 (rw (started-maps.0) refl),
  loads_by (handlers t) (codes "ipfs") base clean_prefix.2 3 (rw (started-maps.0) refl),
  saves_by (handlers t) (codes "ipfs") base clean_prefix.2 4 value (rw (started-maps.2) refl),
)
