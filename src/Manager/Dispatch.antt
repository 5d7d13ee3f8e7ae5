-- ===== src/Manager/Dispatch.antt =====
-- Which handler a URL reaches, and what a call that cannot be served leaves behind
-- (src/FileManager.cpp).
use async_iomanager.Common.{
  ℕ, ◌<◌, Bool, true, false, Option, none, some, [], ◌++◌, Bytes, codes, find, if◌then◌else◌, ◌≡◌,
  ◌≢◌, ◌↔◌, ◌⊎◌, arith, ap,
}
use async_iomanager.Io.{
  ResultType, has_value, Completion, returned, thrown, undefined, Exception, range_error,
}
use async_iomanager.Url.Components.{Components}
use async_iomanager.Url.Components.Laws.{
  IsExtension, get_url_components-write, get_url_components-none,
}
use async_iomanager.Manager.State.{Data, Handlers, LoadContext, World}
use async_iomanager.Manager.Maps
use async_iomanager.Manager.Maps.{register, find-register, same, same_self, same_iff}
use async_iomanager.Manager.{
  register_loader, register_parser, components_of, no_components, parse_data, load_file, save_file,
  load_async, save_async, handle_read, handle_buffers, check_parser, save_buffers,
  increment_outstanding_operations, decrement_outstanding_operations,
}

find-register_self : (k : Bytes) (v : ℕ) (m : Maps.Registry) → Maps.find k (register k v m) ≡ some v
find-register_self k v m = rw (find-register k k v m, same_self k)

pub components_written :
    (prefix base extension : Bytes)
    → find (codes "://") prefix ≡ none
    → IsExtension base extension
    → components_of (prefix ++ (codes "://" ++ base))
      ≡ record { prefix = prefix; base = base; extension = extension }
components_written prefix base extension h x =
    ap (λ (r : Bool × Components). r.1)
      (get_url_components-write prefix base extension no_components h x)

-- Once a loader is registered for a prefix and a parser for an extension, `LoadFile` of a URL with
-- that prefix and extension asks that loader for the base of the URL, and hands what it returns to
-- that parser if the caller wants it parsed. Nothing else is changed.
pub load_file-register :
    (h : Handlers) (prefix base extension : Bytes) (l p : ℕ) (parse : Bool) (v : Data) (w : World)
    → find (codes "://") prefix ≡ none
    → IsExtension base extension
    → h.load_file l base ≡ returned v
    → let w' = register_parser extension p (register_loader prefix l w) in
      load_file h (prefix ++ (codes "://" ++ base)) parse w'
      ≡ ((if parse then h.parse_data p v else returned v), w')
unfolding load_file parse_data register_parser register_loader
load_file-register h prefix base extension l p parse v w clean x loaded = ground (
  arith,
  components_written prefix base extension clean x,
  find-register_self prefix l w.loaders,
  find-register_self extension p w.parsers,
)

pub no_loader_throws :
    (h : Handlers) (url : Bytes) (parse save : Bool) (f : ℕ) (savetype : Bytes) (w : World)
    → Maps.find (components_of url).prefix w.loaders ≡ none
    → let text = codes "No loader registered for prefix " ++ (components_of url).prefix in
      (load_file h url parse w ≡ (thrown (range_error text), w))
      × (load_async h url parse save f savetype w ≡ (thrown (range_error text), w))
unfolding load_file load_async
no_loader_throws h url parse save f savetype w e = ground arith

pub no_saver_throws :
    (h : Handlers) (url : Bytes) (g : Option ℕ) (value : Data) (buffers : ResultType) (w : World)
    → Maps.find (components_of url).prefix w.savers ≡ none
    → let text = codes "No saver registered for prefix " ++ (components_of url).prefix in
      (save_file h url value w ≡ (thrown (range_error text), w))
      × (save_async h url buffers g w ≡ (thrown (range_error text), w))
unfolding save_file save_async
no_saver_throws h url g value buffers w e = ground arith

pub no_parser_never_returns :
    (h : Handlers) (url : Bytes) (v : Data) (w : World)
    → Maps.find (components_of url).extension w.parsers ≡ none
    → (load_file h url true w).0 ≢ returned v
unfolding load_file parse_data
no_parser_never_returns h url v w e r = ground arith

-- What a registered handler does is what the synchronous call does.
pub load_file-reaches :
    (h : Handlers) (url : Bytes) (l : ℕ) (w : World)
    → Maps.find (components_of url).prefix w.loaders ≡ some l
    → load_file h url false w ≡ (h.load_file l (components_of url).base, w)
unfolding load_file
load_file-reaches h url l w e = ground arith

pub save_file-reaches :
    (h : Handlers) (url : Bytes) (l : ℕ) (value : Data) (w : World)
    → Maps.find (components_of url).prefix w.savers ≡ some l
    → save_file h url value w ≡ (h.save_file l (components_of url).base value, w)
unfolding save_file
save_file-reaches h url l value w e = ground arith

-- A text with no "://" has the empty prefix. If no handler has that prefix, all four calls throw
-- and change nothing: the counter too is as before.
pub unprefixed_throws :
    (h : Handlers) (url : Bytes) (parse save : Bool) (f : ℕ) (g : Option ℕ) (savetype : Bytes)
    (value : Data) (buffers : ResultType) (w : World)
    → find (codes "://") url ≡ none
    → Maps.find [] w.loaders ≡ none
    → Maps.find [] w.savers ≡ none
    → let no_loader = range_error (codes "No loader registered for prefix ") in
      let no_saver = range_error (codes "No saver registered for prefix ") in
      (load_file h url parse w ≡ (thrown no_loader, w))
      × (load_async h url parse save f savetype w ≡ (thrown no_loader, w))
      × (save_file h url value w ≡ (thrown no_saver, w))
      × (save_async h url buffers g w ≡ (thrown no_saver, w))
unfolding load_file load_async save_file save_async
unprefixed_throws h url parse save f g savetype value buffers w e l s =
    ground (arith, get_url_components-none url no_components e)

-- `SaveASync` that throws leaves every part of the world as it was, if an operation was
-- outstanding before.
pub save_async_restores :
    (h : Handlers) (url : Bytes) (value : ResultType) (g : Option ℕ) (e : Exception) (w w' : World)
    → 0 < w.outstanding_operations
    → save_async h url value g w ≡ (thrown e, w')
    → w' ≡ w
unfolding save_async increment_outstanding_operations decrement_outstanding_operations
save_async_restores h url value g e w w' busy r = ground arith

-- The completion of a load dereferences a missing entry exactly where the load brought a value and
-- is to be parsed while no "mnn" parser is registered, or to be saved while its save type has no
-- saver, given that the saver of its save type, if there is one, does not run into undefined behaviour
-- with these buffers itself.
pub handle_read_undefined_iff :
    (h : Handlers) (ctx : LoadContext) (c : Completion) (w : World)
    → ((l : ℕ)
        → Maps.find ctx.savetype w.savers ≡ some l
        → h.save_async l [] c.buffers ctx.suffix ≢ undefined)
    → ((handle_read h ctx c w).0 ≡ undefined) ↔ (
        (has_value c.buffers ≡ true)
        × (((c.parse ≡ true) × (Maps.find (codes "mnn") w.parsers ≡ none))
            ⊎ ((c.save ≡ true) × (Maps.find ctx.savetype w.savers ≡ none))))
unfolding handle_read handle_buffers check_parser save_buffers
handle_read_undefined_iff h ctx c w sound = grind arith
