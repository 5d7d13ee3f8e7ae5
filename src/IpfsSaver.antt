-- ===== src/IpfsSaver.antt =====
-- src/IPFSSaver.cpp, `IPFSSaver::SaveASync`: the publication of files over Bitswap, from a temporary
-- file or directory. Whether the temporary file opens, which files of a directory can be created, and
-- whether an exception comes up on the way, at the latest in the call of Bitswap, are answers; the
-- answer of Bitswap is an event. Outside the `try` the place for temporary files may not be known, and
-- the removal of the temporary file or directory may throw: these exceptions leave the function, or the
-- lambda.
pub mod Balance
mod Tests
use async_iomanager.Common.{
  ℕ, ◌+◌, Bool, true, false, Option, none, some, List, [], ◌∷◌, ◌++◌, Bytes, codes, length, ◌==◌,
  if◌then◌else◌,
}
use async_iomanager.Io.{Files, ResultType, failure, success, Action, op, post}

pub data Op : Type 0 where
  -- the temporary file with its contents, the temporary directory, and a file in it
  create_temp_file : Bytes → Op
  -- the removal of a directory that is left from before
  clear_temp_dir : Op
  create_temp_dir : Op
  write_file : Bytes → Bytes → Op
  publish_file publish_directory : Op
  remove_temp : Op
  announce_cid : Op
  -- `*save_location = …`
  report_location : Bytes → Op

abbrev pub Actions : Type 0
Actions = List (Action Op (Unit {0}))

pub data State : Type 0 where
  publishing finished : State
  -- an exception has left the code; the flag says that the temporary file or directory is left
  thrown : Bool → State

-- Bitswap has published, or not; the content identifier may have no text.
pub data Event : Type 0 where
  published : Option (Option Bytes) → Event

-- What the saver has when it is called, and the answers.
pub record Setting : Type 0 where
  -- whether `externalBitswap_`, `externalDht_` and `save_location` are set
  pub bitswap : Bool
  pub dht : Bool
  pub save_location : Bool
  -- whether `temp_directory_path` returns, whether the directory exists already, and whether the
  -- removal of what was published returns
  pub temp_path : Bool
  pub exists : Bool
  pub removes : Bool
  pub temp_opens : Bool
  pub creates : ℕ → Bool
  pub throws : Bool

-- The files of the directory, from the one with a number on; one that cannot be created is left out.
pub write_files : (ℕ → Bool) → ℕ → List Bytes → List Bytes → Actions
write_files creates i (name ∷ names) (content ∷ contents) =
    let rest = write_files creates (i + 1) names contents in
    if creates i then op (write_file name content) ∷ rest else rest
write_files creates i names contents = []

abbrev pub done : Actions
done = post tt ∷ []

-- The removal of the temporary file or directory, and what follows it.
pub remove_then : Setting → Actions → State × Actions
remove_then t acts = if t.removes then (finished, op remove_temp ∷ acts) else (thrown true, [])

-- The call of Bitswap, or the `catch`.
pub publish : Setting → Op → State × Actions
publish t how = if t.throws then remove_then t done else (publishing, op how ∷ [])

pub save_single : Setting → List Bytes → State × Actions
save_single t [] = (finished, [])
save_single t (content ∷ contents) =
    if t.temp_path
    then (if t.temp_opens
        then (let (s, acts) = publish t publish_file in (s, op (create_temp_file content) ∷ acts))
        else (finished, done))
    else (thrown false, [])

pub save_directory : Setting → List Bytes → List Bytes → State × Actions
save_directory t names contents =
    let (s, acts) = publish t publish_directory in
    (
      s,
      (if t.exists then op clear_temp_dir ∷ [] else [])
          ++ op create_temp_dir ∷ (write_files t.creates 0 names contents ++ acts),
    )

-- `IPFSSaver::SaveASync`.
pub save_async : Setting → ResultType → State × Actions
save_async t (failure e) = (finished, done)
save_async t (success none) = (finished, done)
save_async t (success (some f)) =
    if length f.paths == 0
    then (finished, done)
    else (if t.bitswap
        then (if length f.paths == length f.contents
            then (if length f.paths == 1
                then save_single t f.contents
                else save_directory t f.paths f.contents)
            else (finished, done))
        else (finished, done))

abbrev pub report : Setting → Option Bytes → Actions
report t none = []
report t (some cid) =
    if t.save_location then op (report_location (codes "ipfs://" ++ cid)) ∷ [] else []

abbrev pub on_cid : Setting → Option (Option Bytes) → Actions
on_cid t none = []
on_cid t (some text) = (if t.dht then op announce_cid ∷ [] else []) ++ report t text

-- The lambda of `PublishFile` and of `PublishDirectory`.
pub on_published : Setting → Option (Option Bytes) → State × Actions
on_published t result = remove_then t (on_cid t result ++ done)

-- One event. When nothing is being published there is none, and nothing changes.
pub step : Setting → State → Event → State × Actions
step t publishing (published result) = on_published t result
step t s e = (s, [])

pub run : Setting → State → List Event → State × Actions
run t s [] = (s, [])
run t s (e ∷ es) = let (s', acts) = step t s e in let (s'', bs) = run t s' es in (s'', acts ++ bs)
