-- ===== src/Manager/State.antt =====
-- The state of `FileManager` with the io_context that it serves (include/FileManager.hpp), the
-- virtual functions of its handlers (include/FileLoader.hpp, include/FileParser.hpp,
-- include/FileSaver.hpp), and the monad in which src/FileManager.cpp is written.
use async_iomanager.Common.{ℕ, Bool, Option, none, some, List, ◌∷◌, ◌++◌, Bytes}
use async_iomanager.Io.{ResultType, Exception, range_error, Call, returned, thrown, undefined}
use async_iomanager.Manager.Maps.{Registry, find}

-- Data behind a `shared_ptr<void>`.
abbrev pub Data : Type 0
Data = Bytes

-- The virtual functions of the handlers: each call returns or throws. An asynchronous one that
-- returns will make its callback later, from the io_context.
pub record Handlers : Type 0 where
  pub load_file : ℕ → Bytes → Call Data
  pub parse_data : ℕ → Data → Call Data
  pub save_file : ℕ → Bytes → Data → Call (Unit {0})
  pub load_async : ℕ → Bytes → Bool → Bool → Call Data
  pub save_async : ℕ → Bytes → ResultType → Bytes → Call (Unit {0})

-- What `LoadASync` captures for its completion handler.
pub record LoadContext : Type 0 where
  pub savetype : Bytes
  pub suffix : Bytes
  pub finalcall : ℕ

-- A callback that a handler holds: `handle_read`, the `handle_write` of a load that saves, and the
-- `handle_write` of `SaveASync`, whose final callback may be empty.
pub data Task : Type 0 where
  reading : LoadContext → Task
  writing : Task
  saving : Option ℕ → ResultType → Task

pub record World : Type 0 where
  pub loaders : Registry
  pub parsers : Registry
  pub savers : Registry
  pub outstanding_operations : ℕ
  -- the io_context: whether `stop` was called
  pub stopped : Bool
  -- the callbacks that are still to be made
  pub pending : List Task
  -- the calls of final callbacks, the latest first
  pub finals : List (ℕ × ResultType)

-- Code that changes the world, and returns, throws or has no defined behaviour.
abbrev pub M : Type 0 → Type 0
M A = World → Call A × World

infixl 5 ◌>>=◌ ◌>>◌
abbrev pub ◌>>=◌ : {A B : Type 0} → M A → (A → M B) → M B
◌>>=◌ m f w =
    let (r, w') = m w in
    elim r [ returned a ↦ f a w' | thrown e ↦ (thrown e, w') | undefined ↦ (undefined, w') ]

abbrev pub ◌>>◌ : {B : Type 0} → M (Unit {0}) → M B → M B
m >> k = m >>= λ _. k

abbrev pub return : {A : Type 0} → A → M A
return a w = (returned a, w)

abbrev pub throw : {A : Type 0} → Exception → M A
throw e w = (thrown e, w)

-- A change of the world that cannot fail.
abbrev pub modify : (World → World) → M (Unit {0})
modify f w = (returned tt, f w)

-- A virtual call.
abbrev pub virtual : {A : Type 0} → Call A → M A
virtual r w = (r, w)

-- `try { m } catch (...) { clean_up; throw; }`.
abbrev pub rethrow_after : (World → World) → M (Unit {0}) → M (Unit {0})
rethrow_after clean_up m w =
    let (r, w') = m w in
    elim r [
      | returned a ↦ (returned a, w')
      | thrown e ↦ (thrown e, clean_up w')
      | undefined ↦ (undefined, w')
    ]

-- A call of a final callback.
abbrev pub call_final : ℕ → ResultType → World → World
call_final f buffers w = record w { finals = (f, buffers) ∷ w.finals }

abbrev pub add_task : Task → World → World
add_task t w = record w { pending = t ∷ w.pending }

-- A search whose failure is reported as a `std::range_error`.
abbrev pub find_or_throw : (World → Registry) → Bytes → Bytes → M ℕ
find_or_throw registry text key w = elim (find key (registry w)) [
  | none ↦ (thrown (range_error (text ++ key)), w)
  | some handler ↦ (returned handler, w)
]

-- `find(key)->second` with no test for `end()`.
abbrev pub find_unchecked : (World → Registry) → Bytes → M ℕ
find_unchecked registry key w = elim (find key (registry w)) [
  | none ↦ (undefined, w)
  | some handler ↦ (returned handler, w)
]
