-- ===== src/Bitswap.antt =====
-- The external Bitswap instance: `setBitswap` and `clearBitswap` of src/FileManager.cpp,
-- src/IPFSLoader.cpp and src/IPFSSaver.cpp. A number stands for an instance and for a DHT, `none` for
-- a null pointer. A handler that is not registered, or is not the IPFS one, is `none`.
pub mod Sharing
pub mod Race
mod Tests
use async_iomanager.Common.{
  ℕ, Bool, true, false, Option, none, some, List, [], ◌∷◌, Bytes, ◌==◌, ◌||◌, if◌then◌else◌,
}

-- `externalBitswap_` and `externalDht_` of the loader or of the saver.
pub record External : Type 0 where
  pub bitswap : Option ℕ
  pub dht : Option ℕ

pub record Handlers : Type 0 where
  pub loader : Option External
  pub saver : Option External
  pub cache_dir : Bytes

abbrev pub no_instance : External
no_instance = record { bitswap = none; dht = none }

-- `setBitswap` of a handler.
pub set : Option ℕ → Option ℕ → External → External
set b d e = record { bitswap = b; dht = d }

abbrev pub holds : External → ℕ → Bool
holds e b = elim e.bitswap [ none ↦ false | some a ↦ a == b ]

-- `clearBitswap` of a handler, with whether it has cleared.
pub clear : ℕ → External → Bool × External
clear b e = if holds e b then (true, no_instance) else (false, e)

abbrev pub set_if_there : Option ℕ → Option ℕ → Option External → Option External
set_if_there b d none = none
set_if_there b d (some e) = some (set b d e)

abbrev pub clear_if_there : ℕ → Option External → Bool × Option External
clear_if_there b none = (false, none)
clear_if_there b (some e) = let (cleared, e') = clear b e in (cleared, some e')

-- The directory is `getCacheDir` of Bitswap.
module _ (cache_dir_of : ℕ → Bytes) where
  -- `FileManager::setBitswap`.
  pub set_bitswap : Option ℕ → Option ℕ → Handlers → Handlers
  set_bitswap b d h = record {
    loader = set_if_there b d h.loader;
    saver = set_if_there b d h.saver;
    cache_dir = elim b [ none ↦ [] | some a ↦ cache_dir_of a ];
  }

-- `FileManager::clearBitswap`.
pub clear_bitswap : Option ℕ → Handlers → Handlers
clear_bitswap none h = h
clear_bitswap (some b) h =
    let (loader_cleared, loader) = clear_if_there b h.loader in
    let (saver_cleared, saver) = clear_if_there b h.saver in
    record {
      loader = loader;
      saver = saver;
      cache_dir = if loader_cleared || saver_cleared then [] else h.cache_dir;
    }

-- `FileManager::getCacheDir`.
pub get_cache_dir : Handlers → Bytes
get_cache_dir h = h.cache_dir
