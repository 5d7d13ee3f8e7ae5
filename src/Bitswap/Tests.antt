-- ===== src/Bitswap/Tests.antt =====
-- Calls of `setBitswap` and `clearBitswap`, and the theorem about them.
use async_iomanager.Common.{ℕ, Bool, none, some, List, [], ◌∷◌, Bytes, codes, ◌↔◌, ◌≡◌}
use async_iomanager.Bitswap.{no_instance, set}
use async_iomanager.Bitswap.Race.{Shared, race, Mixed, race_iff}
use async_iomanager.Bitswap.Sharing.{sets, clears, change_all, sharing, change_all-last}

abbrev get_cache_dir : ℕ → Bytes
get_cache_dir b = codes "/cache"

-- The first instance is replaced before it is torn down: the second one stays in use.
change_all-last_example :
    change_all get_cache_dir
      (sharing get_cache_dir no_instance)
      (sets (some 1) none ∷ sets (some 2) (some 7) ∷ clears (some 1) ∷ [])
    ≡ sharing get_cache_dir (record { bitswap = some 2; dht = some 7 })
change_all-last_example =
    change_all-last get_cache_dir no_instance
      (sets (some 1) none ∷ sets (some 2) (some 7) ∷ clears (some 1) ∷ [])

-- Instance 1 with DHT 5 is in use, and no load has read it.
abbrev old : Shared
old = record {
  external = record { bitswap = some 1; dht = some 5 };
  read_bitswap = none;
  read_dht = none;
}

-- A load that finds instance 2 may go on with DHT 5 of the instance before it.
race_iff_example :
    (((picks : List Bool) × ((race picks (some 2) (some 7) old).read_bitswap ≡ some 2)
        × ((race picks (some 2) (some 7) old).read_dht ≡ some 5))
      ↔ Mixed (some 2) (some 7) old 2 (some 5))
    × ((picks : List Bool)
        → (race picks (some 2) (some 7) old).external ≡ set (some 2) (some 7) old.external)
race_iff_example = race_iff (some 2) (some 7) old 2 (some 5)
