-- ===== src/Bitswap/Sharing.antt =====
-- Which Bitswap instance the IPFS loader and saver share (src/FileManager.cpp, `setBitswap` and
-- `clearBitswap`).
use async_iomanager.Common.{
  Bool-cases, inl, inr, ℕ, Option, none, some, List, [], ◌∷◌, Bytes, if◌then◌else◌, ◌≡◌, refl, ◌∙◌,
  ap,
}
use async_iomanager.Bitswap.{
  External, Handlers, no_instance, set, holds, clear, set_bitswap, clear_bitswap,
}

-- The calls of the two functions.
pub data Change : Type 0 where
  sets : Option ℕ → Option ℕ → Change
  clears : Option ℕ → Change

-- The instance that should be in use after a call, with its DHT.
abbrev pub next : External → Change → External
next e (sets b d) = record { bitswap = b; dht = d }
next e (clears none) = e
next e (clears (some b)) = if holds e b then no_instance else e

abbrev pub last : External → List Change → External
last e [] = e
last e (c ∷ cs) = last (next e c) cs

module _ (get_cache_dir : ℕ → Bytes) where
  pub change : Handlers → Change → Handlers
  change h (sets b d) = set_bitswap get_cache_dir b d h
  change h (clears b) = clear_bitswap b h

  pub change_all : Handlers → List Change → Handlers
  change_all h [] = h
  change_all h (c ∷ cs) = change_all (change h c) cs

  -- The handlers that share an instance.
  abbrev pub sharing : External → Handlers
  sharing e = record {
    loader = some e;
    saver = some e;
    cache_dir = elim e.bitswap [ none ↦ [] | some b ↦ get_cache_dir b ];
  }

  change-next : (e : External) (c : Change) → change (sharing e) c ≡ sharing (next e c)
  unfolding change set_bitswap clear_bitswap set clear
  change-next e (sets b d) = refl
  change-next e (clears none) = refl
  change-next e (clears (some b)) = elim (Bool-cases (holds e b)) [
    | inl h ↦ rw h refl
    | inr h ↦ rw h refl
  ]

  -- Where both IPFS handlers are registered and share an instance, they share one after any calls of
  -- `setBitswap` and `clearBitswap`, and the cache directory is its: the instance of the last
  -- `setBitswap`, unless that very one was cleared since; a call that clears another changes nothing.
  pub change_all-last :
      (e : External) (cs : List Change) → change_all (sharing e) cs ≡ sharing (last e cs)
  unfolding change_all
  change_all-last e [] = refl
  change_all-last e (c ∷ cs) =
      ap (λ h. change_all h cs) (change-next e c) ∙ change_all-last (next e c) cs
