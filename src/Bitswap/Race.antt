-- ===== src/Bitswap/Race.antt =====
-- The external Bitswap instance while a load reads it (src/IPFSLoader.cpp): `setBitswap` and
-- `clearBitswap` change two atomic pointers one after the other, and `LoadASync` reads them one after
-- the other, in another thread. `FileManager` keeps its own changes apart by a mutex, which a load does
-- not take. Every interleaving of the atomic operations.
use async_iomanager.Common.{
  ℕ, Bool, true, false, Option, none, some, List, [], ◌∷◌, ◌++◌, ◌⊎◌, inl, inr, ◌↔◌, ◌≡◌, refl, sym,
  ap, ◌∙◌,
}
use async_iomanager.Bitswap.{External, set}

-- The atomic operations on the two pointers.
pub data Atomic : Type 0 where
  store_bitswap store_dht : Option ℕ → Atomic
  load_bitswap load_dht : Atomic

-- The two pointers, and what the load has read. It reads the DHT only when it has found an instance.
pub record Shared : Type 0 where
  pub external : External
  pub read_bitswap : Option ℕ
  pub read_dht : Option ℕ

pub atomic : Atomic → Shared → Shared
atomic (store_bitswap b) s = record s { external = record { bitswap = b; dht = s.external.dht } }
atomic (store_dht d) s = record s { external = record { bitswap = s.external.bitswap; dht = d } }
atomic load_bitswap s = record s { read_bitswap = s.external.bitswap }
atomic load_dht s = record s {
  read_dht = elim s.read_bitswap [ none ↦ s.read_dht | some b ↦ s.external.dht ];
}

pub run_atomics : List Atomic → Shared → Shared
run_atomics [] s = s
run_atomics (a ∷ rest) s = run_atomics rest (atomic a s)

-- The operations of `setBitswap`, and of the reads of `LoadASync`.
abbrev pub set_atomics : Option ℕ → Option ℕ → List Atomic
set_atomics b d = store_bitswap b ∷ store_dht d ∷ []

abbrev pub load_atomics : List Atomic
load_atomics = load_bitswap ∷ load_dht ∷ []

-- An interleaving of two threads: a pick of `true` lets the first one go on, of `false` the second.
pub interleave {ℓ} : {A : Type ℓ} → List Bool → List A → List A → List A
interleave picks [] ys = ys
interleave picks (x ∷ xs) [] = x ∷ xs
interleave [] (x ∷ xs) (y ∷ ys) = (x ∷ xs) ++ (y ∷ ys)
interleave (true ∷ picks) (x ∷ xs) (y ∷ ys) = x ∷ interleave picks xs (y ∷ ys)
interleave (false ∷ picks) (x ∷ xs) (y ∷ ys) = y ∷ interleave picks (x ∷ xs) ys

-- A `setBitswap` while a load reads the pointers.
abbrev pub race : List Bool → Option ℕ → Option ℕ → Shared → Shared
race picks b d s = run_atomics (interleave picks (set_atomics b d) load_atomics) s

-- What a load can read that finds an instance: of each pointer the old or the new value.
abbrev pub Mixed : Option ℕ → Option ℕ → Shared → ℕ → Option ℕ → Type 0
Mixed b d s i y = ((some i ≡ s.external.bitswap) ⊎ (some i ≡ b)) × ((y ≡ s.external.dht) ⊎ (y ≡ d))

was_read :
    (skipped : Option ℕ) {x : Option ℕ} {i : ℕ} {dht y : Option ℕ}
    → x ≡ some i
    → elim x [ none ↦ skipped | some b ↦ dht ] ≡ y
    → y ≡ dht
was_read skipped {dht = dht} e f = sym f ∙ ap (λ x. elim x [ none ↦ skipped | some b ↦ dht ]) e

reads :
    (skipped : Option ℕ) {x : Option ℕ} {i : ℕ} {dht y : Option ℕ}
    → some i ≡ x
    → y ≡ dht
    → elim x [ none ↦ skipped | some b ↦ dht ] ≡ y
reads skipped {dht = dht} e f = ap (λ x. elim x [ none ↦ skipped | some b ↦ dht ]) (sym e) ∙ sym f

race-Mixed :
    (picks : List Bool) (b d : Option ℕ) (s : Shared) (i : ℕ) (y : Option ℕ)
    → (race picks b d s).read_bitswap ≡ some i
    → (race picks b d s).read_dht ≡ y
    → Mixed b d s i y
unfolding interleave run_atomics atomic
race-Mixed [] b d s i y e f = (inr (sym e), inr (was_read s.read_dht e f))
race-Mixed (true ∷ []) b d s i y e f = (inr (sym e), inr (was_read s.read_dht e f))
race-Mixed (true ∷ true ∷ picks) b d s i y e f = (inr (sym e), inr (was_read s.read_dht e f))
race-Mixed (true ∷ false ∷ []) b d s i y e f = (inr (sym e), inr (was_read s.read_dht e f))
race-Mixed (true ∷ false ∷ true ∷ picks) b d s i y e f =
    (inr (sym e), inr (was_read s.read_dht e f))
race-Mixed (true ∷ false ∷ false ∷ picks) b d s i y e f =
    (inr (sym e), inl (was_read s.read_dht e f))
race-Mixed (false ∷ []) b d s i y e f = (inl (sym e), inr (was_read s.read_dht e f))
race-Mixed (false ∷ true ∷ []) b d s i y e f = (inl (sym e), inr (was_read s.read_dht e f))
race-Mixed (false ∷ true ∷ true ∷ picks) b d s i y e f =
    (inl (sym e), inr (was_read s.read_dht e f))
race-Mixed (false ∷ true ∷ false ∷ picks) b d s i y e f =
    (inl (sym e), inl (was_read s.read_dht e f))
race-Mixed (false ∷ false ∷ picks) b d s i y e f = (inl (sym e), inl (was_read s.read_dht e f))

race-external :
    (picks : List Bool) (b d : Option ℕ) (s : Shared)
    → (race picks b d s).external ≡ set b d s.external
unfolding interleave run_atomics atomic set
race-external [] b d s = refl
race-external (true ∷ []) b d s = refl
race-external (true ∷ true ∷ picks) b d s = refl
race-external (true ∷ false ∷ []) b d s = refl
race-external (true ∷ false ∷ true ∷ picks) b d s = refl
race-external (true ∷ false ∷ false ∷ picks) b d s = refl
race-external (false ∷ []) b d s = refl
race-external (false ∷ true ∷ []) b d s = refl
race-external (false ∷ true ∷ true ∷ picks) b d s = refl
race-external (false ∷ true ∷ false ∷ picks) b d s = refl
race-external (false ∷ false ∷ picks) b d s = refl

-- The interleaving in which a load reads a given mix.
mix :
    (b d : Option ℕ) (s : Shared) (i : ℕ) (y : Option ℕ)
    → Mixed b d s i y
    → (picks : List Bool) × ((race picks b d s).read_bitswap ≡ some i)
      × ((race picks b d s).read_dht ≡ y)
unfolding interleave run_atomics atomic
mix b d s i y (inl e, inl f) = (false ∷ false ∷ [], sym e, reads s.read_dht e f)
mix b d s i y (inl e, inr f) = (false ∷ true ∷ true ∷ [], sym e, reads s.read_dht e f)
mix b d s i y (inr e, inl f) = (true ∷ false ∷ false ∷ [], sym e, reads s.read_dht e f)
mix b d s i y (inr e, inr f) = (true ∷ true ∷ [], sym e, reads s.read_dht e f)

-- While another thread sets an instance and its DHT, a load that finds an instance can read just the
-- four mixes of the old or the new instance with the old or the new DHT, so the instance of one with
-- the DHT of the other too; and however the two threads interleave, the pointers are afterwards as
-- `setBitswap` sets them.
pub race_iff :
    (b d : Option ℕ) (s : Shared) (i : ℕ) (y : Option ℕ)
    → (((picks : List Bool) × ((race picks b d s).read_bitswap ≡ some i)
          × ((race picks b d s).read_dht ≡ y))
        ↔ Mixed b d s i y)
      × ((picks : List Bool) → (race picks b d s).external ≡ set b d s.external)
race_iff b d s i y = (
  (λ r. let (picks, e, f) = r in race-Mixed picks b d s i y e f, mix b d s i y),
  λ picks. race-external picks b d s,
)
