-- ===== src/Manager/Maps.antt =====
-- `map<std::string, FileLoader *>` and its two siblings (include/FileManager.hpp), as an association
-- list: `loaders[prefix] = handler` replaces the handler of a prefix or adds one.
use async_iomanager.Common.{
  ℕ, Bool, true, false, Option, none, some, List, [], ◌∷◌, Bytes, ◌&&◌, ◌==◌, if◌then◌else◌, ◌≡◌,
  refl, arith, ◌↔◌,
}

abbrev pub same : Bytes → Bytes → Bool
same [] [] = true
same [] (d ∷ t) = false
same (c ∷ s) [] = false
same (c ∷ s) (d ∷ t) = c == d && same s t

pub same_self : (s : Bytes) → same s s ≡ true
same_self [] = refl
same_self (c ∷ s) = ground (arith, same_self s)

pub same_iff : (s t : Bytes) → (same s t ≡ true) ↔ (s ≡ t)
same_iff [] [] = ground arith
same_iff [] (d ∷ t) = ground arith
same_iff (c ∷ s) [] = ground arith
same_iff (c ∷ s) (d ∷ t) = ground (arith, same_iff s t)

abbrev pub Registry : Type 0
Registry = List (Bytes × ℕ)

unfoldable pub register : Bytes → ℕ → Registry → Registry
register k v [] = (k, v) ∷ []
register k v ((j, w) ∷ m) = if same j k then (k, v) ∷ m else (j, w) ∷ register k v m

-- `loaders.find(prefix)`; `none` is `end()`.
unfoldable pub find : Bytes → Registry → Option ℕ
find k [] = none
find k ((j, v) ∷ m) = if same j k then some v else find k m

pub find-register :
    (k j : Bytes) (v : ℕ) (m : Registry)
    → find j (register k v m) ≡ (if same k j then some v else find j m)
unfolding find register
find-register k j v [] = refl
find-register k j v ((i, w) ∷ m) =
    ground (arith, same_iff k j, same_iff i k, same_iff i j, find-register k j v m)
