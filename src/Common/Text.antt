-- ===== src/Common/Text.antt =====
-- Byte strings, with what the sources use of `std::string`: `find`, `rfind`, `substr`, `empty`,
-- `+`, and of `std::filesystem::path`: `filename`.
use Prim.Native.Nat.{ℕ, suc}
use Prim.Native.Char.{code}
use Prim.Native.String.{String}
use mathlib.Core.Path.{◌≡◌, refl}
use mathlib.Core.Logic.{◌≢◌}
use mathlib.Core.Bool.{Bool, true, false, ◌&&◌}
use mathlib.Core.List.{List, [], ◌∷◌}
use mathlib.Core.Option.{Option, none, some}
use mathlib.Core.Option
use async_iomanager.Common.Tests.{◌==◌}
use async_iomanager.Common.Lists.{take, drop, All}

abbrev pub Bytes : Type 0
Bytes = List ℕ

-- The bytes of an ASCII literal.
abbrev pub codes : String → Bytes
codes String.[] = []
codes (String.◌∷◌ c s) = code c ∷ codes s

abbrev pub is_empty {ℓ} : {A : Type ℓ} → List A → Bool
is_empty [] = true
is_empty (c ∷ s) = false

-- The first list is a prefix of the second.
abbrev pub starts_with : Bytes → Bytes → Bool
starts_with [] s = true
starts_with (p ∷ ps) [] = false
starts_with (p ∷ ps) (c ∷ s) = p == c && starts_with ps s

-- `s.find(pattern)`; `none` is `npos`.
unfoldable pub find : Bytes → Bytes → Option ℕ
find pattern [] = elim (starts_with pattern []) [ true ↦ some 0 | false ↦ none ]
find pattern (c ∷ s) = elim (starts_with pattern (c ∷ s)) [
  | true ↦ some 0
  | false ↦ Option.map suc (find pattern s)
]

-- `s.rfind(c)`: the last place of the byte `c`; `none` is `npos`.
unfoldable pub rfind : ℕ → Bytes → Option ℕ
rfind b [] = none
rfind b (c ∷ s) = elim (rfind b s) [
  | some i ↦ some (suc i)
  | none ↦ elim (c == b) [ true ↦ some 0 | false ↦ none ]
]

-- `s.substr(pos, count)` at a position within the string.
abbrev pub substr : Bytes → ℕ → ℕ → Bytes
substr s pos count = take count (drop pos s)

-- `std::filesystem::path(p).filename()`: what stands behind the last slash.
unfoldable pub filename : Bytes → Bytes
unfolding rfind
filename p = elim (rfind b'/' p) [ none ↦ p | some i ↦ drop (suc i) p ]

abbrev pub Lacks : ℕ → Bytes → Type 0
Lacks b = All (λ c. c ≢ b)

find_slash : find (codes "://") (codes "a:://b") ≡ some 2
unfolding find
find_slash = refl

last_dot : rfind b'.' (codes "a.b.c") ≡ some 3
unfolding rfind
last_dot = refl

plain_name : filename (codes "/dir/1.mnn") ≡ codes "1.mnn"
unfolding filename
plain_name = refl
