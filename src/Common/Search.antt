-- ===== src/Common/Search.antt =====
-- The laws of `find`, `rfind` and `substr`: where a search stops, the text splits.
use Prim.Native.Nat.{ℕ, suc, ◌+◌, ◌≤◌}
use mathlib.Core.Path.{◌≡◌, refl, sym, ap, ◌∙◌}
use mathlib.Core.Logic.{◌≢◌, inl, inr}
use mathlib.Core.Bool.{true, false}
use mathlib.Core.List.{List, [], ◌∷◌, ◌++◌}
use mathlib.Core.Option
use mathlib.Core.Option.{none, some}
use native.Mathlib.Nat.{zero-add, suc-add}
use native.Mathlib.Omega.{arith}
use async_iomanager.Common.Tests.{◌==◌, Bool-cases}
use async_iomanager.Common.Lists.{
  length, take, drop, take-append_left, drop-append_left, take_all, length-drop, get_elem?,
}
use async_iomanager.Common.Text.{Bytes, is_empty, starts_with, find, rfind, substr, Lacks}

pub starts_with-append : (p s t : Bytes) → starts_with p s ≡ true → starts_with p (s ++ t) ≡ true
starts_with-append [] s t h = refl
starts_with-append (b ∷ p) [] t h = cc
starts_with-append (b ∷ p) (c ∷ s) t h = ground (arith, starts_with-append p s t)

pub starts_with_self : (p s : Bytes) → starts_with p (p ++ s) ≡ true
starts_with_self [] s = refl
starts_with_self (b ∷ p) s = ground (arith, starts_with_self p s)

pub starts_with_split : (p s : Bytes) → starts_with p s ≡ true → s ≡ p ++ drop (length p) s
starts_with_split [] s h = refl
starts_with_split (b ∷ p) [] h = cc
starts_with_split (b ∷ p) (c ∷ s) h = ground (arith, starts_with_split p s)

pub find_here :
    (pat : Bytes) (c : ℕ) (s : Bytes) → starts_with pat (c ∷ s) ≡ true → find pat (c ∷ s) ≡ some 0
unfolding find
find_here pat c s h = rw (h, find)

pub find_later :
    (pat : Bytes) (c : ℕ) (s : Bytes)
    → starts_with pat (c ∷ s) ≡ false
    → find pat (c ∷ s) ≡ Option.map suc (find pat s)
unfolding find
find_later pat c s h = rw (h, find)

-- The outcome of a search for `pat` in `s`: it is not there, or the text splits at its first place.
pub data Found (pat s : Bytes) : Type 0 where
  absent : find pat s ≡ none → Found pat s
  at :
      (p r : Bytes)
      → s ≡ p ++ (pat ++ r)
      → find pat p ≡ none
      → find pat s ≡ some (length p)
      → Found pat s

-- A text before the first place of `pat` does not contain it.
clean_step :
    (b : ℕ) (pat : Bytes) (c : ℕ) (p t : Bytes)
    → starts_with (b ∷ pat) (c ∷ (p ++ t)) ≡ false
    → find (b ∷ pat) p ≡ none
    → find (b ∷ pat) (c ∷ p) ≡ none
clean_step b pat c p t e h = elim (Bool-cases (starts_with (b ∷ pat) (c ∷ p))) [
  | inl y ↦ absurd (contra (starts_with-append (b ∷ pat) (c ∷ p) t y))
  | inr n ↦ rw (find_later (b ∷ pat) c p n, h)
]
  where
    contra : starts_with (b ∷ pat) (c ∷ (p ++ t)) ≡ true → ⊥
    contra y = cc

later :
    (b : ℕ) (pat : Bytes) (c : ℕ) (s : Bytes)
    → starts_with (b ∷ pat) (c ∷ s) ≡ false
    → Found (b ∷ pat) s
    → Found (b ∷ pat) (c ∷ s)
later b pat c s e (absent h) = absent (rw (find_later (b ∷ pat) c s e, h))
later b pat c s e (at p r split clean found) =
    at (c ∷ p) r (ap (◌∷◌ c) split) (clean_step b pat c p (b ∷ pat ++ r) (rw split at e) clean)
      (rw (find_later (b ∷ pat) c s e, found))

pub find-Found : (b : ℕ) (pat s : Bytes) → Found (b ∷ pat) s
find-Found b pat [] = absent (unfold find in refl)
find-Found b pat (c ∷ s) = elim (Bool-cases (starts_with (b ∷ pat) (c ∷ s))) [
  | inl e ↦
      at [] (drop (length (b ∷ pat)) (c ∷ s)) (starts_with_split (b ∷ pat) (c ∷ s) e)
        (unfold find in refl) (find_here (b ∷ pat) c s e)
  | inr e ↦ later b pat c s e (find-Found b pat s)
]

pub find_self : (b : ℕ) (p s : Bytes) → find (b ∷ p) ((b ∷ p) ++ s) ≡ some 0
find_self b p s = find_here (b ∷ p) b (p ++ s) (starts_with_self (b ∷ p) s)

-- No place of `pat` is before the one that is found.
pub find-first :
    (b : ℕ) (pat p r : Bytes) (n : ℕ)
    → find (b ∷ pat) (p ++ ((b ∷ pat) ++ r)) ≡ some n
    → n ≤ length p
find-first b pat [] r n e = let here = find_self b pat r in ground (arith, e, here)
find-first b pat (c ∷ p) r n e =
    let s = p ++ ((b ∷ pat) ++ r) in
    elim (Bool-cases (starts_with (b ∷ pat) (c ∷ s))) [
      | inl y ↦ let here = find_here (b ∷ pat) c s y in ground (arith, e, here)
      | inr other ↦
          behind (λ m f. find-first b pat p r m f) (find (b ∷ pat) s) refl
            (sym (find_later (b ∷ pat) c s other) ∙ e)
    ]
  where
    behind :
        ((m : ℕ) → find (b ∷ pat) (p ++ ((b ∷ pat) ++ r)) ≡ some m → m ≤ length p)
        → (x : Option.Option ℕ) → find (b ∷ pat) (p ++ ((b ∷ pat) ++ r)) ≡ x
        → Option.map suc (find (b ∷ pat) (p ++ ((b ∷ pat) ++ r))) ≡ some n
        → n ≤ suc (length p)
    behind earlier none f g = absurd (ground (arith, f, g))
    behind earlier (some m) f g = let before = earlier m f in ground (arith, before, f, g)

-- A single byte is found unless the text lacks it.
pub find-none-Lacks : (b : ℕ) (s : Bytes) → find (b ∷ []) s ≡ none → Lacks b s
unfolding find
find-none-Lacks b [] h = tt
find-none-Lacks b (c ∷ s) h = ground (arith, find-none-Lacks b s)

pub Lacks-find-none : (b : ℕ) (s : Bytes) → Lacks b s → find (b ∷ []) s ≡ none
unfolding find
Lacks-find-none b [] h = refl
Lacks-find-none b (c ∷ s) h = ground (arith, Lacks-find-none b s)

-- The first place of a byte stands behind a text that lacks it.
pub find-append : (b : ℕ) (p r : Bytes) → Lacks b p → find (b ∷ []) (p ++ b ∷ r) ≡ some (length p)
unfolding find
find-append b [] r h = ground arith
find-append b (c ∷ p) r h = ground (arith, find-append b p r)

-- The same for the last place.
pub data LastFound (b : ℕ) (s : Bytes) : Type 0 where
  absent : rfind b s ≡ none → Lacks b s → LastFound b s
  at : (p r : Bytes) → s ≡ p ++ b ∷ r → Lacks b r → rfind b s ≡ some (length p) → LastFound b s

pub rfind-LastFound : (b : ℕ) (s : Bytes) → LastFound b s
unfolding rfind
rfind-LastFound b [] = LastFound.absent refl tt
rfind-LastFound b (c ∷ s) = later_byte (rfind-LastFound b s)
  where
    later_byte : LastFound b s → LastFound b (c ∷ s)
    later_byte (LastFound.at p r split lacks found) =
        LastFound.at (c ∷ p) r (ap (◌∷◌ c) split) lacks (rw found)
    later_byte (LastFound.absent e lacks) = elim (Bool-cases (c == b)) [
      | inl y ↦ LastFound.at [] s (ground arith) lacks (rw (e, y))
      | inr n ↦ LastFound.absent (rw (e, n)) (ground arith)
    ]

pub Lacks-rfind-none : (b : ℕ) (s : Bytes) → Lacks b s → rfind b s ≡ none
unfolding rfind
Lacks-rfind-none b [] h = refl
Lacks-rfind-none b (c ∷ s) h = ground (arith, Lacks-rfind-none b s)

pub rfind-append : (b : ℕ) (p r : Bytes) → Lacks b r → rfind b (p ++ b ∷ r) ≡ some (length p)
unfolding rfind
rfind-append b [] r h = ground (arith, Lacks-rfind-none b r)
rfind-append b (c ∷ p) r h = ground (arith, rfind-append b p r)

-- The parts of a text that a search has split, as `substr` cuts them.
pub drop_past : (p m r : Bytes) → drop (length p + length m) (p ++ (m ++ r)) ≡ r
drop_past [] m r = rw (zero-add (length m)) (drop-append_left m r)
drop_past (c ∷ p) m r = rw (suc-add (length p) (length m)) (drop_past p m r)

-- A count that reaches past the end takes all that is left.
pub substr_to_end : (s : Bytes) (i : ℕ) → substr s i (length s) ≡ drop i s
substr_to_end s i = take_all (length s) (drop i s) (omega (arith, length-drop i s))

pub take_before : (p r : Bytes) → take (length p) (p ++ r) ≡ p
take_before p r = take-append_left p r

pub is_empty-append {ℓ} :
    {A : Type ℓ} (p : List A) (a : A) (r : List A) → is_empty (p ++ a ∷ r) ≡ false
is_empty-append [] a r = refl
is_empty-append (c ∷ p) a r = refl

pub drop_before : (p r : Bytes) → drop (length p) (p ++ r) ≡ r
drop_before p r = drop-append_left p r

pub get_elem?-append {ℓ} :
    {A : Type ℓ} (p : List A) (a : A) (r : List A) → get_elem? (p ++ a ∷ r) (length p) ≡ some a
get_elem?-append [] a r = refl
get_elem?-append (c ∷ p) a r = get_elem?-append p a r

pub append-ne-nil {ℓ} : {A : Type ℓ} (p : List A) (a : A) (r : List A) → p ++ a ∷ r ≢ []
append-ne-nil [] a r h = cc
append-ne-nil (c ∷ p) a r h = cc
