-- ===== src/Url/Components/Laws.antt =====
-- What `getURLComponents` returns for every text (src/URLStringUtil.cpp).
use async_iomanager.Common.{
  ◌+◌, Bool, true, false, none, some, Bytes, codes, find, length, ◌≡◌, refl, sym, [], ◌∷◌, ◌++◌,
  Lacks, arith, subst, ◌∙◌, starts_with, ◌⊎◌, inl, inr, Bool-cases,
}
use async_iomanager.Common.Search.{
  Found, find-Found, LastFound, rfind-LastFound, drop_past, take_before, substr_to_end,
  is_empty-append, find_self, find_here, find_later, Lacks-rfind-none, rfind-append,
}
use async_iomanager.Url.Components.{Components, extension_of, get_url_components}

-- The extension is what follows the last dot, and empty where there is none.
pub data IsExtension (base extension : Bytes) : Type 0 where
  no_dot : Lacks b'.' base → extension ≡ [] → IsExtension base extension
  last_dot :
      (stem : Bytes)
      → base ≡ stem ++ b'.' ∷ extension
      → Lacks b'.' extension
      → IsExtension base extension

-- The outcome of a call: the text has no separator, the call fails and writes nothing; or the text
-- is cut at its first separator.
pub data Split (url : Bytes) (out : Components) (r : Bool × Components) : Type 0 where
  refused : find (codes "://") url ≡ none → r ≡ (false, out) → Split url out r
  cut :
      r.0 ≡ true
      → url ≡ r.1.prefix ++ (codes "://" ++ r.1.base)
      → find (codes "://") r.1.prefix ≡ none
      → IsExtension r.1.base r.1.extension
      → Split url out r

extension_of-append : (stem ext : Bytes) → Lacks b'.' ext → extension_of (stem ++ b'.' ∷ ext) ≡ ext
unfolding extension_of
extension_of-append stem ext h =
    rw
      (
        extension_of,
        rfind-append b'.' stem ext h,
        substr_to_end (stem ++ b'.' ∷ ext) (length stem + 1),
      )
      (drop_past stem (b'.' ∷ []) ext)

extension_of-Lacks : (base : Bytes) → Lacks b'.' base → extension_of base ≡ []
unfolding extension_of
extension_of-Lacks base h = rw (extension_of, Lacks-rfind-none b'.' base h)

pub extension_of-IsExtension : (base : Bytes) → IsExtension base (extension_of base)
extension_of-IsExtension base = by_place (rfind-LastFound b'.' base)
  where
    by_place : LastFound b'.' base → IsExtension base (extension_of base)
    by_place (LastFound.absent e lacks) = no_dot lacks (extension_of-Lacks base lacks)
    by_place (LastFound.at p r split lacks e) =
        subst (λ b. IsExtension b (extension_of b)) (sym split)
          (rw (extension_of-append p r lacks) (last_dot p refl lacks))

pub get_url_components-none :
    (url : Bytes) (out : Components)
    → find (codes "://") url ≡ none
    → get_url_components url out ≡ (false, out)
unfolding get_url_components
get_url_components-none url out h = ground arith

get_url_components_at :
    (p r : Bytes) (out : Components)
    → find (codes "://") (p ++ (codes "://" ++ r)) ≡ some (length p)
    → get_url_components (p ++ (codes "://" ++ r)) out
      ≡ (true, record { prefix = p; base = r; extension = extension_of r })
unfolding get_url_components
get_url_components_at p r out h = rw (
  is_empty-append p b':' (b'/' ∷ b'/' ∷ r),
  h,
  substr_to_end (p ++ (codes "://" ++ r)) (length p + 3),
  drop_past p (codes "://") r,
  take_before p (codes "://" ++ r),
)

-- For every text `getURLComponents` either fails, exactly where the text holds no "://", and leaves
-- its three outputs as they were; or it succeeds, and prefix, "://" and base spell the text, the
-- prefix holds no "://", and the extension is what follows the last dot of the base, or empty where
-- the base has no dot.
pub get_url_components-Split :
    (url : Bytes) (out : Components) → Split url out (get_url_components url out)
get_url_components-Split url out = by_place (find-Found b':' (codes "//") url)
  where
    by_place : Found (codes "://") url → Split url out (get_url_components url out)
    by_place (Found.absent e) = refused e (get_url_components-none url out e)
    by_place (Found.at p r split clean e) =
        subst (λ u. Split u out (get_url_components u out)) (sym split)
          (rw (get_url_components_at p r out (rw split at e))
            (cut refl refl clean (extension_of-IsExtension r)))

separator_overlap :
    (p r : Bytes)
    → starts_with (codes "://") (p ++ (codes "://" ++ r)) ≡ true
    → (p ≡ []) ⊎ (starts_with (codes "://") p ≡ true)
separator_overlap [] r h = inl refl
separator_overlap (a ∷ []) r h = ground arith
separator_overlap (a ∷ b ∷ []) r h = ground arith
separator_overlap (a ∷ b ∷ c ∷ p) r h = inr (ground arith)

-- A prefix that does not contain the separator ends where the separator begins.
find-separator :
    (p r : Bytes)
    → find (codes "://") p ≡ none
    → find (codes "://") (p ++ (codes "://" ++ r)) ≡ some (length p)
find-separator [] r h = find_self b':' (codes "//") r
find-separator (a ∷ p) r h = elim (Bool-cases (starts_with (codes "://") (a ∷ p))) [
  | inl y ↦ absurd (found y)
  | inr n ↦ elim (Bool-cases (starts_with (codes "://") (a ∷ (p ++ (codes "://" ++ r))))) [
    | inl y ↦ absurd (overlap n (separator_overlap (a ∷ p) r y))
    | inr m ↦
        rw (find_later (codes "://") a (p ++ (codes "://" ++ r)) m, find-separator p r (later n))
  ]
]
  where
    found : starts_with (codes "://") (a ∷ p) ≡ true → ⊥
    found y = cc (find_here (codes "://") a p y)

    overlap :
        starts_with (codes "://") (a ∷ p) ≡ false
        → (a ∷ p ≡ []) ⊎ (starts_with (codes "://") (a ∷ p) ≡ true)
        → ⊥
    overlap n (inl e) = cc
    overlap n (inr y) = cc

    later : starts_with (codes "://") (a ∷ p) ≡ false → find (codes "://") p ≡ none
    later n = ground (arith, find_later (codes "://") a p n)

-- A URL that is written from a prefix, which does not contain "://", and a base is read back as
-- these two, whatever the base holds; its extension is the one of the base.
pub get_url_components-write :
    (prefix base extension : Bytes) (out : Components)
    → find (codes "://") prefix ≡ none
    → IsExtension base extension
    → get_url_components (prefix ++ (codes "://" ++ base)) out
      ≡ (true, record { prefix = prefix; base = base; extension = extension })
get_url_components-write prefix base extension out h x =
    get_url_components_at prefix base out (find-separator prefix base h) ∙ by_kind x
  where
    by_kind :
        IsExtension base extension
        → ◌≡◌ {A = Bool × Components}
            (true, record { prefix = prefix; base = base; extension = extension_of base })
            (true, record { prefix = prefix; base = base; extension = extension })
    by_kind (no_dot lacks e) = rw e (rw (extension_of-Lacks base lacks))
    by_kind (last_dot stem e lacks) = rw e (rw (extension_of-append stem extension lacks))
