-- ===== src/Example/Loads.antt =====
-- When the program starts all its loads, and what they leave in the io_context
-- (example/MNNExample.cpp).
use async_iomanager.Common.{
  ℕ, ◌+◌, true, false, Option, some, List, [], ◌∷◌, Bytes, codes, length, All, ltb, leb, ◌&&◌,
  if◌then◌else◌, Option-cases, inl, inr, subst, ◌⊎◌, ◌≡◌, ◌↔◌, refl, sym, ap, ◌∙◌, arith,
}
use async_iomanager.Io.{Completion, returned, thrown, undefined, Call}
use async_iomanager.Manager.State.{Data, Handlers, World, M, ◌>>=◌}
use async_iomanager.Manager.Maps
use async_iomanager.Manager.Steps.{leaks, load_async-Started}
use async_iomanager.Manager.Finals.{count}
use async_iomanager.Manager.{components_of, load_async, increment_outstanding_operations}
use async_iomanager.System.Interface.{Device, Shared}
use async_iomanager.System.{Job, loading, System, context_of, Runs, then_step, starts_load}
use async_iomanager.Example.{load_each}

-- A loader is registered for a URL, and its `LoadASync` returns.
pub record IsLoaded (h : Handlers) (loaders : Maps.Registry) (file_name : Bytes) : Type 0 where
  pub loader : ℕ
  pub value : Data
  pub registered : Maps.find (components_of file_name).prefix loaders ≡ some loader
  pub comes_back : h.load_async loader (components_of file_name).base false true ≡ returned value

-- A load changes no registry, and leaves the io_context alone.
load_async-loaders :
    (h : Handlers) (file_name : Bytes) (i : ℕ) (w : World)
    → (load_async h file_name false true i (codes "ipfs") w).1.loaders ≡ w.loaders
unfolding load_async increment_outstanding_operations
load_async-loaders h file_name i w = ground arith

load_async-IsLoaded :
    (h : Handlers) (file_name : Bytes) (i : ℕ) (d : Data) (w : World)
    → (load_async h file_name false true i (codes "ipfs") w).0 ≡ returned d
    → IsLoaded h w.loaders file_name
unfolding load_async
load_async-IsLoaded h file_name i d w e =
    let prefix = (components_of file_name).prefix in
    let base = (components_of file_name).base in
    elim (Option-cases (Maps.find prefix w.loaders)) [
      | inl missing ↦ absurd (ground arith)
      | inr (l, found) ↦ record {
        loader = l;
        value = d;
        registered = found;
        comes_back = ground arith;
      }
    ]

IsLoaded-load_async :
    (h : Handlers) (file_name : Bytes) (i : ℕ) (w : World) (v : IsLoaded h w.loaders file_name)
    → (load_async h file_name false true i (codes "ipfs") w).0 ≡ returned v.value
unfolding load_async
IsLoaded-load_async h file_name i w v = ground (arith, v.registered, v.comes_back)

-- A sequence that returns has run its parts.
>>=-returned :
    {A B : Type 0} (m : M A) (f : A → M B) (w w' : World) (b : B)
    → (m >>= f) w ≡ (returned b, w')
    → (a : A) × (v : World) × (m w ≡ (returned a, v)) × (f a v ≡ (returned b, w'))
>>=-returned {A = A} {B = B} m f w w' b e = by_case (m w) refl e
  where
    by_case :
        (x : Call A × World)
        → m w ≡ x
        → ◌≡◌ {A = Call B × World}
            (elim x.0 [
              | returned a ↦ f a x.1
              | thrown t ↦ (thrown t, x.1)
              | undefined ↦ (undefined, x.1)
            ])
            (returned b, w')
        → (a : A) × (v : World) × (m w ≡ (returned a, v)) × (f a v ≡ (returned b, w'))
    by_case (returned a, v) p q = (a, v, p, q)
    by_case (thrown t, v) p q = absurd (cc)
    by_case (undefined, v) p q = absurd (cc)

-- A sequence without defined behaviour has a part without.
>>=-undefined :
    {A B : Type 0} (m : M A) (f : A → M B) (w : World)
    → ((m >>= f) w).0 ≡ undefined
    → ((m w).0 ≡ undefined) ⊎ ((a : A) × (v : World) × ((f a v).0 ≡ undefined))
>>=-undefined {A = A} {B = B} m f w e = by_case (m w) refl e
  where
    by_case :
        (x : Call A × World)
        → m w ≡ x
        → (elim x.0 as (λ _. Call B × World) [
          | returned a ↦ f a x.1
          | thrown t ↦ (thrown t, x.1)
          | undefined ↦ (undefined, x.1)
        ]).0
          ≡ undefined
        → ((m w).0 ≡ undefined) ⊎ ((a : A) × (v : World) × ((f a v).0 ≡ undefined))
    by_case (returned a, v) p q = inr (a, v, q)
    by_case (thrown t, v) p q = absurd (cc)
    by_case (undefined, v) p q = inl (ap (λ (r : Call A × World). r.0) p)

-- A call of a loader without defined behaviour.
abbrev pub Undefined : Handlers → Type 0
Undefined h = (l : ℕ) × (base : Bytes) × (h.load_async l base false true ≡ undefined)

load_async-undefined :
    (h : Handlers) (file_name : Bytes) (i : ℕ) (w : World)
    → (load_async h file_name false true i (codes "ipfs") w).0 ≡ undefined
    → Undefined h
unfolding load_async
load_async-undefined h file_name i w e =
    elim (Option-cases (Maps.find (components_of file_name).prefix w.loaders)) [
      | inl missing ↦ absurd (ground arith)
      | inr (l, found) ↦ (l, (components_of file_name).base, ground arith)
    ]

pub load_each-undefined :
    (h : Handlers) (i : ℕ) (file_names : List Bytes) (w : World)
    → (load_each h i file_names w).0 ≡ undefined
    → Undefined h
unfolding load_each
load_each-undefined h i [] w e = absurd (cc)
load_each-undefined h i (file_name ∷ file_names) w e =
    elim (>>=-undefined (load_async h file_name false true i (codes "ipfs"))
      (λ d. load_each h (i + 1) file_names) w e) [
        | inl first ↦ load_async-undefined h file_name i w first
        | inr (d, v, rest) ↦ load_each-undefined h (i + 1) file_names v rest
      ]

-- The parts of a loop of loads that returns.
load_each-parts :
    (h : Handlers) (i : ℕ) (file_name : Bytes) (file_names : List Bytes) (w w' : World)
    → load_each h i (file_name ∷ file_names) w ≡ (returned tt, w')
    → (d : Data) × (v : World) × (load_async h file_name false true i (codes "ipfs") w
        ≡ (returned d, v))
      × (load_each h (i + 1) file_names v ≡ (returned tt, w'))
unfolding load_each
load_each-parts h i file_name file_names w w' e =
    >>=-returned (load_async h file_name false true i (codes "ipfs"))
      (λ d. load_each h (i + 1) file_names) w w' tt e

load_each-IsLoaded :
    (h : Handlers) (i : ℕ) (file_names : List Bytes) (w w' : World)
    → load_each h i file_names w ≡ (returned tt, w')
    → All (IsLoaded h w.loaders) file_names
load_each-IsLoaded h i [] w w' e = tt
load_each-IsLoaded h i (file_name ∷ file_names) w w' e =
    let (d, v, first, rest) = load_each-parts h i file_name file_names w w' e in
    (
      load_async-IsLoaded h file_name i d w (ap (λ (x : Call Data × World). x.0) first),
      subst (λ m. All (IsLoaded h m) file_names)
          (ap (λ (x : Call Data × World). x.1.loaders) (sym first)
            ∙ load_async-loaders h file_name i w)
          (load_each-IsLoaded h (i + 1) file_names v w' rest),
    )

IsLoaded-load_each :
    (h : Handlers) (i : ℕ) (file_names : List Bytes) (w : World)
    → All (IsLoaded h w.loaders) file_names
    → (load_each h i file_names w).0 ≡ returned tt
unfolding load_each
IsLoaded-load_each h i [] w v = refl
IsLoaded-load_each h i (file_name ∷ file_names) w (v, vs) =
    let x = load_async h file_name false true i (codes "ipfs") w in
    rw (IsLoaded-load_async h file_name i w v, ◌>>=◌)
      (IsLoaded-load_each h (i + 1) file_names x.1
        (subst (λ m. All (IsLoaded h m) file_names) (sym (load_async-loaders h file_name i w)) vs))

-- The loop of the loads returns just where each URL has a registered loader whose call returns.
pub load_each_iff :
    (h : Handlers) (i : ℕ) (file_names : List Bytes) (w : World)
    → ((load_each h i file_names w).0 ≡ returned tt) ↔ All (IsLoaded h w.loaders) file_names
load_each_iff h i file_names w = (
  λ e.
      load_each-IsLoaded h i file_names w (load_each h i file_names w).1
        (ap (λ (r : Call (Unit {0})). (r, (load_each h i file_names w).1)) e),
  IsLoaded-load_each h i file_names w,
)

-- The loop leaves the io_context as it is.
pub load_each-stopped :
    (h : Handlers) (i : ℕ) (file_names : List Bytes) (w w' : World)
    → load_each h i file_names w ≡ (returned tt, w')
    → w'.stopped ≡ w.stopped
unfolding load_each
load_each-stopped h i [] w w' e = ap (λ (x : Call (Unit {0}) × World). x.1.stopped) (sym e)
load_each-stopped h i (file_name ∷ file_names) w w' e =
    let (d, v, first, rest) = load_each-parts h i file_name file_names w w' e in
    load_each-stopped h (i + 1) file_names v w' rest
    ∙ (load_async-Started h file_name false true i (codes "ipfs") d w v first).running

-- Each load leaves a callback to be made.
pub load_each-held :
    (h : Handlers) (i : ℕ) (file_names : List Bytes) (w w' : World)
    → load_each h i file_names w ≡ (returned tt, w')
    → length w'.pending ≡ length file_names + length w.pending
unfolding load_each
load_each-held h i [] w w' e =
    let same = ap (λ (x : Call (Unit {0}) × World). length x.1.pending) e in omega (arith, same)
load_each-held h i (file_name ∷ file_names) w w' e =
    let (d, v, first, rest) = load_each-parts h i file_name file_names w w' e in
    omega (
      arith,
      load_each-held h (i + 1) file_names v w' rest,
      load_async-Started h file_name false true i (codes "ipfs") d w v first,
    )

-- The numbers of the final callbacks of some loads, the latest first.
abbrev pub numbered : ℕ → List Bytes → List (Option ℕ) → List (Option ℕ)
numbered i [] log = log
numbered i (file_name ∷ file_names) log = numbered (i + 1) file_names (some i ∷ log)

module _ (L : Device Completion) (S : Device (Unit {0})) (D : Shared Completion)
    (h : Handlers) where
  -- The devices after some loads, the latest first.
  abbrev pub in_use : ℕ → List Bytes → List L.Phase → List (Job L S D) → List (Job L S D)
  in_use i (file_name ∷ file_names) (s ∷ phases) js =
      in_use (i + 1) file_names phases (loading s (context_of file_name (codes "ipfs") i) ∷ js)
  in_use i file_names phases js = js

  -- A device for each load, none of which has made its callback.
  abbrev pub Fresh : List Bytes → List L.Phase → Type 0
  Fresh file_names phases = (length phases ≡ length file_names) × All (λ s. L.due s ≡ 0) phases

  pub load_each-Runs :
      (i : ℕ) (file_names : List Bytes) (phases : List L.Phase) (x y : System L S D)
      {log : List (Option ℕ)} (w : World)
      → Fresh file_names phases
      → load_each h i file_names y.world ≡ (returned tt, w)
      → Runs L S D h x log y
      → Runs L S D h x
          (numbered i file_names log)
          (record { world = w; jobs = in_use i file_names phases y.jobs; shared = y.shared })
  unfolding load_each
  load_each-Runs i [] phases x y {log} w f e r =
      subst (λ v. Runs L S D h x log (record { world = v; jobs = y.jobs; shared = y.shared }))
        (ap (λ (z : Call (Unit {0}) × World). z.1) e) r
  load_each-Runs i (file_name ∷ file_names) [] x y w f e r = absurd (omega (arith, f.0))
  load_each-Runs i (file_name ∷ file_names) (s ∷ phases) x y w (size, (fresh, later)) e r =
      let (d, v, first, rest) = load_each-parts h i file_name file_names y.world w e in
      load_each-Runs (i + 1) file_names phases x
        (record {
          world = v;
          jobs = loading s (context_of file_name (codes "ipfs") i) ∷ y.jobs;
          shared = y.shared;
        })
        w (omega (arith, size), later) rest
        (then_step r (starts_load file_name false true i (codes "ipfs") d s v fresh first))

-- How often a number is among those of the final callbacks.
pub count-numbered :
    (f i : ℕ) (file_names : List Bytes) (log : List (Option ℕ))
    → count f (numbered i file_names log)
      ≡ (if leb i f && ltb f (i + length file_names) then 1 else 0) + count f log
count-numbered f i [] log = ground arith
count-numbered f i (file_name ∷ file_names) log =
    ground (arith, count-numbered f (i + 1) file_names (some i ∷ log))

-- None of them leaks.
pub leaks-numbered :
    (i : ℕ) (file_names : List Bytes) (log : List (Option ℕ))
    → leaks (numbered i file_names log) ≡ leaks log
leaks-numbered i [] log = refl
leaks-numbered i (file_name ∷ file_names) log = leaks-numbered (i + 1) file_names (some i ∷ log)
