-- ===== src/System/Stopping.antt =====
-- When the io_context is stopped (src/FileManager.cpp, `DecrementOutstandingOperations`), while the
-- devices run and the application makes no call.
use async_iomanager.Common.{
  ℕ, subst, true, false, Option, List, [], ◌∷◌, ◌++◌, Bool-cases, ◌≡◌, ◌≢◌, ◌↔◌, ◌⊎◌, inl, inr,
  refl, sym, ◌∙◌,
}
use async_iomanager.Io.{Completion}
use async_iomanager.Manager.State.{Handlers, Task, World}
use async_iomanager.Manager.Steps.{Callback, read, write, finish}
use async_iomanager.Manager.Counter.{IsBalanced, Callback-IsBalanced, Callback-stops}
use async_iomanager.System.Interface.{Device, Shared}
use async_iomanager.System.{
  System, tasks, Step, starts_load, refuses_load, leaks_load, starts_save, refuses_save, goes_on,
  loaded, writes_on, stored, starts_shared, shared_goes_on, answered, Runs, then_step,
}
use async_iomanager.System.Tasks.{Matches}
use async_iomanager.System.Refinement.{
  step-Refines, loaded-Callback, stored-Callback, answered-Callback,
}

-- The io_context is stopped exactly where no callback is left to be made.
abbrev StopsInTime : World → Type 0
StopsInTime w = (w.stopped ≡ true) ↔ (w.pending ≡ [])

-- A callback finds the io_context running.
running :
    (w : World) (before after : List Task) (t : Task)
    → StopsInTime w
    → w.pending ≡ before ++ t ∷ after
    → w.stopped ≡ false
running w before after t s e = elim (Bool-cases w.stopped) [
  | inl over ↦ absurd (not_empty before (sym (s.0 over) ∙ e))
  | inr on ↦ on
]
  where
    not_empty : (xs : List Task) → [] ≡ xs ++ t ∷ after → ⊥
    not_empty [] e = cc
    not_empty (x ∷ xs) e = cc

Callback-running :
    (h : Handlers) (w w' : World) → StopsInTime w → Callback h w w' → w.stopped ≡ false
Callback-running h w w' s (read before after ctx c e r) = running w before after _ s e
Callback-running h w w' s (write before after e r) = running w before after _ s e
Callback-running h w w' s (finish before after f value e r) = running w before after _ s e

module _ (L : Device Completion) (S : Device (Unit {0})) (D : Shared Completion)
    (h : Handlers) where
  -- A step of a device: no call of the application.
  abbrev pub FromDevice :
      {y y' : System L S D} {asked : List (Option ℕ)} → Step L S D h y asked y' → Type 0
  FromDevice (starts_load url parse save f savetype d s w fresh e) = ⊥
  FromDevice (refuses_load url parse save f savetype e w missing r) = ⊥
  FromDevice (leaks_load url parse save f savetype e l w found r) = ⊥
  FromDevice (starts_save url value f s w fresh e) = ⊥
  FromDevice (refuses_save url value f e w r) = ⊥
  FromDevice (starts_shared url parse save f savetype d k a w fresh e) = ⊥
  FromDevice (shared_goes_on i none_made) = Unit
  FromDevice (answered before after k ctx i c t w e one fresh r) = Unit
  FromDevice (goes_on before after s ctx i e none_made) = Unit
  FromDevice (loaded before after s ctx i c t w e one fresh r) = Unit
  FromDevice (writes_on before after s t i e none_made) = Unit
  FromDevice (stored before after s t i e one) = Unit

  -- Every ordering of the steps of the devices: `io_context::run`.
  pub data Serves (y : System L S D) : System L S D → Type 0 where
    begin_serving : Serves y y
    then_serve :
        {asked : List (Option ℕ)} {u v : System L S D}
        → Serves y u
        → (s : Step L S D h u asked v) → FromDevice s
        → Serves y v

  asks_nothing :
      {y y' : System L S D} {asked : List (Option ℕ)} (s : Step L S D h y asked y')
      → FromDevice s
      → asked ≡ []
  asks_nothing (starts_load url parse save f savetype d s w fresh e) d' = elim d' [ ]
  asks_nothing (refuses_load url parse save f savetype e w missing r) d = elim d [ ]
  asks_nothing (leaks_load url parse save f savetype e l w found r) d = elim d [ ]
  asks_nothing (starts_save url value f s w fresh e) d = elim d [ ]
  asks_nothing (refuses_save url value f e w r) d = elim d [ ]
  asks_nothing (starts_shared url parse save f savetype d k a w fresh e) d' = elim d' [ ]
  asks_nothing (shared_goes_on i none_made) d = refl
  asks_nothing (answered before after k ctx i c t w e one fresh r) d = refl
  asks_nothing (goes_on before after s ctx i e none_made) d = refl
  asks_nothing (loaded before after s ctx i c t w e one fresh r) d = refl
  asks_nothing (writes_on before after s t i e none_made) d = refl
  asks_nothing (stored before after s t i e one) d = refl

  pub Runs-Serves :
      (x y y' : System L S D) {log : List (Option ℕ)}
      → Runs L S D h x log y
      → Serves y y'
      → Runs L S D h x log y'
  Runs-Serves x y y' r begin_serving = r
  Runs-Serves x y y' {log} r (then_serve {u = u} served s d) =
      subst (λ asked. Runs L S D h x (asked ++ log) y') (asks_nothing s d)
        (then_step (Runs-Serves x y u r served) s)

  -- A step of a device leaves the world alone or makes a callback.
  device_step :
      (y y' : System L S D) {asked : List (Option ℕ)} (s : Step L S D h y asked y')
      → FromDevice s
      → Matches L S D y
      → (y'.world ≡ y.world) ⊎ Callback h y.world y'.world
  device_step y y' (starts_load url parse save f savetype d s w fresh e) d' m = elim d' [ ]
  device_step y y' (refuses_load url parse save f savetype e w missing r) d m = elim d [ ]
  device_step y y' (leaks_load url parse save f savetype e l w found r) d m = elim d [ ]
  device_step y y' (starts_save url value f s w fresh e) d m = elim d [ ]
  device_step y y' (refuses_save url value f e w r) d m = elim d [ ]
  device_step y y' (starts_shared url parse save f savetype d k a w fresh e) d' m = elim d' [ ]
  device_step y y' (shared_goes_on i none_made) d m = inl refl
  device_step y y' (answered before after k ctx i c t w e one fresh r) d m =
      inr (answered-Callback L S D h y before after k ctx c w e r m)
  device_step y y' (goes_on before after s ctx i e none_made) d m = inl refl
  device_step y y' (writes_on before after s t i e none_made) d m = inl refl
  device_step y y' (loaded before after s ctx i c t w e one fresh r) d m =
      inr (loaded-Callback L S D h y before after s ctx i c w e one r m)
  device_step y y' (stored before after s t i e one) d m =
      inr (stored-Callback L S D h y before after s t i e one m)

  record IsServing (y : System L S D) : Type 0 where
    matches : Matches L S D y
    balanced : IsBalanced 0 y.world
    in_time : StopsInTime y.world

  step-IsServing :
      (y y' : System L S D) {asked : List (Option ℕ)} (s : Step L S D h y asked y')
      → FromDevice s
      → IsServing y
      → IsServing y'
  step-IsServing y y' s d k =
      let after = (step-Refines L S D h y y' s k.matches).0 in
      elim (device_step y y' s d k.matches) [
        | inl same ↦ record {
          matches = after;
          balanced = rw same k.balanced;
          in_time = rw same k.in_time;
        }
        | inr c ↦ record {
          matches = after;
          balanced = Callback-IsBalanced h 0 y.world y'.world c k.balanced;
          in_time =
              Callback-stops h y.world y'.world k.balanced
                (Callback-running h y.world y'.world k.in_time c) c;
        }
      ]

  Serves-IsServing : (y y' : System L S D) → Serves y y' → IsServing y → IsServing y'
  Serves-IsServing y y' begin_serving k = k
  Serves-IsServing y y' (then_serve {u = u} r s d) k =
      step-IsServing u y' s d (Serves-IsServing y u r k)

  -- While the devices run that were started with the io_context running, at least one of them, it is
  -- stopped exactly when no device has a callback left to make.
  pub Serves-stops :
      (y y' : System L S D)
      → Matches L S D y
      → IsBalanced 0 y.world
      → y.world.stopped ≡ false
      → y.world.pending ≢ []
      → Serves y y'
      → (y'.world.stopped ≡ true) ↔ (tasks L S D y'.jobs ≡ [])
  Serves-stops y y' m b on some_held r =
      let k = Serves-IsServing y y' r (record {
        matches = m;
        balanced = b;
        in_time = (λ e. absurd (cc), λ e. absurd (some_held e));
      }) in
      (λ over. sym k.matches ∙ k.in_time.0 over, λ settled. k.in_time.1 (k.matches ∙ settled))
