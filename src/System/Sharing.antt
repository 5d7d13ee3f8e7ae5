-- ===== src/System/Sharing.antt =====
-- The device that serves many loads, in the system (src/FileManager.cpp, src/IPFSCommon.cpp): the
-- callbacks that it has are those of the loads that the system knows of.
use async_iomanager.Common.{
  ℕ, ◌+◌, ◌<◌, Option, List, [], ◌∷◌, ◌++◌, ◌==◌, ◌&&◌, Bool-cases, ◌≡◌, inl, inr, refl, sym, ap,
  ◌∙◌, arith,
}
use async_iomanager.Io.{Completion, has_value}
use async_iomanager.Manager.State.{Handlers, LoadContext}
use async_iomanager.System.Interface.{Device, Shared, made_for}
use async_iomanager.System.{
  Job, loading, storing, asking, System, asked_for, handed_on, Step, starts_load, refuses_load,
  leaks_load, starts_save, refuses_save, goes_on, loaded, writes_on, stored, starts_shared,
  shared_goes_on, answered, Runs, begin, then_step,
}

module _ (L : Device Completion) (S : Device (Unit {0})) (D : Shared Completion) (k : ℕ) where
  asked_for-append :
      (js ks : List (Job L S D))
      → asked_for L S D k (js ++ ks) ≡ asked_for L S D k js + asked_for L S D k ks
  asked_for-append [] ks = omega arith
  asked_for-append (loading s ctx ∷ js) ks = asked_for-append js ks
  asked_for-append (storing s t ∷ js) ks = asked_for-append js ks
  asked_for-append (asking n ctx ∷ js) ks = omega (arith, asked_for-append js ks)

  -- A job among others that is not of the shared device.
  asked_for-same :
      (before after : List (Job L S D)) (j j' : Job L S D)
      → asked_for L S D k (j ∷ []) ≡ asked_for L S D k (j' ∷ [])
      → asked_for L S D k (before ++ j ∷ after) ≡ asked_for L S D k (before ++ j' ∷ after)
  asked_for-same before after j j' e = omega (
    arith,
    e,
    asked_for-append before (j ∷ after),
    asked_for-append before (j' ∷ after),
    asked_for-append (j ∷ []) after,
    asked_for-append (j' ∷ []) after,
  )

  handed_on-asks :
      (c : Completion) (t : S.Phase) (js : List (Job L S D))
      → asked_for L S D k (handed_on L S D c t ++ js) ≡ asked_for L S D k js
  handed_on-asks c t js = elim (Bool-cases (has_value c.buffers && c.save)) [
    | inl saved_on ↦ rw saved_on refl
    | inr over ↦ rw over refl
  ]

  -- The loads with a number are as many as the callbacks that the device has for it.
  abbrev pub Holds : System L S D → Type 0
  Holds y = asked_for L S D k y.jobs ≡ D.held k y.shared

  step-Holds :
      (h : Handlers) (y y' : System L S D) {asked : List (Option ℕ)}
      → Step L S D h y asked y'
      → Holds y
      → Holds y'
  step-Holds h y y' (starts_load url parse save f savetype d s w fresh e) a = a
  step-Holds h y y' (refuses_load url parse save f savetype e w missing r) a = a
  step-Holds h y y' (leaks_load url parse save f savetype e l w found r) a = a
  step-Holds h y y' (starts_save url value f s w fresh e) a = a
  step-Holds h y y' (refuses_save url value f e w r) a = a
  step-Holds h y y' (goes_on before after s ctx i e none_made) a =
      asked_for-same before after (loading (L.step s i).0 ctx) (loading s ctx) refl
      ∙ ap (asked_for L S D k) (sym e)
      ∙ a
  step-Holds h y y' (loaded before after s ctx i c t w e one fresh r) a =
      handed_on-asks c t (before ++ loading (L.step s i).0 ctx ∷ after)
      ∙ asked_for-same before after (loading (L.step s i).0 ctx) (loading s ctx) refl
      ∙ ap (asked_for L S D k) (sym e)
      ∙ a
  step-Holds h y y' (writes_on before after s t i e none_made) a =
      asked_for-same before after (storing (S.step s i).0 t) (storing s t) refl
      ∙ ap (asked_for L S D k) (sym e)
      ∙ a
  step-Holds h y y' (stored before after s t i e one) a =
      asked_for-same before after (storing (S.step s i).0 t) (storing s t) refl
      ∙ ap (asked_for L S D k) (sym e)
      ∙ a
  step-Holds h y y' (starts_shared url parse save f savetype d n b w fresh e) a =
      omega (arith, a, D.start_holds k _ n parse save b y.shared)
  step-Holds h y y' (shared_goes_on i none_made) a =
      omega (arith, a, ap (made_for k) none_made, D.step_holds k y.shared i)
  step-Holds h y y' (answered before after n ctx i c t w e one fresh r) a = omega (
    arith,
    a,
    handed_on-asks c t (before ++ after),
    ap (asked_for L S D k) e,
    asked_for-append before (asking n ctx ∷ after),
    asked_for-append before after,
    ap (made_for k) one,
    D.step_holds k y.shared i,
  )

  pub Runs-Holds :
      (h : Handlers) (y y' : System L S D) {log : List (Option ℕ)}
      → Runs L S D h y log y'
      → Holds y
      → Holds y'
  Runs-Holds h y y' begin a = a
  Runs-Holds h y y' (then_step {u = u} r s) a = step-Holds h u y' s (Runs-Holds h y u r a)

module _ (L : Device Completion) (S : Device (Unit {0})) (D : Shared Completion) where
  -- A load with a number, among the jobs.
  abbrev pub Asks : ℕ → List (Job L S D) → Type 0
  Asks k js =
      (before : List (Job L S D)) × (ctx : LoadContext) × (after : List (Job L S D)) × (js
        ≡ before ++ asking k ctx ∷ after)

  later : (k : ℕ) (j : Job L S D) (js : List (Job L S D)) → Asks k js → Asks k (j ∷ js)
  later k j js (before, ctx, after, e) = (j ∷ before, ctx, after, ap (λ x. j ∷ x) e)

  pub asked_for-Asks : (k : ℕ) (js : List (Job L S D)) → 0 < asked_for L S D k js → Asks k js
  asked_for-Asks k [] some_asked = absurd (omega arith)
  asked_for-Asks k (loading s ctx ∷ js) some_asked =
      later k (loading s ctx) js (asked_for-Asks k js some_asked)
  asked_for-Asks k (storing s t ∷ js) some_asked =
      later k (storing s t) js (asked_for-Asks k js some_asked)
  asked_for-Asks k (asking n ctx ∷ js) some_asked = elim (Bool-cases (n == k)) [
    | inl same ↦ ([], ctx, js, ap (λ m. asking m ctx ∷ js) (ground (arith, same)))
    | inr other ↦
        later k (asking n ctx) js
          (asked_for-Asks k js (let rest = some_asked in ground (arith, other)))
  ]
