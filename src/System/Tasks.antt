-- ===== src/System/Tasks.antt =====
-- The callbacks that the devices of the system have still to make (src/FileManager.cpp).
use async_iomanager.Common.{
  ℕ, List, [], ◌∷◌, ◌++◌, length, append_assoc, ◌&&◌, if◌then◌else◌, ◌≡◌, refl, sym, ap, ◌∙◌, arith,
  inl, inr, Bool-cases,
}
use async_iomanager.Io.{Completion, has_value}
use async_iomanager.Manager.State.{Handlers, Task, writing, World}
use async_iomanager.Manager.Held.{written-pending, saved-pending}
use async_iomanager.Manager.Steps.{Callback, write, finish}
use async_iomanager.System.Interface.{Device, Shared}
use async_iomanager.System.{
  WriteTask, of_load, of_save, task_of, Job, System, owes, tasks_of, tasks, handed_on, handle_write,
}

module _ (L : Device Completion) (S : Device (Unit {0})) (D : Shared Completion) where
  -- The callbacks that `FileManager` waits for are those that the devices have still to make.
  abbrev pub Matches : System L S D → Type 0
  Matches y = y.world.pending ≡ tasks L S D y.jobs

  pub tasks-append :
      (js ks : List (Job L S D)) → tasks L S D (js ++ ks) ≡ tasks L S D js ++ tasks L S D ks
  tasks-append [] ks = refl
  tasks-append (j ∷ js) ks =
      ap (λ x. tasks_of L S D j ++ x) (tasks-append js ks)
      ∙ sym (append_assoc (tasks_of L S D j) (tasks L S D js) (tasks L S D ks))

  pub owing : (n : ℕ) (t : Task) → n ≡ 0 → owes L S D n t ≡ t ∷ []
  owing n t e = rw e refl

  pub done : (n : ℕ) (t : Task) → n ≡ 1 → owes L S D n t ≡ []
  done n t e = rw e refl

  -- A job among others, before and after it has made its callback.
  pub tasks-owing :
      (before after : List (Job L S D)) (j : Job L S D) (t : Task)
      → tasks_of L S D j ≡ t ∷ []
      → tasks L S D (before ++ j ∷ after) ≡ tasks L S D before ++ t ∷ tasks L S D after
  tasks-owing before after j t e =
      tasks-append before (j ∷ after) ∙ ap (λ x. tasks L S D before ++ (x ++ tasks L S D after)) e

  pub tasks-done :
      (before after : List (Job L S D)) (j : Job L S D)
      → tasks_of L S D j ≡ []
      → tasks L S D (before ++ j ∷ after) ≡ tasks L S D before ++ tasks L S D after
  tasks-done before after j e =
      tasks-append before (j ∷ after) ∙ ap (λ x. tasks L S D before ++ (x ++ tasks L S D after)) e

  -- A job that goes on owes what it did.
  pub tasks-same :
      (before after : List (Job L S D)) (j k : Job L S D)
      → tasks_of L S D j ≡ tasks_of L S D k
      → tasks L S D (before ++ j ∷ after) ≡ tasks L S D (before ++ k ∷ after)
  tasks-same before after j k e =
      tasks-append before (j ∷ after)
      ∙ ap (λ x. tasks L S D before ++ (x ++ tasks L S D after)) e
      ∙ sym (tasks-append before (k ∷ after))

  pub tasks-handed_on :
      (c : Completion) (t : S.Phase) (js : List (Job L S D))
      → S.due t ≡ 0
      → tasks L S D (handed_on L S D c t ++ js)
        ≡ (if has_value c.buffers && c.save then writing ∷ tasks L S D js else tasks L S D js)
  tasks-handed_on c t js fresh = elim (Bool-cases (has_value c.buffers && c.save)) [
    | inl saved_on ↦ rw (saved_on, fresh) refl
    | inr over ↦ rw over refl
  ]

pub handle_write-pending : (t : WriteTask) (w : World) → (handle_write t w).pending ≡ w.pending
handle_write-pending of_load w = written-pending w
handle_write-pending (of_save f value) w = saved-pending f value w

pub handle_write-Callback :
    (h : Handlers) (t : WriteTask) (before after : List Task) (w : World)
    → w.pending ≡ before ++ task_of t ∷ after
    → Callback h w (handle_write t (record w { pending = before ++ after }))
handle_write-Callback h of_load before after w p = write before after p refl
handle_write-Callback h (of_save f value) before after w p = finish before after f value p refl

module _ {C : Type 0} (d : Device C) (s : d.Phase) (i : d.Input) where
  -- An input with one callback makes the callback that was due; one without makes none.
  pub makes_its_callback :
      (c : C) → (d.step s i).1 ≡ c ∷ [] → (d.due s ≡ 0) × (d.due (d.step s i).0 ≡ 1)
  makes_its_callback c e =
      let one : length (d.step s i).1 ≡ 1 = ap length e in
      (
        omega (arith, one, d.made_is_due s i, d.due_at_most_one (d.step s i).0),
        omega (arith, one, d.made_is_due s i, d.due_at_most_one (d.step s i).0),
      )

  pub keeps_its_callback : (d.step s i).1 ≡ [] → d.due s ≡ d.due (d.step s i).0
  keeps_its_callback e =
      let none_made : length (d.step s i).1 ≡ 0 = ap length e in
      omega (arith, none_made, d.made_is_due s i)
