-- ===== src/System/Interface.antt =====
-- What `FileManager` needs of the devices of the handlers (include/FileLoader.hpp,
-- include/FileSaver.hpp): each makes its callback once.
use async_iomanager.Common.{
  ℕ, Bool, Bytes, ◌==◌, if◌then◌else◌, ◌+◌, ◌≤◌, List, [], ◌∷◌, length, ◌⊎◌, inl, inr, ◌≡◌, arith,
}

-- A device that an asynchronous call of a handler leaves in the io_context: an input runs one of its
-- lambdas, which makes some callbacks. `due` is 1 where it has made its callback.
pub record Device (C : Type 0) : Type 1 where
  pub Phase : Type 0
  pub Input : Type 0
  pub step : Phase → Input → Phase × List C
  pub due : Phase → ℕ
  pub due_at_most_one : (s : Phase) → due s ≤ 1
  pub made_is_due : (s : Phase) (i : Input) → length (step s i).1 + due s ≡ due (step s i).0

-- How often a number occurs among callbacks.
abbrev pub made_for : {C : Type 0} → ℕ → List (ℕ × C) → ℕ
made_for k [] = 0
made_for k (p ∷ ps) = (if p.0 == k then 1 else 0) + made_for k ps

-- A device that serves many loads. A call starts one more, under a number that stands for its
-- callback, and gets some answers at once. `held` is how many callbacks the device has for a number.
pub record Shared (C : Type 0) : Type 1 where
  pub Phase : Type 0
  pub Answers : Type 0
  pub Input : Type 0
  pub start : Bytes → ℕ → Bool → Bool → Answers → Phase → Phase
  pub step : Phase → Input → Phase × List (ℕ × C)
  pub held : ℕ → Phase → ℕ
  pub start_holds :
      (j : ℕ) (file : Bytes) (k : ℕ) (parse save : Bool) (a : Answers) (s : Phase)
      → held j (start file k parse save a s) ≡ (if k == j then 1 else 0) + held j s
  pub step_holds :
      (j : ℕ) (s : Phase) (i : Input) → made_for j (step s i).1 + held j (step s i).0 ≡ held j s
  pub one_at_most : (s : Phase) (i : Input) → length (step s i).1 ≤ 1

-- A device whose callback may also be posted before it has anything to wait for.
pub data Posting (S C : Type 0) : Type 0 where
  awaits : S → Posting S C
  posted : C → Posting S C
  ran : Posting S C

pub data PostingInput (I : Type 0) : Type 0 where
  input : I → PostingInput I
  run_posted : PostingInput I

module _ {C : Type 0} (d : Device C) where
  abbrev pub posting_step : Posting d.Phase C → PostingInput d.Input → Posting d.Phase C × List C
  posting_step (awaits s) (input i) = (awaits (d.step s i).0, (d.step s i).1)
  posting_step (posted c) run_posted = (ran, c ∷ [])
  posting_step s i = (s, [])

  abbrev pub posting_due : Posting d.Phase C → ℕ
  posting_due (awaits s) = d.due s
  posting_due (posted c) = 0
  posting_due ran = 1

  pub posting_at_most_one : (s : Posting d.Phase C) → posting_due s ≤ 1
  posting_at_most_one (awaits s) = d.due_at_most_one s
  posting_at_most_one (posted c) = omega arith
  posting_at_most_one ran = omega arith

  pub posting_made :
      (s : Posting d.Phase C) (i : PostingInput d.Input)
      → length (posting_step s i).1 + posting_due s ≡ posting_due (posting_step s i).0
  posting_made (awaits s) (input i) = d.made_is_due s i
  posting_made (awaits s) run_posted = omega arith
  posting_made (posted c) (input i) = omega arith
  posting_made (posted c) run_posted = omega arith
  posting_made ran i = omega arith

  abbrev pub posting : Device C
  posting = record {
    Phase = Posting d.Phase C;
    Input = PostingInput d.Input;
    step = posting_step;
    due = posting_due;
    due_at_most_one = posting_at_most_one;
    made_is_due = posting_made;
  }

-- A device of one of two kinds. An input for the other kind does not occur, and changes nothing.
module _ {C : Type 0} (d e : Device C) where
  abbrev pub either_step : d.Phase ⊎ e.Phase → d.Input ⊎ e.Input → (d.Phase ⊎ e.Phase) × List C
  either_step (inl s) (inl i) = (inl (d.step s i).0, (d.step s i).1)
  either_step (inr s) (inr i) = (inr (e.step s i).0, (e.step s i).1)
  either_step s i = (s, [])

  abbrev pub either_due : d.Phase ⊎ e.Phase → ℕ
  either_due (inl s) = d.due s
  either_due (inr s) = e.due s

  pub either_at_most_one : (s : d.Phase ⊎ e.Phase) → either_due s ≤ 1
  either_at_most_one (inl s) = d.due_at_most_one s
  either_at_most_one (inr s) = e.due_at_most_one s

  pub either_made :
      (s : d.Phase ⊎ e.Phase) (i : d.Input ⊎ e.Input)
      → length (either_step s i).1 + either_due s ≡ either_due (either_step s i).0
  either_made (inl s) (inl i) = d.made_is_due s i
  either_made (inr s) (inr i) = e.made_is_due s i
  either_made (inl s) (inr i) = omega arith
  either_made (inr s) (inl i) = omega arith

  abbrev pub either : Device C
  either = record {
    Phase = d.Phase ⊎ e.Phase;
    Input = d.Input ⊎ e.Input;
    step = either_step;
    due = either_due;
    due_at_most_one = either_at_most_one;
    made_is_due = either_made;
  }
