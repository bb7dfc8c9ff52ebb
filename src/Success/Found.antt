-- ===== src/Success/Found.antt =====
-- Runs that do not stop for want of fuel, and what the rows that queries find are.
use finmars_workflow.Common.{
  ℕ, ◌<◌, String, ◌≡◌, ◌≢◌, refl, Bool, true, Option, none, some, List, [], ◌∷◌, arith, find,
  select, All, ◌==◌, ==_iff, Bool-cases, inl, inr, Option-cases,
}
use mathlib.Core.Path.{subst}
use finmars_workflow.Common.Exec.{Exec, Result, ok, err, after, out_of_fuel}
use finmars_workflow.Models.{Workflow, WorkflowTemplate, Task, Store}
use finmars_workflow.Models.Tables.{
  get_workflow, get_template, get_task_of_node, is_of_node, replace_workflow,
}

-- A run that did not stop for want of fuel.
abbrev pub Ends {ℓ} : {A : Type ℓ} → Result A × Store → Type ℓ
Ends r = r.0 ≢ err out_of_fuel

abbrev pub ParentBelow : Option ℕ → ℕ → Type 0
ParentBelow none k = Unit
ParentBelow (some p) k = p < k

-- Every nested workflow has a larger id than its parent.
abbrev pub Descends : List Workflow → Type 0
Descends ws = All (λ w. ParentBelow w.parent w.id) ws

pub Ends-after :
    {A B : Type 0} (f : A → Exec Store B) (r : Result A × Store)
    → Ends r
    → ((a : A) (s : Store) → r ≡ (ok a, s) → Ends (f a s))
    → Ends (after f r)
Ends-after f (ok a, s) h k = k a s refl
Ends-after f (err e, s) h k = λ p. h (cc p)

pub find_sound :
    {A : Type 0} (test : A → Bool) (xs : List A) (x : A) → find test xs ≡ some x → test x ≡ true
find_sound test [] x h = cc
find_sound test (y ∷ ys) x h = elim (Bool-cases (test y)) [
  | inl e ↦ ground (arith)
  | inr e ↦ find_sound test ys x (ground arith)
]

pub find-All :
    {A : Type 0} (P : A → Type 0) (test : A → Bool) (xs : List A) (x : A)
    → All P xs
    → find test xs ≡ some x
    → P x
find-All P test [] x a h = cc
find-All P test (y ∷ ys) x a h = elim (Bool-cases (test y)) [
  | inl e ↦ let same : y ≡ x = ground arith in subst P same a.0
  | inr e ↦ find-All P test ys x a.1 (ground arith)
]

pub select-All :
    {A : Type 0} (test : A → Bool) (xs : List A) → All (λ x. test x ≡ true) (select test xs)
select-All test [] = tt
select-All test (x ∷ xs) = elim (Bool-cases (test x)) [
  | inl e ↦ rw e (e, select-All test xs)
  | inr e ↦ rw e (select-All test xs)
]

pub replace-All :
    (P : Workflow → Type 0) (w : Workflow) (ws : List Workflow)
    → P w
    → All P ws
    → All P (replace_workflow w ws)
replace-All P w [] p a = tt
replace-All P w (v ∷ vs) p a = elim (Bool-cases (v.id == w.id)) [
  | inl e ↦ rw e (p, replace-All P w vs p a.1)
  | inr e ↦ rw e (a.0, replace-All P w vs p a.1)
]

-- The row found by an id has that id, and is one of the table's.
pub get_workflow_found :
    (P : Workflow → Type 0) (k : ℕ) (s s' : Store) (w : Workflow)
    → All P s.workflows
    → get_workflow k s ≡ (ok w, s')
    → (w.id ≡ k) × P w × (s' ≡ s)
unfolding get_workflow
get_workflow_found P k s s' w a h = elim (Option-cases (find (λ v. v.id == k) s.workflows)) [
  | inl missing ↦ ground arith
  | inr (v, found) ↦
      let same : v ≡ w = ground arith in
      (
        (==_iff w.id k).0 (rw same at (find_sound (λ u. u.id == k) s.workflows v found)),
        subst P same (find-All P (λ u. u.id == k) s.workflows v a found),
        ground arith,
      )
]

pub get_workflow-Ends : (k : ℕ) (s : Store) → Ends (get_workflow k s)
unfolding get_workflow
get_workflow-Ends k s = ground arith

pub get_template_found :
    (k : ℕ) (s s' : Store) (t : WorkflowTemplate) → get_template k s ≡ (ok t, s') → s' ≡ s
unfolding get_template
get_template_found k s s' t h = ground arith

pub get_template-Ends : (k : ℕ) (s : Store) → Ends (get_template k s)
unfolding get_template
get_template-Ends k s = ground arith

pub get_task-Ends : (w : ℕ) (n : Option String) (s : Store) → Ends (get_task_of_node w n s)
unfolding get_task_of_node
get_task-Ends w n s = ground arith

-- The task found for a node of a workflow is one of that workflow.
pub get_task_found :
    (w : ℕ) (n : Option String) (s s' : Store) (t : Task)
    → get_task_of_node w n s ≡ (ok t, s')
    → (t.workflow ≡ w) × (s' ≡ s)
unfolding get_task_of_node
get_task_found w n s s' t h =
    go (select (is_of_node w n) s.tasks) (select-All (is_of_node w n) s.tasks) refl
  where
    go :
        (found : List Task)
        → All (λ u. is_of_node w n u ≡ true) found
        → select (is_of_node w n) s.tasks ≡ found
        → (t.workflow ≡ w) × (s' ≡ s)
    go [] a e = ground arith
    go (u ∷ []) a e = (ground (arith, a.0), ground arith)
    go (u ∷ v ∷ r) a e = ground arith
