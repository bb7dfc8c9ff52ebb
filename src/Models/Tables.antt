-- ===== src/Models/Tables.antt =====
-- Queries and writes on the tables: `objects.get`, `filter`, `first`, `save` of an instance that has
-- a row, and `create`.
use finmars_workflow.Common.{
  ℕ, ◌+◌, String, ◌≡◌, ◌≢◌, refl, Bool, true, false, ◌&&◌, Option, none, some, List, [], ◌∷◌, map,
  arith, ◌==◌, if◌then◌else◌, find, select, All, str_eq,
}
use finmars_workflow.Common.Exec.{
  Exec, Result, ok, err, does_not_exist, multiple_objects, need, lift,
}
use finmars_workflow.Models.{Workflow, WorkflowTemplate, Task, Store}

-- objects.get(...): the one row that passes the test
one_of : {A : Type 0} → List A → Result A
one_of [] = err does_not_exist
one_of (x ∷ []) = ok x
one_of (x ∷ y ∷ _) = err multiple_objects

unfoldable pub get_one : {A : Type 0} → (A → Bool) → List A → Result A
unfolding one_of
get_one test rows = one_of (select test rows)

-- Workflow.objects.get(id=...): ids are primary keys
unfoldable pub get_workflow : ℕ → Exec Store Workflow
get_workflow k s = need does_not_exist (find (λ w. w.id == k) s.workflows) s

unfoldable pub get_template : ℕ → Exec Store WorkflowTemplate
get_template k s = need does_not_exist (find (λ t. t.id == k) s.templates) s

-- node_id=... or celery_task_id=... in a filter: None selects the rows where the column is null
abbrev pub same_node : Option String → Option String → Bool
same_node none none = true
same_node (some j) (some k) = str_eq j k
same_node _ _ = false

-- Task.objects.get(workflow=..., node_id=...)
abbrev pub is_of_node : ℕ → Option String → Task → Bool
is_of_node w node t = t.workflow == w && same_node t.node_id node

unfoldable pub get_task_of_node : ℕ → Option String → Exec Store Task
unfolding get_one
get_task_of_node w node s = lift (get_one (is_of_node w node) s.tasks) s

-- Task.objects.get(celery_task_id=...)
abbrev pub has_celery_id : Option String → Task → Bool
has_celery_id k t = same_node t.celery_task_id k

unfoldable pub get_celery_task : Option String → Exec Store Task
unfolding get_one
get_celery_task k s = lift (get_one (has_celery_id k) s.tasks) s

-- Task.objects.get(id=...)
unfoldable pub get_task : ℕ → Exec Store Task
get_task k s = need does_not_exist (find (λ t. t.id == k) s.tasks) s

-- workflow.tasks.all()
abbrev pub tasks_of : ℕ → List Task → List Task
tasks_of w ts = select (λ t. t.workflow == w) ts

abbrev pub replace_task : Task → List Task → List Task
replace_task t = map (λ u. if u.id == t.id then t else u)

abbrev pub replace_workflow : Workflow → List Workflow → List Workflow
replace_workflow w = map (λ v. if v.id == w.id then w else v)

-- task.save() on an instance that has a row
abbrev pub put_task : Task → Store → Store
put_task t s = record s { tasks = replace_task t s.tasks }

-- Task(...).save(): a new row, the newest one; its id is the next of the sequence
abbrev pub add_task : (ℕ → Task) → Store → Store
add_task make s = record s { tasks = make s.next_task ∷ s.tasks; next_task = s.next_task + 1 }

abbrev pub IsFresh : ℕ → List Task → Type 0
IsFresh k ts = All (λ t. t.id ≢ k) ts

-- The primary key: no two rows have one id.
abbrev pub HasDistinctIds : List Task → Type 0
HasDistinctIds [] = Unit
HasDistinctIds (t ∷ ts) = IsFresh t.id ts × HasDistinctIds ts

-- Pointwise equal updates of a table are equal.
pub map-of-All :
    {A : Type 0} (f g : A → A) (xs : List A) → All (λ x. f x ≡ g x) xs → map f xs ≡ map g xs
map-of-All f g [] h = refl
map-of-All f g (x ∷ xs) h = ground (arith, h.0, map-of-All f g xs h.1)
