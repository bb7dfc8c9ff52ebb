-- ===== src/System/Worker.antt =====
-- What `cancel_all_existing_tasks` leaves of a worker.
use finmars_workflow.Common.{
  ℕ, String, ◌≡◌, refl, true, false, List, [], ◌∷◌, arith, ◌==◌, ==-refl, select, any, All,
  if◌then◌else◌,
}
use finmars_workflow.Models.{Env, Task, Store}
use finmars_workflow.Models.Tables.{replace_task}
use finmars_workflow.Models.Cancel.{canceled_task}
use finmars_workflow.System.{
  is_of_worker, drop_task, drop_tasks, cancel_all, workflows_of, cancel_all_existing_tasks,
}

-- Every row that is still active on the worker is one of those that the loop has before it.
abbrev Covers : String → List Task → List Task → Type 0
Covers worker pending rows =
    All (λ v. is_of_worker worker v ≡ true → any (λ t. t.id == v.id) pending ≡ true) rows

Covers-replace :
    (worker : String) (now : ℕ) (t : Task) (pending rows : List Task)
    → Covers worker (t ∷ pending) rows
    → Covers worker pending (replace_task (canceled_task now t) rows)
Covers-replace worker now t pending [] h = tt
Covers-replace worker now t pending (v ∷ rows) h =
    (λ left. ground (arith, h.0), Covers-replace worker now t pending rows h.1)

Covers-more :
    (worker : String) (t : Task) (pending rows : List Task)
    → Covers worker pending rows
    → Covers worker (if is_of_worker worker t then t ∷ pending else pending) rows
Covers-more worker t pending [] h = tt
Covers-more worker t pending (v ∷ rows) h =
    (λ left. ground (arith, h.0), Covers-more worker t pending rows h.1)

Covers-select :
    (worker : String) (rows : List Task) → Covers worker (select (is_of_worker worker) rows) rows
Covers-select worker [] = tt
Covers-select worker (t ∷ rows) = (
  λ left. rw (left, ==-refl t.id) refl,
  Covers-more worker t (select (is_of_worker worker) rows) rows (Covers-select worker rows),
)

drop_task-tasks :
    (t : Task) (s : Store) → (drop_task t s).tasks ≡ replace_task (canceled_task s.clock t) s.tasks
unfolding drop_task
drop_task-tasks t s = ground arith

loop-Covers :
    (worker : String) (pending : List Task) (s : Store)
    → Covers worker pending s.tasks
    → Covers worker [] (drop_tasks pending s).tasks
unfolding drop_tasks
loop-Covers worker [] s h = h
loop-Covers worker (t ∷ pending) s h =
    loop-Covers worker pending (drop_task t s)
      (rw (drop_task-tasks t s) (Covers-replace worker s.clock t pending s.tasks h))

none_left :
    (worker : String) (rows : List Task)
    → Covers worker [] rows
    → All (λ t. is_of_worker worker t ≡ false) rows
none_left worker [] h = tt
none_left worker (t ∷ rows) h = (ground (arith, h.0), none_left worker rows h.1)

-- Afterwards no task of the worker is new, in progress or waiting for a nested workflow.
pub cancel_all_existing_tasks_lem :
    (env : Env) (worker : String) (s : Store)
    → All (λ t. is_of_worker worker t ≡ false) (cancel_all_existing_tasks env worker s).tasks
unfolding cancel_all_existing_tasks
cancel_all_existing_tasks_lem env worker s =
    let s' = cancel_all env (workflows_of worker s) s in
    let pending = select (is_of_worker worker) s'.tasks in
    none_left worker (drop_tasks pending s').tasks
      (loop-Covers worker pending s' (Covers-select worker s'.tasks))
