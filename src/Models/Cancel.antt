-- ===== src/Models/Cancel.antt =====
-- `Workflow.cancel` of workflow/models.py, and what it does to the whole table of tasks.
use mathlib.Core.List.{map-id, map-map, append-nil, append_assoc}
use finmars_workflow.Common.{
  sym, ◌∙◌, ℕ, ◌≡◌, ◌≢◌, refl, ◌&&◌, some, List, [], ◌∷◌, ◌++◌, map, arith, ◌==◌, if◌then◌else◌,
  select, All, Bool-cases, inl, inr, ap,
}
use finmars_workflow.Models.{Env, Workflow, Task, Store, WorkflowStatus, TaskStatus, is_active}
use finmars_workflow.Models.Tables.{
  put_task, replace_workflow, tasks_of, IsFresh, HasDistinctIds, map-of-All,
}
use finmars_workflow.Models.Save.{save_workflow, save_workflow_shape}

-- task.mark_task_as_finished()
abbrev pub mark_task_as_finished : ℕ → Task → Task
mark_task_as_finished now t = record t { finished_at = some now }

abbrev pub canceled_task : ℕ → Task → Task
canceled_task now t = mark_task_as_finished now (record t { status = TaskStatus.canceled })

-- celery_app.control.revoke(task.celery_task_id, terminate=True, signal="SIGKILL")
abbrev pub revoke : Task → Store → Store
revoke t s = record s { revoked = s.revoked ++ t.celery_task_id ∷ [] }

unfoldable pub cancel_task : Task → Store → Store
cancel_task t s = if is_active t.status then put_task (canceled_task s.clock t) (revoke t s) else s

unfoldable pub cancel_tasks : List Task → Store → Store
cancel_tasks [] s = s
cancel_tasks (t ∷ ts) s = cancel_tasks ts (cancel_task t s)

unfoldable pub cancel : Env → Workflow → Store → Store
unfolding cancel_task cancel_tasks
cancel env w s =
    save_workflow env (record w { status = WorkflowStatus.canceled })
      (cancel_tasks (tasks_of w.id s.tasks) s)

-- What canceling means for one row, and for the list of revoked ids.
abbrev pub settled : ℕ → ℕ → Task → Task
settled w now t = if t.workflow == w && is_active t.status then canceled_task now t else t

-- The tasks that the loop revokes, in its order.
abbrev pub active_of : ℕ → List Task → List Task
active_of w ts = select (λ t. is_active t.status) (tasks_of w ts)

-- The effect of the loop over `ts` on one row.
effect : ℕ → List Task → Task → Task
effect now [] u = u
effect now (t ∷ ts) u =
    effect now ts (if is_active t.status && u.id == t.id then canceled_task now t else u)

cancel_task-tasks :
    (t : Task) (s : Store)
    → (cancel_task t s).tasks
      ≡ map (λ u. if is_active t.status && u.id == t.id then canceled_task s.clock t else u) s.tasks
unfolding cancel_task
cancel_task-tasks t s = elim (Bool-cases (is_active t.status)) [
  | inl e ↦ rw e refl
  | inr e ↦ rw e (sym (map-id s.tasks))
]

cancel_task-clock : (t : Task) (s : Store) → (cancel_task t s).clock ≡ s.clock
unfolding cancel_task
cancel_task-clock t s = ground arith

cancel_tasks-tasks :
    (ts : List Task) (s : Store) → (cancel_tasks ts s).tasks ≡ map (effect s.clock ts) s.tasks
unfolding cancel_tasks effect
cancel_tasks-tasks [] s = sym (map-id s.tasks)
cancel_tasks-tasks (t ∷ ts) s =
    cancel_tasks-tasks ts (cancel_task t s)
    ∙ rw (cancel_task-tasks t s, cancel_task-clock t s) (map-map _ _ s.tasks)

-- Rows that the loop does not meet are left alone.
effect-fresh :
    (now : ℕ) (w : ℕ) (ts : List Task) (u : Task)
    → IsFresh u.id ts
    → effect now (tasks_of w ts) u ≡ u
unfolding effect
effect-fresh now w [] u h = refl
effect-fresh now w (t ∷ ts) u h = elim (Bool-cases (t.workflow == w)) [
  | inl e ↦ rw e (ground (arith, effect-fresh now w ts u h.1, h.0))
  | inr e ↦ rw e (effect-fresh now w ts u h.1)
]

-- The row that the loop does meet is settled once.
effect-head :
    (now w : ℕ) (t : Task) (ts : List Task)
    → IsFresh t.id ts
    → effect now (tasks_of w (t ∷ ts)) t ≡ settled w now t
unfolding effect
effect-head now w t ts h = elim (Bool-cases (t.workflow == w)) [
  | inl e ↦
      rw e
        (ground (arith, effect-fresh now w ts (canceled_task now t) h, effect-fresh now w ts t h))
  | inr e ↦ rw e (effect-fresh now w ts t h)
]

effect-skip :
    (now w : ℕ) (t u : Task) (ts : List Task)
    → u.id ≢ t.id
    → effect now (tasks_of w (t ∷ ts)) u ≡ effect now (tasks_of w ts) u
unfolding effect
effect-skip now w t u ts h = elim (Bool-cases (t.workflow == w)) [
  | inl e ↦ rw e (ground arith)
  | inr e ↦ rw e refl
]

effect-rest :
    (now w : ℕ) (t : Task) (ts us : List Task)
    → IsFresh t.id us
    → All (λ u. effect now (tasks_of w ts) u ≡ settled w now u) us
    → All (λ u. effect now (tasks_of w (t ∷ ts)) u ≡ settled w now u) us
effect-rest now w t ts [] fresh h = tt
effect-rest now w t ts (u ∷ us) fresh h =
    (effect-skip now w t u ts fresh.0 ∙ h.0, effect-rest now w t ts us fresh.1 h.1)

effect-settled :
    (now w : ℕ) (ts : List Task)
    → HasDistinctIds ts
    → All (λ u. effect now (tasks_of w ts) u ≡ settled w now u) ts
effect-settled now w [] h = tt
effect-settled now w (t ∷ ts) h =
    (effect-head now w t ts h.0, effect-rest now w t ts ts h.0 (effect-settled now w ts h.1))

cancel_task-revoked :
    (t : Task) (s : Store)
    → (cancel_task t s).revoked
      ≡ s.revoked ++ (if is_active t.status then t.celery_task_id ∷ [] else [])
unfolding cancel_task
cancel_task-revoked t s = ground (arith, append-nil s.revoked)

cancel_tasks-revoked :
    (ts : List Task) (s : Store)
    → (cancel_tasks ts s).revoked
      ≡ s.revoked ++ map (λ t. t.celery_task_id) (select (λ t. is_active t.status) ts)
unfolding cancel_tasks
cancel_tasks-revoked [] s = sym (append-nil s.revoked)
cancel_tasks-revoked (t ∷ ts) s =
    let rest = map (λ (u : Task). u.celery_task_id) (select (λ u. is_active u.status) ts) in
    cancel_tasks-revoked ts (cancel_task t s)
    ∙ ap (λ r. r ++ rest) (cancel_task-revoked t s)
    ∙ ground (arith, append_assoc s.revoked (t.celery_task_id ∷ []) rest, append-nil s.revoked)

-- Canceling a workflow revokes the Celery tasks of its tasks that have not ended, newest first, and
-- marks these and no other row as canceled and finished now: ended tasks and the tasks of other
-- workflows keep their rows. Ids are distinct, as primary keys are.
pub cancel-settled :
    (env : Env) (w : Workflow) (s : Store)
    → HasDistinctIds s.tasks
    → ((cancel env w s).tasks ≡ map (settled w.id s.clock) s.tasks)
      × ((cancel env w s).revoked
          ≡ s.revoked ++ map (λ t. t.celery_task_id) (active_of w.id s.tasks))
unfolding cancel
cancel-settled env w s h = (
  ap (λ (r : Store). r.tasks) (save_workflow_shape env _ _)
      ∙ cancel_tasks-tasks (tasks_of w.id s.tasks) s
      ∙ map-of-All _ _ s.tasks (effect-settled s.clock w.id s.tasks h),
  ap (λ (r : Store). r.revoked) (save_workflow_shape env _ _)
      ∙ cancel_tasks-revoked (tasks_of w.id s.tasks) s,
)

cancel_tasks-workflows : (ts : List Task) (s : Store) → (cancel_tasks ts s).workflows ≡ s.workflows
unfolding cancel_tasks cancel_task
cancel_tasks-workflows [] s = refl
cancel_tasks-workflows (t ∷ ts) s = cancel_tasks-workflows ts (cancel_task t s) ∙ ground arith

-- The row of the workflow is canceled, and the rows of the others are left alone.
pub cancel-workflows :
    (env : Env) (w : Workflow) (s : Store)
    → (cancel env w s).workflows
      ≡ replace_workflow (record w { status = WorkflowStatus.canceled }) s.workflows
unfolding cancel
cancel-workflows env w s =
    ap (λ (r : Store). r.workflows) (save_workflow_shape env _ _)
    ∙ rw (cancel_tasks-workflows (tasks_of w.id s.tasks) s) refl
