-- ===== src/Views/Early.antt =====
-- A workflow that ends while a branch of it still runs: `Task.handle_task_success` of workflow/models.py, as
-- `pause_workflow` and `resume_workflow` of workflow/views.py then see the workflow.
use mathlib.Core.List.{Memᴰ}
use finmars_workflow.Common.{
  ℕ, suc, String, ◌≡◌, ◌≢◌, refl, ap, ◌∙◌, false, Bool-cases, Option, none, some, List, [], ◌∷◌,
  find, ◌==◌, ==_iff, inl, inr,
}
use finmars_workflow.Common.Dict.{Dict, lookup}
use finmars_workflow.Common.Exec.{ok}
use finmars_workflow.Json.{Json}
use finmars_workflow.Graph.{Node, nodes_by_id, adjacency_list}
use finmars_workflow.Models.{
  Env, Workflow, WorkflowStatus, WorkflowTemplate, Task, Store, is_nested, is_wait, is_in_progress,
}
use finmars_workflow.Models.Tables.{replace_task, put_task}
use finmars_workflow.Models.Save.{save_workflow, save_workflow_shape}
use finmars_workflow.Success.{handle_task_success, next_node_ids, succeeded_task}
use finmars_workflow.Success.Next.{handle_task_success_ends, ended_workflow}
use finmars_workflow.Views.{Response, reply, message, pause_workflow, resume_workflow}
use finmars_workflow.Views.Resume.{get_object_ok, resume_workflow_rejects}
use finmars_workflow.Views.Paused.{find-replace}

-- The row of another task is kept.
replace_task-keeps :
    (t u : Task) (ts : List Task) → u.id ≢ t.id → Memᴰ u ts → Memᴰ u (replace_task t ts)
replace_task-keeps t u [] other m = elim m [ ]
replace_task-keeps t u (v ∷ ts) other (Memᴰ.head e) = elim (Bool-cases (v.id == t.id)) [
  | inl same ↦ absurd (other (ap (λ (x : Task). x.id) e ∙ (==_iff v.id t.id).0 same))
  | inr differs ↦ rw differs (Memᴰ.head e)
]
replace_task-keeps t u (v ∷ ts) other (Memᴰ.tail m) = Memᴰ.tail (replace_task-keeps t u ts other m)

pause_workflow_rejects :
    (env : Env) (k : ℕ) (s : Store) (w : Workflow)
    → find (λ v. v.id == k) s.workflows ≡ some w
    → is_in_progress w.status ≡ false
    → (r : Response) × (pause_workflow env k s ≡ (ok r, s)) × (r.code ≡ 400)
unfolding pause_workflow
pause_workflow_rejects env k s w hw other = (
  reply 400 (message "Cannot pause workflow that is not in progress."),
  rw (get_object_ok k s w hw, other) refl,
  refl,
)

-- The workflow counts as a success, the task is one of the rows, and the workflow can neither be paused nor
-- resumed: the answers are 400, and the store is left as it is.
abbrev pub IsOver : Env → ℕ → Task → Store → Type 0
IsOver env k u s =
    ((v : Workflow) × (find (λ w. w.id == k) s.workflows ≡ some v)
      × (v.status ≡ WorkflowStatus.success))
    × Memᴰ u s.tasks
    × ((r : Response) × (pause_workflow env k s ≡ (ok r, s)) × (r.code ≡ 400))
    × ((payload : Option Json)
        → (r : Response) × (resume_workflow env k payload s ≡ (ok r, s)) × (r.code ≡ 400))

saved-IsOver :
    (env : Env) (k : ℕ) (u t : Task) (s : Store) (w v : Workflow)
    → find (λ x. x.id == k) s.workflows ≡ some w
    → v.id ≡ k
    → v.status ≡ WorkflowStatus.success
    → u.id ≢ t.id
    → Memᴰ u s.tasks
    → IsOver env k u (save_workflow env v (put_task t s))
saved-IsOver env k u t s w v hw id over other m =
    let s' = save_workflow env v (put_task t s) in
    let shape = save_workflow_shape env v (put_task t s) in
    let found : find (λ x. x.id == k) s'.workflows ≡ some v =
      ap (λ (r : Store). find (λ x. x.id == k) r.workflows) shape
      ∙ find-replace k v w s.workflows id hw in
    let tasks : s'.tasks ≡ replace_task t s.tasks = ap (λ (r : Store). r.tasks) shape in
    (
      (v, found, over),
      rw tasks (replace_task-keeps t u s.tasks other m),
      pause_workflow_rejects env k s' v found (ap is_in_progress over),
      λ payload. resume_workflow_rejects env k payload s' v found (inl (ap is_wait over)),
    )

-- When a task without successors succeeds, in a workflow with a template and without a parent, the workflow
-- is a success, whatever its other tasks are doing: the row of every other task is as it was, be it in
-- progress on a branch beside it, and the workflow can neither be paused nor resumed any more.
pub handle_task_success-IsOver :
    (fuel j : ℕ) (env : Env) (t u : Task) (retval : Json) (s : Store) (w : Workflow)
    (template : WorkflowTemplate) (adj : Dict (List String)) (current : String) (node : Node)
    → is_nested t.status ≡ false
    → find (λ v. v.id == t.workflow) s.workflows ≡ some w
    → w.id ≡ t.workflow
    → w.workflow_template ≡ some j
    → find (λ v. v.id == j) s.templates ≡ some template
    → t.node_id ≡ some current
    → adjacency_list (nodes_by_id template.nodes) template.connections ≡ ok adj
    → lookup current (nodes_by_id template.nodes) ≡ some node
    → next_node_ids node current retval adj template.connections ≡ ok []
    → w.parent ≡ none
    → u.id ≢ t.id
    → Memᴰ u s.tasks
    → IsOver env t.workflow u (handle_task_success (suc fuel) env t retval s).1
unfolding succeeded_task
handle_task_success-IsOver fuel j env t u retval s w template adj current node hn hw id hj ht hc ha
      hl hx hp other m =
    let ran =
      handle_task_success_ends fuel j env t retval s w template adj current node hn hw hj ht hc ha
        hl hx hp in
    rw ran (
      saved-IsOver env t.workflow u (succeeded_task env s.clock retval t) s w
        (ended_workflow s.clock current retval w) hw id refl other m)
