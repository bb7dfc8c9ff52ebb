-- ===== src/Runs/Updates.antt =====
-- The operations that only update rows: a finished task, a failed one, canceling, and the callbacks.
pub mod Finished
pub mod Failed
pub mod Others
use finmars_workflow.Common.{
  ℕ, String, ◌≡◌, refl, sym, ap, ◌∙◌, Option, none, some, List, arith, find, ◌==◌,
}
use finmars_workflow.Common.Exec.{Exec, Result, ok, err}
use finmars_workflow.Graph.{Connection}
use finmars_workflow.Models.{Env, Workflow, WorkflowTemplate, Task, Store, Context}
use finmars_workflow.Models.Tables.{
  get_workflow, get_template, get_task_of_node, get_celery_task, get_task, is_of_node,
  has_celery_id, get_one,
}
use finmars_workflow.Models.Save.{save_workflow, save_workflow_shape}
use finmars_workflow.Tenancy.{set_schema_from_context, set_search_path}
use finmars_workflow.Runs.Keys.{
  Leads, Leads-same, Leads-refl, Stands, key_of, keys_of, IsSound, get_one-Stands, find-Stands,
}

module _ (w : ℕ) (cs : List Connection) where
  pub save_workflow-Leads :
      (env : Env) (v : Workflow) (s : Store) → Leads w cs s (save_workflow env v s)
  save_workflow-Leads env v s =
      Leads-same w cs s (save_workflow env v s)
        (ap (λ (r : Store). r.tasks) (save_workflow_shape env v s))
        (ap (λ (r : Store). r.next_task) (save_workflow_shape env v s))

  pub get_workflow-Leads : (k : ℕ) (s : Store) → Leads w cs s (get_workflow k s).1
  unfolding get_workflow
  get_workflow-Leads k s = Leads-same w cs s _ (ground arith) (ground arith)

  pub get_template-Leads : (k : ℕ) (s : Store) → Leads w cs s (get_template k s).1
  unfolding get_template
  get_template-Leads k s = Leads-same w cs s _ (ground arith) (ground arith)

  pub get_task_of_node-Leads :
      (k : ℕ) (n : Option String) (s : Store) → Leads w cs s (get_task_of_node k n s).1
  unfolding get_task_of_node
  get_task_of_node-Leads k n s = Leads-refl

  pub get_celery_task-Leads : (k : Option String) (s : Store) → Leads w cs s (get_celery_task k s).1
  unfolding get_celery_task
  get_celery_task-Leads k s = Leads-refl

  pub get_task-Leads : (k : ℕ) (s : Store) → Leads w cs s (get_task k s).1
  unfolding get_task
  get_task-Leads k s = Leads-same w cs s _ (ground arith) (ground arith)

  pub set_schema-Leads :
      (context : Option Context) (s : Store) → Leads w cs s (set_schema_from_context context s).1
  unfolding set_schema_from_context
  set_schema-Leads context s = Leads-same w cs s _ (ground arith) (ground arith)

pub get_workflow_same :
    (k : ℕ) (s s' : Store) (v : Workflow) → get_workflow k s ≡ (ok v, s') → s' ≡ s
unfolding get_workflow
get_workflow_same k s s' v e = ground arith

-- What the queries find stands in the store that they leave.
pub node_task-Stands :
    (k : ℕ) (n : Option String) (s s' : Store) (t : Task)
    → IsSound s
    → get_task_of_node k n s ≡ (ok t, s')
    → Stands (key_of t) (keys_of s'.tasks)
unfolding get_task_of_node
node_task-Stands k n s s' t h e =
    let same : s' ≡ s = ground arith in
    rw same (get_one-Stands (is_of_node k n) s t h (ground arith))

pub celery_task-Stands :
    (k : Option String) (s s' : Store) (t : Task)
    → IsSound s
    → get_celery_task k s ≡ (ok t, s')
    → Stands (key_of t) (keys_of s'.tasks)
unfolding get_celery_task
celery_task-Stands k s s' t h e =
    let same : s' ≡ s = ground arith in
    rw same (get_one-Stands (has_celery_id k) s t h (ground arith))

pub task-Stands :
    (k : ℕ) (s s' : Store) (t : Task)
    → IsSound s
    → get_task k s ≡ (ok t, s')
    → Stands (key_of t) (keys_of s'.tasks)
unfolding get_task
task-Stands k s s' t h e =
    let same : s' ≡ s = ground arith in rw same (find-Stands (λ u. u.id == k) s t h (ground arith))
