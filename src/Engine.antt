-- ===== src/Engine.antt =====
-- The Celery tasks of workflow/tasks/workflows.py that open and close a workflow and launch its start
-- nodes, and `are_inputs_ready` of workflow/utils.py.
pub mod Ready
pub mod Queue
pub mod Launch
pub mod Tests
use finmars_workflow.Common.{
  ℕ, String, Bool, true, false, ◌&&◌, Option, none, some, List, [], ◌∷◌, ◌++◌, ◌==◌, str_eq, select,
  all, if◌then◌else◌, map,
}
use finmars_workflow.Common.Dict.{Dict}
use finmars_workflow.Common.Exec.{
  Exec, Result, ok, err, attribute_error, pure, raise, lift, gets, modify, for_each, ◌>>=◌, ◌>>◌,
}
use finmars_workflow.Graph.{Node, Connection, nodes_by_id, adjacency_list, start_nodes}
use finmars_workflow.Models.{
  Env, Workflow, WorkflowTemplate, WorkflowStatus, Task, TaskStatus, Store, Context, Message,
  process_next_node, is_success, is_init, is_failed,
}
use finmars_workflow.Models.Tables.{
  get_one, get_workflow, get_template, is_of_node, tasks_of, put_task,
}
use finmars_workflow.Models.Save.{save_workflow}
use finmars_workflow.Models.Cancel.{canceled_task}
use finmars_workflow.Tenancy.{set_schema_from_context}

-- The loop over the input nodes; a node with no task, or with several, is an exception and so False.
inputs_done : ℕ → List Task → List String → Bool
unfolding get_one
inputs_done w ts [] = true
inputs_done w ts (n ∷ ns) =
    let rest = inputs_done w ts ns in
    elim (get_one (is_of_node w (some n)) ts) [
      | ok t ↦ if is_success t.status then rest else false
      | err e ↦ false
    ]

unfoldable pub are_inputs_ready : ℕ → String → List Connection → List Task → Bool
unfolding inputs_done
are_inputs_ready w node cs ts =
    inputs_done w ts (map (λ c. c.source) (select (λ c. str_eq c.target node) cs))

abbrev pub send : Message → Store → Store
send m s = record s { outbox = s.outbox ++ m ∷ [] }

unfoldable pub start : Env → ℕ → Option Context → Exec Store Unit
start env k context = do
  set_schema_from_context context
  w ← get_workflow k
  modify (save_workflow env (record w { status = WorkflowStatus.progress }))

-- The half second that `end` waits first lets other workers write; here they have.
unfoldable pub end : Env → ℕ → Option Context → Exec Store Unit
end env k context = do
  set_schema_from_context context
  w ← get_workflow k
  if is_failed w.status
      then pure tt
      else modify (save_workflow env (record w { status = WorkflowStatus.success }))

unfoldable pub mark_as_canceled_init_tasks : ℕ → Option Context → Exec Store Unit
mark_as_canceled_init_tasks k context = do
  set_schema_from_context context
  tasks ← gets (λ s. select (λ t. t.workflow == k && is_init t.status) s.tasks)
  now ← gets (λ s. s.clock)
  for_each (λ t. modify (put_task (canceled_task now t))) tasks

-- workflow.workflow_template.data: no template is an AttributeError
unfoldable pub template_of : Workflow → Exec Store WorkflowTemplate
template_of w s = elim w.workflow_template [
  | none ↦ (err attribute_error, s)
  | some k ↦ get_template k s
]

unfoldable pub execute_workflow_v2 : Env → ℕ → Option Context → Exec Store Unit
execute_workflow_v2 env k context = do
  set_schema_from_context context
  w ← get_workflow k
  modify (save_workflow env (record w { status = WorkflowStatus.progress }))
  template ← template_of w
  let nodes = nodes_by_id template.nodes
  let cs = template.connections
  adj ← lift (adjacency_list nodes cs)
  for_each (λ n. modify (send (process_next_node n k nodes adj cs context))) (start_nodes nodes cs)
