-- ===== src/Success.antt =====
-- `Task.handle_task_success` of workflow/models.py: a finished task hands over to the next nodes, or
-- closes its workflow and resumes the task of the parent workflow that waits for it.
pub mod Next
pub mod Found
pub mod Termination
pub mod Tests
use finmars_workflow.Common.{
  ℕ, zero, suc, String, Bool, true, false, Option, none, some, List, [], ◌∷◌, str_eq, if◌then◌else◌,
}
use finmars_workflow.Common.Dict.{Dict, lookup}
use finmars_workflow.Common.Exec.{
  Exec, Result, ok, err, key_error, out_of_fuel, pure, raise, lift, gets, need, modify, for_each,
  ◌>>=◌, ◌>>◌,
}
use finmars_workflow.Json.{Json, str, single, truthy}
use finmars_workflow.Graph.{
  Node, NodeKind, condition, Connection, nodes_by_id, adjacency_list, get_next_node_by_condition,
}
use finmars_workflow.Models.{
  Env, Workflow, WorkflowTemplate, WorkflowStatus, Task, TaskStatus, Space, Store, Context, Message,
  process_next_node, is_nested,
}
use finmars_workflow.Models.Payload.{write_column}
use finmars_workflow.Models.Tables.{get_workflow, get_template, get_task_of_node, put_task}
use finmars_workflow.Models.Save.{save_workflow}
use finmars_workflow.Models.Cancel.{mark_task_as_finished}
use finmars_workflow.Engine.{send}

-- self.result = retval, or the message where `retval` is false
abbrev pub result_of : Json → Json
result_of retval =
    if truthy retval
    then retval
    else single "message" (str "Task finished successfully. No results returned")

unfoldable pub succeeded_task : Env → ℕ → Json → Task → Task
succeeded_task env now retval t = mark_task_as_finished now (record t {
  status = TaskStatus.success;
  result_data = write_column env.codec (result_of retval);
})

-- The context that the next nodes run in: that of the workflow's space.
abbrev pub space_context : Space → Option Context
space_context p = some (record { realm_code = p.realm_code; space_code = some p.space_code })

-- next_node_ids.append(next_node_id) where it is true
abbrev followed : Option String → List String
followed none = []
followed (some n) = if str_eq n "" then [] else n ∷ []

-- adjacency_list.get(current_node_id, [])
abbrev pub targets_in : String → Dict (List String) → List String
targets_in n adj = elim (lookup n adj) [ none ↦ [] | some ts ↦ ts ]

is_condition : NodeKind → Bool
is_condition condition = true
is_condition _ = false

unfoldable pub next_node_ids :
    Node → String → Json → Dict (List String) → List Connection → Result (List String)
unfolding is_condition
next_node_ids node current retval adj cs =
    if is_condition node.kind
    then elim (get_next_node_by_condition current retval cs) [
      | ok n ↦ ok (followed n)
      | err e ↦ err e
    ]
    else ok (targets_in current adj)

-- One round of the loop over `next_node_ids`; an id that is no node is logged and skipped.
unfoldable pub send_next :
    ℕ → Dict Node → Dict (List String) → List Connection → String → Exec Store Unit
send_next k nodes adj cs n s = elim (lookup n nodes) [
  | none ↦ (ok tt, s)
  | some _ ↦ (ok tt, send (process_next_node n k nodes adj cs (space_context s.space)) s)
]

-- The lines under `if self.workflow.parent`; `rec` is the recursive call.
unfoldable pub resume_parent :
    (Task → Json → Exec Store Unit) → Option String → Json → Option ℕ → Exec Store Unit
resume_parent rec node_id retval none = pure tt
resume_parent rec node_id retval (some p) = do
  parent ← get_workflow p
  task ← get_task_of_node parent.id node_id
  rec (record task { status = TaskStatus.progress }) retval

unfoldable pub finish_workflow :
    Env → (Task → Json → Exec Store Unit) → Workflow → Json → Exec Store Unit
unfolding resume_parent
finish_workflow env rec w retval = do
  now ← gets (λ s. s.clock)
  modify (save_workflow env (record w { status = WorkflowStatus.success; finished_at = some now }))
  resume_parent rec w.node_id retval w.parent

-- `w` has been given the output and the current node, and is saved only where the workflow ends.
unfoldable pub go_on :
    Env
    → (Task → Json → Exec Store Unit)
    → Workflow
    → WorkflowTemplate
    → String
    → Json
    → Exec Store Unit
go_on env rec w template current retval = do
  let nodes = nodes_by_id template.nodes
  let cs = template.connections
  adj ← lift (adjacency_list nodes cs)
  node ← need key_error (lookup current nodes)
  let w' = record w { last_task_output = some retval; current_node_id = some current }
  next ← lift (next_node_ids node current retval adj cs)
  elim next [
    | [] ↦ finish_workflow env rec w' retval
    | n ∷ ns ↦ for_each (send_next w.id nodes adj cs) (n ∷ ns)
  ]

-- if self.workflow.workflow_template: a workflow of version 1 has none
unfoldable pub with_template :
    Env
    → (Task → Json → Exec Store Unit)
    → Workflow
    → Json
    → Option String
    → Option ℕ
    → Exec Store Unit
with_template env rec w retval node_id none = pure tt
with_template env rec w retval node_id (some j) = do
  template ← get_template j
  current ← need key_error node_id
  go_on env rec w template current retval

unfoldable pub after_success :
    Env → (Task → Json → Exec Store Unit) → Task → Workflow → Json → Exec Store Unit
unfolding with_template
after_success env rec t w retval = with_template env rec w retval t.node_id w.workflow_template

unfoldable pub success_step : Env → (Task → Json → Exec Store Unit) → Task → Json → Exec Store Unit
success_step env rec t retval = if is_nested t.status then pure tt else do
  now ← gets (λ s. s.clock)
  modify (put_task (succeeded_task env now retval t))
  w ← get_workflow t.workflow
  after_success env rec t w retval

-- The calls go up through the parents; the first argument bounds how far.
unfoldable pub handle_task_success : ℕ → Env → Task → Json → Exec Store Unit
unfolding success_step
handle_task_success zero env t retval = raise out_of_fuel
handle_task_success (suc n) env t retval = success_step env (handle_task_success n env) t retval
