-- ===== src/NextNode.antt =====
-- `process_next_node` of workflow/tasks/workflows.py: it creates the task of a node whose inputs are
-- ready and runs it. `signature.apply()`, which runs the task within Celery, is a parameter.
pub mod Guards
pub mod Creates
pub mod Tests
use finmars_workflow.Common.{
  ℕ, ◌+◌, String, Bool, true, false, not, ◌&&◌, ◌||◌, Option, none, some, List, [], ◌∷◌, ◌==◌,
  str_eq, find, select, elem, if◌then◌else◌, first,
}
use finmars_workflow.Common.Dict.{Dict, lookup}
use finmars_workflow.Common.Exec.{
  Exec, Result, ok, err, key_error, pure, raise, lift, gets, need, modify, attempt, ◌>>=◌, ◌>>◌,
}
use finmars_workflow.Json.{Json, null}
use finmars_workflow.Graph.{Node, NodeKind, source_code, condition, other, Connection}
use finmars_workflow.Models.{Env, Workflow, Task, TaskStatus, Store, Context, is_wait}
use finmars_workflow.Models.Payload.{get_payload, read_column, write_column}
use finmars_workflow.Models.Tables.{get_workflow, is_of_node, add_task}
use finmars_workflow.Models.Save.{save_workflow}
use finmars_workflow.Tenancy.{set_schema_from_context}
use finmars_workflow.Engine.{are_inputs_ready}
use finmars_workflow.Success.{space_context}

-- The Celery signature of `execute_workflow_step`; its `imports` are None.
pub record Signature : Type 0 where
  pub task_id : String
  pub workflow_id : ℕ
  pub payload : Json
  pub context : Option Context
  pub previous_output : Json

-- The task's name; "data", "workflow" or "user_code" may be missing in the node.
unfoldable pub task_name : Node → NodeKind → Result String
task_name node source_code = ok "custom_code"
task_name node condition = ok "condition"
task_name node (other _) = elim node.user_code [ none ↦ err key_error | some c ↦ ok c ]

-- current_node["data"]["source_code"], for the nodes that hold code
unfoldable pub task_source : Node → NodeKind → Result (Option String)
task_source node (other _) = ok none
task_source node _ = elim node.source [ none ↦ err key_error | some c ↦ ok (some c) ]

-- The source of the first connection into an input of the node.
unfoldable pub enters_by : String → String → Connection → Bool
enters_by node input c = str_eq c.target node && str_eq c.target_input input

unfoldable pub source_of : String → String → List Connection → Option String
unfolding enters_by
source_of node input cs = elim (find (enters_by node input) cs) [
  | none ↦ none
  | some c ↦ some c.source
]

-- Task.objects.filter(workflow=..., node_id=...).order_by("-created_at").first()
abbrev pub newest_task : ℕ → String → List Task → Option Task
newest_task w n ts = find (is_of_node w (some n)) ts

-- The result of the newest task of a node, or the default where there is no node or no task; a node
-- id "" is false, and a result that is no JSON raises.
unfoldable pub result_of_node : Env → ℕ → Json → Option String → Exec Store Json
result_of_node env w d none s = (ok d, s)
result_of_node env w d (some n) s =
    if str_eq n "" then (ok d, s) else elim (newest_task w n s.tasks) [
      | none ↦ (ok d, s)
      | some t ↦ (read_column env.codec t.result_data, s)
    ]

-- if input in current_node["inputs"]: the output of the node that is connected to it
unfoldable pub input_value :
    Env → ℕ → Node → String → String → List Connection → Json → Exec Store Json
unfolding source_of result_of_node
input_value env w node current input cs d =
    if elem input node.inputs then result_of_node env w d (source_of current input cs) else pure d

-- uuid()
unfoldable pub draw : Env → Exec Store String
draw env s = (ok (env.uuid s.drawn), record s { drawn = s.drawn + 1 })

-- Task(...) with its default columns
abbrev pub new_task : ℕ → Option String → String → String → Option String → Option String → ℕ → Task
new_task w node task_id name source payload k = record {
  id = k;
  workflow = w;
  node_id = node;
  celery_task_id = some task_id;
  name = some name;
  source_code = source;
  status = TaskStatus.init;
  worker_name = none;
  payload_data = payload;
  result_data = none;
  progress_data = none;
  previous_data = none;
  log = none;
  error_message = none;
  is_hook = false;
  finished_at = none;
}

module _ (env : Env) (apply : Signature → Exec Store Unit) where
  -- The part behind the guards.
  unfoldable pub run_node : Workflow → Node → String → List Connection → Exec Store Unit
  unfolding task_name task_source
  run_node w node current cs = do
    name ← lift (task_name node node.kind)
    previous ← input_value env w.id node current "in" cs null
    payload ← input_value env w.id node current "payload_input" cs (get_payload env.codec w)
    task_id ← draw env
    source ← lift (task_source node node.kind)
    modify (
        add_task
          (new_task w.id (some current) task_id name source (write_column env.codec payload)))
    context ← gets (λ s. space_context s.space)
    apply (record {
      task_id = task_id;
      workflow_id = w.id;
      payload = payload;
      context = context;
      previous_output = previous;
    })

  -- A paused workflow keeps the node for `resume_workflow`.
  unfoldable pub guarded_node : Workflow → Node → String → List Connection → Exec Store Unit
  guarded_node w node current cs s =
      if is_wait w.status
      then (ok tt, save_workflow env (record w { current_node_id = some current }) s)
      else if are_inputs_ready w.id current cs s.tasks
      then run_node w node current cs s
      else (ok tt, s)

  unfoldable pub process_next_node :
      String → ℕ → Dict Node → List Connection → Option Context → Exec Store Unit
  process_next_node current k nodes cs context = do
    set_schema_from_context context
    attempt
        (do
          w ← get_workflow k
          node ← need key_error (lookup current nodes)
          guarded_node w node current cs)
        (λ _. pure tt)
