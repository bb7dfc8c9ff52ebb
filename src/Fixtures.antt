-- ===== src/Fixtures.antt =====
-- Concrete data that the tests share: a workflow whose graph is a diamond with a tail, and a store
-- in which it is half run.
use finmars_workflow.Common.{ℕ, String, false, Option, none, some, List, [], ◌∷◌}
use finmars_workflow.Common.Dict.{Dict}
use finmars_workflow.Json.{num}
use finmars_workflow.Json.Codec.{Codec}
use finmars_workflow.Graph.{Node, other, Connection}
use finmars_workflow.Models.{
  Env, Workflow, WorkflowTemplate, WorkflowStatus, Task, TaskStatus, Store, Context,
}

abbrev pub one_codec : Codec
one_codec = record { dumps = λ _. "1"; loads = λ _. some (num 1) }

abbrev pub test_env : Env
test_env = record { codec = one_codec; uuid = λ _. "uuid" }

abbrev pub node_at : String → Node
node_at k = record {
  id = k;
  name = k;
  kind = other "workflow";
  user_code = some "code";
  source = none;
  inputs = "in" ∷ [];
}

abbrev pub wire : String → String → Connection
wire j k = record { source = j; source_output = "out"; target = k; target_input = "in" }

abbrev pub diamond_nodes : List Node
diamond_nodes = node_at "a" ∷ node_at "b" ∷ node_at "c" ∷ node_at "d" ∷ node_at "e" ∷ []

abbrev pub diamond_wires : List Connection
diamond_wires = wire "a" "b" ∷ wire "a" "c" ∷ wire "b" "d" ∷ wire "c" "d" ∷ wire "d" "e" ∷ []

abbrev pub diamond_list : Dict (List String)
diamond_list =
    ("a", "b" ∷ "c" ∷ []) ∷ ("b", "d" ∷ []) ∷ ("c", "d" ∷ []) ∷ ("d", "e" ∷ []) ∷ ("e", []) ∷ []

abbrev pub diamond_dict : Dict Node
diamond_dict =
    ("a", node_at "a")
    ∷ ("b", node_at "b")
    ∷ ("c", node_at "c")
    ∷ ("d", node_at "d")
    ∷ ("e", node_at "e")
    ∷ []

abbrev pub diamond : WorkflowTemplate
diamond = record {
  id = 7;
  user_code = some "com.finmars.diamond";
  nodes = diamond_nodes;
  connections = diamond_wires;
}

abbrev pub workflow_in : WorkflowStatus → Workflow
workflow_in status = record {
  id = 1;
  workflow_template = some 7;
  current_node_id = none;
  last_task_output = none;
  node_id = none;
  user_code = some "com.finmars.diamond";
  status = status;
  payload_data = none;
  periodic = false;
  is_manager = false;
  platform_task_id = some 5;
  owner = 1;
  crontab = none;
  finished_at = none;
  parent = none;
}

abbrev pub task_at : ℕ → String → TaskStatus → Task
task_at k node status = record {
  id = k;
  workflow = 1;
  node_id = some node;
  celery_task_id = some "celery";
  name = some "code";
  source_code = none;
  status = status;
  worker_name = none;
  payload_data = none;
  result_data = some "1";
  progress_data = none;
  previous_data = none;
  log = none;
  error_message = none;
  is_hook = false;
  finished_at = none;
}

abbrev pub main_context : Option Context
main_context = some (record { realm_code = some "realm"; space_code = some "space" })

abbrev pub store_with : WorkflowStatus → List Task → Store
store_with status tasks = record {
  space = record { realm_code = some "realm"; space_code = "space" };
  templates = diamond ∷ [];
  workflows = workflow_in status ∷ [];
  tasks = tasks;
  next_workflow = 2;
  next_task = 9;
  schemas = "public" ∷ "space" ∷ [];
  search_path = "space";
  clock = 100;
  drawn = 0;
  outbox = [];
  revoked = [];
  updates = [];
  users = record { id = 1; username = "finmars_bot" } ∷ [];
  alerts = [];
}

-- The tasks of "a", "b" and "c" have succeeded, newest first.
abbrev pub before_join : List Task
before_join =
    task_at 3 "c" TaskStatus.success
    ∷ task_at 2 "b" TaskStatus.success
    ∷ task_at 1 "a" TaskStatus.success
    ∷ []

-- And so has that of "d".
abbrev pub after_join : List Task
after_join = task_at 4 "d" TaskStatus.success ∷ before_join
