-- ===== src/Builder/Tests.antt =====
-- The theorems on the builder at small configurations.
use finmars_workflow.Common.{◌≡◌, refl, false, none, some, List, [], ◌∷◌}
use finmars_workflow.Common.Exec.{Result, err, exception}
use finmars_workflow.Json.{null, str, obj, end}
use finmars_workflow.Models.{Store, Workflow, WorkflowStatus}
use finmars_workflow.Models.Tables.{add_task}
use finmars_workflow.Models.Save.{save_workflow}
use finmars_workflow.System.{Config, single, group}
use finmars_workflow.Builder.{
  StepSignature, Link, step_link, group_link, start_link, end_link, moved, Queues, Plan, Progress,
  Canvas, planned_task, parse_flat_tasks, build, run,
}
use finmars_workflow.Builder.Rows.{
  canvas_ids, row_ids, put_before, parse_flat_tasks-rows, parse_flat_tasks_any_type,
}
use finmars_workflow.Builder.Chain.{IsFramed, build-IsFramed, run_refused}
use finmars_workflow.Fixtures.{test_env, workflow_in, store_with, main_context}

-- No tasks and no hooks.
abbrev small : Config
small = record {
  queue = none;
  tasks = none;
  hooks = none;
  imports = none;
  is_manager = none;
  version = none;
}

abbrev fresh : Progress
fresh = record { store = store_with WorkflowStatus.init []; previous = some [] }

abbrev small_plan : Plan
small_plan = record {
  workflow = workflow_in WorkflowStatus.init;
  queues = record { default = "workflow"; customs = end };
  imports = null;
}

abbrev load_link : Link
load_link = step_link (record {
  task_id = "uuid";
  workflow_id = 1;
  payload = obj end;
  context = main_context;
  imports = null;
  queue = str "workflow";
})

abbrev loaded : Progress
loaded = record {
  store =
      add_task (planned_task test_env small_plan "uuid" "load" false (some []))
        (record (store_with WorkflowStatus.init []) { drawn = 1 });
  previous = some ("uuid" ∷ []);
}

parse_flat_tasks-rows_example :
    row_ids loaded ≡ put_before (canvas_ids (load_link ∷ [])) (row_ids fresh)
unfolding parse_flat_tasks finmars_workflow.Builder.parse_step finmars_workflow.Builder.new_task
    finmars_workflow.Models.Payload.get_payload
parse_flat_tasks-rows_example =
    parse_flat_tasks-rows test_env small_plan false (single "load" ∷ []) fresh loaded
      (load_link ∷ []) refl

parse_flat_tasks_any_type_example :
    parse_flat_tasks test_env small_plan false
      (group (some "group") (some ("left" ∷ [])) ∷ [])
      fresh
    ≡ parse_flat_tasks test_env small_plan false
        (group (some "chord") (some ("left" ∷ [])) ∷ [])
        fresh
parse_flat_tasks_any_type_example =
    parse_flat_tasks_any_type test_env small_plan false "group" "chord" (some ("left" ∷ [])) []
      fresh

abbrev bare_chain : List Link
bare_chain = start_link 1 main_context "workflow" ∷ end_link 1 main_context "workflow" ∷ []

build-IsFramed_example : IsFramed 1 (small_plan, bare_chain)
unfolding build finmars_workflow.Builder.parse_queues parse_flat_tasks
    finmars_workflow.Builder.before_hook
build-IsFramed_example =
    build-IsFramed test_env (workflow_in WorkflowStatus.init) small fresh fresh
      (small_plan, bare_chain) refl

abbrev refuses : Canvas → Result {0} Unit
refuses _ = err (exception "refused")

abbrev drawn_once : Progress
drawn_once = record {
  store = record (store_with WorkflowStatus.init []) { drawn = 1 };
  previous = some [];
}

run_refused_example : run test_env refuses (workflow_in WorkflowStatus.init) small fresh ≡ (
  err (exception "refused"),
  record drawn_once {
    store = save_workflow test_env (workflow_in WorkflowStatus.error) drawn_once.store;
  },
)
unfolding build finmars_workflow.Builder.parse_queues parse_flat_tasks
    finmars_workflow.Builder.before_hook finmars_workflow.Builder.build_hooks
run_refused_example =
    run_refused test_env refuses (workflow_in WorkflowStatus.init) small fresh fresh drawn_once
      small_plan bare_chain [] [] (exception "refused") refl refl refl
