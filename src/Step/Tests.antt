-- ===== src/Step/Tests.antt =====
-- The theorems on a step that launches a nested workflow, at the diamond.
use finmars_workflow.Common.{
  ℕ, ◌+◌, ◌<◌, String, ◌≡◌, refl, true, false, Option, none, some, List, [], ◌∷◌, arith, All, inl,
}
use finmars_workflow.Common.Dict.{Dict}
use finmars_workflow.Common.Exec.{Result, ok, err, does_not_exist, pure}
use finmars_workflow.Json.{null, str, num}
use finmars_workflow.Models.{
  Store, Context, User, Workflow, WorkflowStatus, Task, TaskStatus, execute_workflow_v2,
}
use finmars_workflow.Models.Tables.{put_task}
use finmars_workflow.Engine.{send}
use finmars_workflow.System.{Config}
use finmars_workflow.Launch.{World, add_workflow}
use finmars_workflow.Step.{
  Paths, Outside, nested_workflow, nest, execute_workflow_step, without_task,
}
use finmars_workflow.Step.Nested.{execute_workflow_step_nests, nest-IsGrown, IsGrown}
use finmars_workflow.Fixtures.{test_env, diamond, workflow_in, task_at, store_with, main_context}

without_task_test : without_task "com.finmars.load.task" ≡ "com.finmars.load"
unfolding without_task
without_task_test = refl

without_task_short : without_task "task" ≡ "task"
unfolding without_task
without_task_short = refl

abbrev graph_config : Config
graph_config = record {
  queue = none;
  tasks = none;
  hooks = none;
  imports = none;
  is_manager = none;
  version = some (str "2");
}

abbrev registry : Dict Config
registry = ("space.com.finmars.diamond", graph_config) ∷ []

abbrev no_reload : String → Result (Dict Config)
no_reload _ = err does_not_exist

abbrev plain_paths : Paths
plain_paths = record { slashed = λ p. p; resolve = λ p q. q; rsplit = λ p. none }

abbrev nothing_outside : Outside
nothing_outside = record {
  paths = plain_paths;
  int = λ _. ok 2;
  sync = λ _ _. pure tt;
  import_user_tasks = λ _. pure none;
  exec_source = λ _. pure none;
}

abbrev nesting_task : Task
nesting_task = record (task_at 1 "a" TaskStatus.progress) { name = some "com.finmars.diamond" }

abbrev running : World
running = record {
  store = store_with WorkflowStatus.progress (nesting_task ∷ []);
  configs = registry;
}

execute_workflow_step_nests_example :
    execute_workflow_step test_env no_reload nothing_outside nesting_task
      (num 1)
      null
      main_context
      running
    ≡ (
      ok null,
      record {
        store =
            put_task
              (record nesting_task { status = TaskStatus.nested_progress })
              (send (execute_workflow_v2 2 main_context) (
                add_workflow
                  (nested_workflow test_env
                    (workflow_in WorkflowStatus.progress)
                    nesting_task
                    (without_task "com.finmars.diamond")
                    (num 1)
                    7)
                  running.store));
        configs = registry;
      },
    )
unfolding finmars_workflow.Tenancy.set_schema_from_context
    finmars_workflow.Models.Tables.get_workflow finmars_workflow.System.get_synced
    finmars_workflow.Common.Dict.lookup without_task finmars_workflow.Step.is_two
    finmars_workflow.Models.Tables.get_one
execute_workflow_step_nests_example =
    execute_workflow_step_nests test_env no_reload nothing_outside nesting_task (num 1) null
      (some "realm") running running.store (workflow_in WorkflowStatus.progress)
      "com.finmars.diamond" "space" graph_config registry diamond refl refl refl refl refl refl refl

abbrev here : Context
here = record { realm_code = some "realm"; space_code = some "space" }

nest-IsGrown_example :
    IsGrown
      (nest test_env no_reload nothing_outside
        (workflow_in WorkflowStatus.progress)
        nesting_task
        "com.finmars.diamond"
        (num 1)
        here
        running.store).1
nest-IsGrown_example =
    nest-IsGrown test_env no_reload nothing_outside (workflow_in WorkflowStatus.progress)
      nesting_task "com.finmars.diamond" (num 1) here running.store ((omega arith, tt), (tt, tt))
      (omega arith)
