-- ===== src/Launch/Tests.antt =====
-- The theorems on launching at the diamond.
use finmars_workflow.Common.{
  ℕ, ◌+◌, ◌<◌, String, ◌≡◌, refl, true, false, Option, none, some, List, [], ◌∷◌, arith, All, inl,
}
use finmars_workflow.Common.Dict.{Dict}
use finmars_workflow.Common.Exec.{Error, Result, ok, err, does_not_exist}
use finmars_workflow.Json.{str}
use finmars_workflow.Models.{
  Store, Context, User, Workflow, WorkflowStatus, Task, TaskStatus, execute_workflow_v2,
}
use finmars_workflow.Models.Tables.{put_task}
use finmars_workflow.Engine.{send}
use finmars_workflow.System.{Config}
use finmars_workflow.Builder.{Canvas}
use finmars_workflow.Launch.{
  World, Order, add_workflow, ordered, order_context, execute_workflow, run_new_workflow,
  after_point,
}
use finmars_workflow.Launch.Rows.{execute_workflow_launches, run_new_workflow_refuses}
use finmars_workflow.Fixtures.{test_env, diamond, workflow_in, store_with}

after_point_test : after_point "space.com.finmars" ≡ "com.finmars"
unfolding after_point
after_point_test = refl

abbrev graph_config : Config
graph_config = record {
  queue = none;
  tasks = none;
  hooks = none;
  imports = none;
  is_manager = none;
  version = some (str "2");
}

abbrev registry : Dict Config
registry = ("space.com.finmars.diamond", graph_config) ∷ []

abbrev quiet : World
quiet = record { store = store_with WorkflowStatus.progress []; configs = registry }

abbrev no_reload : String → Result (Dict Config)
no_reload _ = err does_not_exist

abbrev accepts : Canvas → Result {0} Unit
accepts _ = ok tt

abbrev bot_order : Order
bot_order = record {
  username = "finmars_bot";
  user_code = "space.com.finmars.diamond";
  payload = none;
  realm_code = some "realm";
  space_code = some "space";
  platform_task_id = none;
  crontab = none;
}

abbrev bot : User
bot = record { id = 1; username = "finmars_bot" }

execute_workflow_launches_example : execute_workflow test_env no_reload accepts bot_order quiet ≡ (
  ok (ordered test_env bot_order 1 (some 7) graph_config 2),
  record {
    store =
        send
          (execute_workflow_v2
            (ordered test_env bot_order 1 (some 7) graph_config 2).id
            (order_context bot_order))
          (add_workflow (ordered test_env bot_order 1 (some 7) graph_config) quiet.store);
    configs = registry;
  },
)
unfolding finmars_workflow.System.get_synced finmars_workflow.Common.Dict.lookup
    finmars_workflow.Models.Tables.get_one after_point
execute_workflow_launches_example =
    execute_workflow_launches test_env no_reload accepts bot_order quiet bot graph_config registry
      diamond refl refl refl refl refl

run_new_workflow_refuses_example :
    (e : Error) × ((run_new_workflow test_env no_reload accepts
        (workflow_in WorkflowStatus.progress)
        "com.finmars.diamond"
        none
        quiet).0
      ≡ err e)
    × ((run_new_workflow test_env no_reload accepts
          (workflow_in WorkflowStatus.progress)
          "com.finmars.diamond"
          none
          quiet).1.store
        ≡ quiet.store)
run_new_workflow_refuses_example =
    run_new_workflow_refuses test_env no_reload accepts (workflow_in WorkflowStatus.progress)
      "com.finmars.diamond" none quiet (inl refl)
