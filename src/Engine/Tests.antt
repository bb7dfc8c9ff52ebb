-- ===== src/Engine/Tests.antt =====
-- The theorems on the engine at the diamond.
use finmars_workflow.Common.{String, ◌≡◌, refl, true, false, List, [], ◌∷◌, ◌++◌, ◌↔◌, All, map}
use finmars_workflow.Common.Exec.{ok}
use finmars_workflow.Graph.{nodes_by_id, start_nodes}
use finmars_workflow.Models.{Store, WorkflowStatus, TaskStatus, process_next_node}
use finmars_workflow.Models.Save.{save_workflow}
use finmars_workflow.Engine.{are_inputs_ready, execute_workflow_v2}
use finmars_workflow.Engine.Ready.{HasSucceeded, are_inputs_ready_iff}
use finmars_workflow.Engine.Launch.{execute_workflow_v2_launches}
use finmars_workflow.Fixtures.{
  test_env, diamond, diamond_wires, diamond_nodes, diamond_list, store_with, workflow_in,
  before_join, main_context, task_at,
}

join_is_ready : are_inputs_ready 1 "d" diamond_wires before_join ≡ true
unfolding are_inputs_ready
join_is_ready = refl

join_is_not_ready :
    are_inputs_ready 1 "d" diamond_wires (task_at 4 "c" TaskStatus.success ∷ before_join) ≡ false
unfolding are_inputs_ready
join_is_not_ready = refl

are_inputs_ready_iff_example :
    (are_inputs_ready 1 "d" diamond_wires before_join ≡ true)
    ↔ All (λ c. c.target ≡ "d" → HasSucceeded 1 before_join c.source) diamond_wires
are_inputs_ready_iff_example = are_inputs_ready_iff 1 "d" diamond_wires before_join

execute_workflow_v2_launches_example :
    execute_workflow_v2 test_env 1 main_context (store_with WorkflowStatus.init []) ≡ (
      ok tt,
      record (save_workflow test_env
          (workflow_in WorkflowStatus.progress)
          (store_with WorkflowStatus.init [])) {
            outbox =
                []
                ++ map
                    (λ n.
                      process_next_node n 1
                        (nodes_by_id diamond_nodes)
                        diamond_list
                        diamond_wires
                        main_context)
                    (start_nodes (nodes_by_id diamond_nodes) diamond_wires);
          },
    )
unfolding finmars_workflow.Tenancy.set_schema_from_context
    finmars_workflow.Models.Tables.get_workflow finmars_workflow.Graph.adjacency_list
    finmars_workflow.Common.Dict.lookup nodes_by_id finmars_workflow.Common.Dict.insert
execute_workflow_v2_launches_example =
    execute_workflow_v2_launches test_env 1 7 main_context (store_with WorkflowStatus.init [])
      (store_with WorkflowStatus.init []) (workflow_in WorkflowStatus.init) diamond diamond_list
      refl refl refl refl refl
