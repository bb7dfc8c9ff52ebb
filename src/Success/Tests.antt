-- ===== src/Success/Tests.antt =====
-- The theorems on finished tasks at the diamond.
use finmars_workflow.Common.{
  ℕ, String, ◌≡◌, ◌≢◌, refl, true, none, some, List, [], ◌∷◌, ◌++◌, map, arith, select,
}
use finmars_workflow.Common.Dict.{has}
use finmars_workflow.Common.Exec.{ok, err, out_of_fuel}
use finmars_workflow.Json.{num}
use finmars_workflow.Graph.{nodes_by_id}
use finmars_workflow.Models.{Store, WorkflowStatus, Task, TaskStatus, process_next_node}
use finmars_workflow.Models.Tables.{put_task}
use finmars_workflow.Models.Save.{save_workflow}
use finmars_workflow.Success.{handle_task_success, succeeded_task, space_context}
use finmars_workflow.Success.Next.{
  handle_task_success_sends, handle_task_success_ends, ended_workflow,
}
use finmars_workflow.Success.Termination.{handle_task_success_terminates}
use finmars_workflow.Fixtures.{
  test_env, diamond, diamond_nodes, diamond_wires, diamond_list, node_at, task_at, workflow_in,
  store_with, main_context,
}

abbrev opening_task : Task
opening_task = task_at 1 "a" TaskStatus.progress

abbrev closing_task : Task
closing_task = task_at 1 "e" TaskStatus.progress

abbrev at_start : Store
at_start = store_with WorkflowStatus.progress (opening_task ∷ [])

abbrev at_end : Store
at_end = store_with WorkflowStatus.progress (closing_task ∷ [])

handle_task_success_sends_example : handle_task_success 1 test_env opening_task (num 1) at_start ≡ (
  ok tt,
  record (put_task (succeeded_task test_env 100 (num 1) opening_task) at_start) {
    outbox =
        []
        ++ map
            (λ m.
              process_next_node m 1
                (nodes_by_id diamond_nodes)
                diamond_list
                diamond_wires
                main_context)
            (select (λ m. has m (nodes_by_id diamond_nodes)) ("b" ∷ "c" ∷ []));
  },
)
unfolding finmars_workflow.Graph.adjacency_list finmars_workflow.Common.Dict.lookup nodes_by_id
    finmars_workflow.Common.Dict.insert finmars_workflow.Success.next_node_ids
handle_task_success_sends_example =
    handle_task_success_sends 0 7 test_env opening_task (num 1) at_start
      (workflow_in WorkflowStatus.progress) diamond diamond_list "a" "b" (node_at "a") ("c" ∷ [])
      refl refl refl refl refl refl refl refl

handle_task_success_ends_example : handle_task_success 1 test_env closing_task (num 1) at_end ≡ (
  ok tt,
  save_workflow test_env
      (ended_workflow 100 "e" (num 1) (workflow_in WorkflowStatus.progress))
      (put_task (succeeded_task test_env 100 (num 1) closing_task) at_end),
)
unfolding finmars_workflow.Graph.adjacency_list finmars_workflow.Common.Dict.lookup nodes_by_id
    finmars_workflow.Common.Dict.insert finmars_workflow.Success.next_node_ids
handle_task_success_ends_example =
    handle_task_success_ends 0 7 test_env closing_task (num 1) at_end
      (workflow_in WorkflowStatus.progress) diamond diamond_list "e" (node_at "e") refl refl refl
      refl refl refl refl refl refl

handle_task_success_terminates_example :
    (handle_task_success 2 test_env closing_task (num 1) at_end).0 ≢ err out_of_fuel
handle_task_success_terminates_example =
    handle_task_success_terminates 2 test_env closing_task (num 1) at_end (tt, tt) (omega arith)
