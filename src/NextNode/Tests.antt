-- ===== src/NextNode/Tests.antt =====
-- The theorems on `process_next_node` at the diamond; the step that is run does nothing.
use mathlib.Core.List.{Memᴰ}
use finmars_workflow.Common.{ℕ, String, ◌≡◌, refl, true, false, none, some, List, [], ◌∷◌, arith}
use finmars_workflow.Common.Exec.{Exec, ok, pure, attempt}
use finmars_workflow.Json.{obj, num, end}
use finmars_workflow.Models.{Store, WorkflowStatus, TaskStatus}
use finmars_workflow.Models.Save.{save_workflow}
use finmars_workflow.Engine.{are_inputs_ready}
use finmars_workflow.NextNode.{Signature, process_next_node}
use finmars_workflow.NextNode.Guards.{
  process_next_node_waits, process_next_node_not_ready, process_next_node_swallows,
}
use finmars_workflow.NextNode.Creates.{
  created, signature_of, process_next_node_creates, process_next_node_twice_blocks,
}
use finmars_workflow.Fixtures.{
  test_env, diamond_dict, diamond_wires, node_at, wire, workflow_in, store_with, before_join,
  after_join, main_context,
}

abbrev idle_step : Signature → Exec Store Unit
idle_step _ = pure tt

abbrev paused : Store
paused = store_with WorkflowStatus.wait before_join

abbrev half_done : Store
half_done = store_with WorkflowStatus.progress []

abbrev joined : Store
joined = store_with WorkflowStatus.progress before_join

process_next_node_waits_example :
    process_next_node test_env idle_step "d" 1 diamond_dict diamond_wires main_context paused ≡ (
      ok tt,
      save_workflow test_env
          (record (workflow_in WorkflowStatus.wait) { current_node_id = some "d" })
          paused,
    )
unfolding finmars_workflow.Tenancy.set_schema_from_context
    finmars_workflow.Models.Tables.get_workflow finmars_workflow.Common.Dict.lookup
process_next_node_waits_example =
    process_next_node_waits test_env idle_step "d" 1 diamond_dict diamond_wires main_context paused
      paused (workflow_in WorkflowStatus.wait) (node_at "d") refl refl refl refl

process_next_node_not_ready_example :
    process_next_node test_env idle_step "d" 1 diamond_dict diamond_wires main_context half_done
    ≡ (ok tt, half_done)
unfolding finmars_workflow.Tenancy.set_schema_from_context
    finmars_workflow.Models.Tables.get_workflow finmars_workflow.Common.Dict.lookup are_inputs_ready
process_next_node_not_ready_example =
    process_next_node_not_ready test_env idle_step "d" 1 diamond_dict diamond_wires main_context
      half_done half_done (workflow_in WorkflowStatus.progress) (node_at "d") refl refl refl refl
      refl

process_next_node_swallows_example :
    (process_next_node test_env idle_step "no node" 1 diamond_dict diamond_wires main_context
      joined).0
    ≡ ok tt
unfolding finmars_workflow.Tenancy.set_schema_from_context
process_next_node_swallows_example =
    process_next_node_swallows test_env idle_step "no node" 1 diamond_dict diamond_wires
      main_context joined joined refl

process_next_node_creates_example :
    process_next_node test_env idle_step "d" 1 diamond_dict diamond_wires main_context joined
    ≡ attempt
        (idle_step
          (signature_of test_env (workflow_in WorkflowStatus.progress) (obj end) (num 1) joined))
        (λ _. pure tt)
        (created test_env (workflow_in WorkflowStatus.progress) "d" "code" none (obj end) joined)
unfolding finmars_workflow.Tenancy.set_schema_from_context
    finmars_workflow.Models.Tables.get_workflow finmars_workflow.Common.Dict.lookup are_inputs_ready
    finmars_workflow.NextNode.task_name finmars_workflow.NextNode.task_source
    finmars_workflow.NextNode.input_value finmars_workflow.Models.Payload.read_column
    finmars_workflow.Models.Payload.get_payload
process_next_node_creates_example =
    process_next_node_creates test_env idle_step "d" 1 diamond_dict diamond_wires main_context
      joined joined (workflow_in WorkflowStatus.progress) (node_at "d") "code" none (num 1)
      (obj end) refl refl refl refl refl refl refl refl refl

abbrev run_once : Store
run_once = store_with WorkflowStatus.progress after_join

-- "d" is handed over twice, by "b" and by "c": the second time it has a task already.
process_next_node_twice_blocks_example :
    are_inputs_ready 1 "e" diamond_wires
      (process_next_node test_env idle_step "d" 1 diamond_dict diamond_wires main_context
        run_once).1.tasks
    ≡ false
unfolding finmars_workflow.Tenancy.set_schema_from_context
    finmars_workflow.Models.Tables.get_workflow finmars_workflow.Common.Dict.lookup are_inputs_ready
    finmars_workflow.NextNode.task_name finmars_workflow.NextNode.task_source
    finmars_workflow.NextNode.input_value finmars_workflow.Models.Payload.read_column
    finmars_workflow.Models.Payload.get_payload
process_next_node_twice_blocks_example =
    process_next_node_twice_blocks test_env idle_step "d" 1 diamond_dict diamond_wires main_context
      run_once run_once (workflow_in WorkflowStatus.progress) (node_at "d") "code" none (num 1)
      (obj end) (wire "d" "e") (λ _ _ h. h) refl refl refl refl refl refl refl refl refl
      (omega arith) (Memᴰ.tail (Memᴰ.tail (Memᴰ.tail (Memᴰ.tail (Memᴰ.head refl))))) refl
