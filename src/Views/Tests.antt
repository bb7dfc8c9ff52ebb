-- ===== src/Views/Tests.antt =====
-- The theorems on the views at the diamond.
use finmars_workflow.Common.{
  find, ◌==◌, ℕ, String, ◌≡◌, refl, true, false, ◌&&◌, none, some, List, [], ◌∷◌, All, inl, arith,
}
use finmars_workflow.Common.Exec.{Exec, ok, pure}
use finmars_workflow.Graph.{nodes_by_id}
use finmars_workflow.Models.{Store, Task, TaskStatus, Workflow, WorkflowStatus, process_next_node}
use finmars_workflow.Models.Save.{save_workflow}
use finmars_workflow.Engine.{send}
use finmars_workflow.NextNode.{Signature}
use finmars_workflow.NextNode
use finmars_workflow.Views.{
  Response, reply, message, about, is_cancelable, is_listed, bulk_cancel, resume_workflow,
}
use finmars_workflow.Views.Resume.{
  resumed, resume_workflow_rejects, resume_workflow_without_node, resume_workflow_sends,
}
use finmars_workflow.Views.Early.{IsOver, handle_task_success-IsOver}
use finmars_workflow.Success.{handle_task_success}
use finmars_workflow.Json.{null}
use mathlib.Core.List.{Memᴰ}
use finmars_workflow.Views.Bulk.{bulk_cancel_lem, unlisted}
use finmars_workflow.Views.Paused.{process_next_node_forgets}
use finmars_workflow.Fixtures.{
  test_env, diamond, diamond_nodes, diamond_dict, diamond_wires, diamond_list, node_at, workflow_in,
  store_with, task_at, before_join, main_context,
}

abbrev going : Store
going = store_with WorkflowStatus.progress before_join

abbrev waiting : Store
waiting = store_with WorkflowStatus.wait before_join

resume_workflow_rejects_example :
    (r : Response) × (resume_workflow test_env 1 none going ≡ (ok r, going)) × (r.code ≡ 400)
resume_workflow_rejects_example =
    resume_workflow_rejects test_env 1 none going (workflow_in WorkflowStatus.progress) refl
      (inl refl)

resume_workflow_without_node_example : resume_workflow test_env 1 none waiting ≡ (
  ok (reply 400 (message "No node to resume from.")),
  save_workflow test_env (workflow_in WorkflowStatus.progress) waiting,
)
resume_workflow_without_node_example =
    resume_workflow_without_node test_env 1 none waiting (workflow_in WorkflowStatus.wait) refl refl
      refl refl

-- The last node's task ends while that of "c" is in progress.
abbrev last_one : Task
last_one = task_at 2 "e" TaskStatus.progress

abbrev beside : Task
beside = task_at 1 "c" TaskStatus.progress

abbrev racing : Store
racing = store_with WorkflowStatus.progress (last_one ∷ beside ∷ [])

handle_task_success-IsOver_example :
    IsOver test_env 1 beside (handle_task_success 1 test_env last_one null racing).1
unfolding finmars_workflow.Graph.adjacency_list finmars_workflow.Common.Dict.lookup nodes_by_id
    finmars_workflow.Common.Dict.insert finmars_workflow.Success.next_node_ids
handle_task_success-IsOver_example =
    handle_task_success-IsOver 0 7 test_env last_one beside null racing
      (workflow_in WorkflowStatus.progress) diamond diamond_list "e" (node_at "e") refl refl refl
      refl refl refl refl refl refl refl (omega arith) (Memᴰ.tail (Memᴰ.head refl))

abbrev at_d : Workflow
at_d = record (workflow_in WorkflowStatus.wait) { current_node_id = some "d" }

abbrev waiting_at_d : Store
waiting_at_d = record waiting { workflows = at_d ∷ [] }

resume_workflow_sends_example : resume_workflow test_env 1 none waiting_at_d ≡ (
  ok (reply 200 (about 1 "resumed successfully.")),
  send
      (process_next_node "d" 1 (nodes_by_id diamond_nodes) diamond_list diamond_wires main_context)
      (save_workflow test_env (resumed test_env none at_d) waiting_at_d),
)
unfolding finmars_workflow.Graph.adjacency_list finmars_workflow.Common.Dict.lookup nodes_by_id
    finmars_workflow.Common.Dict.insert save_workflow
resume_workflow_sends_example =
    resume_workflow_sends test_env 1 7 none waiting_at_d at_d "d" diamond diamond_list refl refl
      refl refl refl refl refl refl

bulk_cancel_lem_example :
    All
      (λ w. (is_listed (1 ∷ []) w.id && is_cancelable w.status) ≡ false)
      (bulk_cancel test_env (some (1 ∷ [])) going).1.workflows
    × (unlisted (1 ∷ []) (bulk_cancel test_env (some (1 ∷ [])) going).1.workflows ≡ [])
bulk_cancel_lem_example = bulk_cancel_lem test_env (1 ∷ []) going

abbrev idle_step : Signature → Exec Store Unit
idle_step _ = pure tt

process_next_node_forgets_example :
    (NextNode.process_next_node test_env idle_step "c" 1 diamond_dict diamond_wires main_context
        (NextNode.process_next_node test_env idle_step "b" 1 diamond_dict diamond_wires main_context
          waiting).1
      ≡ NextNode.process_next_node test_env idle_step "c" 1 diamond_dict diamond_wires main_context
          waiting)
    × (find
          (λ v. v.id == 1)
          (NextNode.process_next_node test_env idle_step "c" 1 diamond_dict diamond_wires
            main_context
            (NextNode.process_next_node test_env idle_step "b" 1 diamond_dict diamond_wires
              main_context waiting).1).1.workflows
        ≡ some (record (workflow_in WorkflowStatus.wait) { current_node_id = some "c" }))
unfolding finmars_workflow.Tenancy.set_schema_from_context finmars_workflow.Common.Dict.lookup
process_next_node_forgets_example =
    process_next_node_forgets test_env idle_step "b" "c" 1 diamond_dict diamond_wires main_context
      waiting waiting (workflow_in WorkflowStatus.wait) (node_at "b") (node_at "c") refl refl refl
      refl refl refl
