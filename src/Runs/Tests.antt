-- ===== src/Runs/Tests.antt =====
-- The theorems on executions at the diamond; the steps that are run do nothing.
use mathlib.Core.List.{Memᴰ}
use finmars_workflow.Common.{
  String, ℕ, ◌≡◌, refl, true, false, none, some, List, [], ◌∷◌, arith, length,
}
use finmars_workflow.Common.Exec.{Exec, pure}
use finmars_workflow.Json.{num}
use finmars_workflow.Models.{Store, WorkflowStatus, TaskStatus}
use finmars_workflow.NextNode.{Signature, process_next_node}
use finmars_workflow.Callbacks.{on_success}
use finmars_workflow.Runs.{view, nodes_of, Moves}
use finmars_workflow.Runs.Keys.{IsSound}
use finmars_workflow.Runs.Order.{IsOrdered, count}
use finmars_workflow.Runs.Engine.{
  Run, rests, follows, delivers, succeeds, Run-Moves, Run-IsOrdered, Run-blocked,
}
use finmars_workflow.Fixtures.{
  test_env, diamond_dict, diamond_wires, wire, task_at, store_with, main_context,
}

abbrev idle_step : Signature → Exec Store Unit
idle_step _ = pure tt

-- No task yet.
abbrev opened : Store
opened = store_with WorkflowStatus.progress []

abbrev deliver : String → Store → Store
deliver n s = (process_next_node test_env idle_step n 1 diamond_dict diamond_wires main_context s).1

abbrev finish : Store → Store
finish s = (on_success 2 test_env (num 1) "uuid" main_context s).1

delivered : (n : String) (s : Store) → Run test_env 1 diamond_wires s (deliver n s)
delivered n s =
    delivers idle_step (λ _ r. rests r r refl refl) n 1 diamond_dict diamond_wires main_context s
      (λ _. refl)

-- "a" is run and succeeds, and "b" is run.
abbrev two_nodes : Store
two_nodes = deliver "b" (finish (deliver "a" opened))

two_nodes-Run : Run test_env 1 diamond_wires opened two_nodes
two_nodes-Run = follows opened (deliver "a" opened) two_nodes (delivered "a" opened) (
    follows (deliver "a" opened) (finish (deliver "a" opened)) two_nodes
      (succeeds 2 (num 1) "uuid" main_context (deliver "a" opened))
      (delivered "b" (finish (deliver "a" opened))))

Run-Moves_example :
    Moves diamond_wires (view 1 opened.tasks) (view 1 two_nodes.tasks) × IsSound two_nodes
Run-Moves_example = Run-Moves test_env 1 diamond_wires opened two_nodes (tt, tt) two_nodes-Run

Run-IsOrdered_example : IsOrdered diamond_wires (nodes_of (view 1 two_nodes.tasks))
Run-IsOrdered_example =
    Run-IsOrdered test_env 1 diamond_wires opened two_nodes (tt, tt) refl two_nodes-Run

-- The first node does get its task.
first_task : nodes_of (view 1 (deliver "a" opened).tasks) ≡ some "a" ∷ []
unfolding process_next_node finmars_workflow.Tenancy.set_schema_from_context
    finmars_workflow.Models.Tables.get_workflow finmars_workflow.Common.Dict.lookup
    finmars_workflow.NextNode.guarded_node finmars_workflow.Engine.are_inputs_ready
    finmars_workflow.NextNode.run_node finmars_workflow.NextNode.input_value
    finmars_workflow.NextNode.draw
first_task = refl

-- "d" has been run twice.
abbrev doubled : Store
doubled =
    store_with WorkflowStatus.progress
      (task_at 5 "d" TaskStatus.success ∷ task_at 4 "d" TaskStatus.success ∷ [])

doubled-IsSound : IsSound doubled
doubled-IsSound = (
  (
    ((λ _. refl), ((λ h. absurd (omega arith)), tt)),
    (((λ h. absurd (omega arith)), ((λ _. refl), tt)), tt),
  ),
  (omega arith, (omega arith, tt)),
)

Run-blocked_example : count "e" (nodes_of (view 1 (deliver "e" doubled).tasks)) ≡ 0
Run-blocked_example =
    Run-blocked test_env 1 diamond_wires doubled (deliver "e" doubled) (wire "d" "e")
      doubled-IsSound (Memᴰ.tail (Memᴰ.tail (Memᴰ.tail (Memᴰ.tail (Memᴰ.head refl))))) (omega arith)
      (delivered "e" doubled)
