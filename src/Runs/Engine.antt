-- ===== src/Runs/Engine.antt =====
-- The engine as a system of steps on the store, in any order, and that it implements the machine.
use mathlib.Core.List.{Memᴰ}
use finmars_workflow.Common.{[], ◌≤◌, ℕ, String, ◌≡◌, Option, List}
use finmars_workflow.Common.Dict.{Dict}
use finmars_workflow.Common.Exec.{Exec, Result}
use finmars_workflow.Json.{Json}
use finmars_workflow.Graph.{Node, Connection}
use finmars_workflow.Models.{Env, Workflow, Task, Store, Context}
use finmars_workflow.Models.Cancel.{cancel}
use finmars_workflow.Callbacks.{
  Failure, workflow_prerun, before_start, on_success, on_failure, update_progress, log,
}
use finmars_workflow.Engine.{mark_as_canceled_init_tasks}
use finmars_workflow.System.{Config}
use finmars_workflow.Step.{Outside, nest}
use finmars_workflow.NextNode.{Signature, process_next_node}
use finmars_workflow.Runs.{view, nodes_of, Moves}
use finmars_workflow.Runs.Order.{IsOrdered, Moves-IsOrdered, count, Moves-blocked}
use finmars_workflow.Runs.Keys.{Leads, Leads-trans, Leads-same, Stands, key_of, keys_of, IsSound}
use finmars_workflow.Runs.Updates.Finished.{on_success-Leads}
use finmars_workflow.Runs.Updates.Failed.{on_failure-Leads}
use finmars_workflow.Runs.Updates.Others.{
  cancel-Leads, workflow_prerun-Leads, before_start-Leads, update_progress-Leads, log-Leads,
  mark_as_canceled-Leads, nest-Leads,
}
use finmars_workflow.Runs.Deliver.{process_next_node-Leads}

-- What the workers, the views and the platform do, one after the other. A delivered node runs its step
-- with what the step does between; its connections are the workflow's own. `rests` is anything that
-- leaves the table of tasks alone: a pause, a resumption, a message sent.
pub data Run (env : Env) (w : ℕ) (cs : List Connection) : Store → Store → Type 0 where
  rests : (s r : Store) → r.tasks ≡ s.tasks → r.next_task ≡ s.next_task → Run env w cs s r
  follows : (s r q : Store) → Run env w cs s r → Run env w cs r q → Run env w cs s q
  delivers :
      (apply : Signature → Exec Store Unit)
      → ((sig : Signature) (s : Store) → Run env w cs s (apply sig s).1)
      → (current : String) (k : ℕ) (nodes : Dict Node) (ds : List Connection)
        (context : Option Context) (s : Store)
      → (k ≡ w → ds ≡ cs)
      → Run env w cs s (process_next_node env apply current k nodes ds context s).1
  preruns :
      (name hostname task_id : String) (context : Option Context) (s : Store)
      → Run env w cs s (workflow_prerun name hostname task_id context s).1
  begins :
      (hostname task_id : String) (context : Option Context) (s : Store)
      → Run env w cs s (before_start hostname task_id context s).1
  succeeds :
      (fuel : ℕ) (v : Json) (task_id : String) (context : Option Context) (s : Store)
      → Run env w cs s (on_success fuel env v task_id context s).1
  fails :
      (fuel : ℕ) (f : Failure) (task_id : Option String) (s : Store)
      → Run env w cs s (on_failure fuel env f task_id s).1
  cancels : (v : Workflow) (s : Store) → Run env w cs s (cancel env v s)
  progresses : (t : Task) (v : Json) (s : Store) → Run env w cs s (update_progress env t v s).1
  logs :
      (t : Task) (text : String) (s : Store)
      → Stands (key_of t) (keys_of s.tasks)
      → Run env w cs s (log t text s).1
  drops :
      (k : ℕ) (context : Option Context) (s : Store)
      → Run env w cs s (mark_as_canceled_init_tasks k context s).1
  nests :
      (reload : String → Result (Dict Config)) (out : Outside) (v : Workflow) (t : Task)
      (code : String) (payload : Json) (context : Context) (s : Store)
      → Stands (key_of t) (keys_of s.tasks)
      → Run env w cs s (nest env reload out v t code payload context s).1

Run-Leads :
    (env : Env) (w : ℕ) (cs : List Connection) (s r : Store) → Run env w cs s r → Leads w cs s r
Run-Leads env w cs s r (rests _ _ ht hn) = Leads-same w cs s r ht hn
Run-Leads env w cs s r (follows _ q _ a b) =
    Leads-trans (Run-Leads env w cs s q a) (Run-Leads env w cs q r b)
Run-Leads env w cs s _ (delivers apply runs current k nodes ds context _ ours) =
    process_next_node-Leads w cs env apply (λ sig t. Run-Leads env w cs t _ (runs sig t)) current k
      nodes ds context s ours
Run-Leads env w cs s _ (preruns name hostname task_id context _) =
    workflow_prerun-Leads w cs name hostname task_id context s
Run-Leads env w cs s _ (begins hostname task_id context _) =
    before_start-Leads w cs hostname task_id context s
Run-Leads env w cs s _ (succeeds fuel v task_id context _) =
    on_success-Leads w cs env fuel v task_id context s
Run-Leads env w cs s _ (fails fuel f task_id _) = on_failure-Leads w cs env f fuel task_id s
Run-Leads env w cs s _ (cancels v _) = cancel-Leads w cs env v s
Run-Leads env w cs s _ (progresses t v _) = update_progress-Leads w cs env t v s
Run-Leads env w cs s _ (logs t text _ h) = log-Leads w cs t text s h
Run-Leads env w cs s _ (drops k context _) = mark_as_canceled-Leads w cs k context s
Run-Leads env w cs s _ (nests reload out v t code payload context _ h) =
    nest-Leads w cs env reload out v t code payload context s h

-- The engine implements the machine: whatever is delivered, called back and canceled in which order,
-- the tasks of the workflow change by moves of the machine only, so a task is started only for a
-- node all of whose predecessors have exactly one task, which has succeeded; ids stay distinct.
pub Run-Moves :
    (env : Env) (w : ℕ) (cs : List Connection) (s r : Store)
    → IsSound s
    → Run env w cs s r
    → Moves cs (view w s.tasks) (view w r.tasks) × IsSound r
Run-Moves env w cs s r h run = let l = Run-Leads env w cs s r run in (l.run h, l.sound h)

-- In a workflow that has no task at first, however the engine goes on, each task of a node was created
-- after a task of each predecessor of the node: the nodes run in the order of the connections.
pub Run-IsOrdered :
    (env : Env) (w : ℕ) (cs : List Connection) (s r : Store)
    → IsSound s
    → view w s.tasks ≡ []
    → Run env w cs s r
    → IsOrdered cs (nodes_of (view w r.tasks))
Run-IsOrdered env w cs s r h fresh run =
    Moves-IsOrdered cs (view w s.tasks) (view w r.tasks) (Run-Moves env w cs s r h run).0
      (rw fresh tt)

-- Once a node has two tasks, however the engine goes on, no task is ever created again for a successor
-- of the node: their number stays what it is.
pub Run-blocked :
    (env : Env) (w : ℕ) (cs : List Connection) (s r : Store) (c : Connection)
    → IsSound s
    → Memᴰ c cs
    → 2 ≤ count c.source (nodes_of (view w s.tasks))
    → Run env w cs s r
    → count c.target (nodes_of (view w r.tasks)) ≡ count c.target (nodes_of (view w s.tasks))
Run-blocked env w cs s r c h m two run =
    (Moves-blocked cs (view w s.tasks) (view w r.tasks) c m (Run-Moves env w cs s r h run).0 two).1
