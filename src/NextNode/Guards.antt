-- ===== src/NextNode/Guards.antt =====
-- When `process_next_node` does nothing: whatever `apply` would do, it is not called.
use finmars_workflow.Common.{ℕ, String, ◌≡◌, refl, true, false, Option, some, List, ◌∙◌}
use finmars_workflow.Common.Dict.{Dict, lookup}
use finmars_workflow.Common.Exec.{Exec, Result, ok, err, pure, attempt, caught}
use finmars_workflow.Graph.{Node, Connection}
use finmars_workflow.Models.{Env, Workflow, Store, Context, is_wait}
use finmars_workflow.Models.Tables.{get_workflow}
use finmars_workflow.Models.Save.{save_workflow}
use finmars_workflow.Tenancy.{set_schema_from_context}
use finmars_workflow.Engine.{are_inputs_ready}
use finmars_workflow.NextNode.{Signature, guarded_node, process_next_node}

module _ (env : Env) (apply : Signature → Exec Store Unit) where
  pub process_next_node_lem :
      (current : String) (k : ℕ) (nodes : Dict Node) (cs : List Connection)
      (context : Option Context) (s s' : Store) (w : Workflow) (node : Node)
      → set_schema_from_context context s ≡ (ok tt, s')
      → get_workflow k s' ≡ (ok w, s')
      → lookup current nodes ≡ some node
      → process_next_node env apply current k nodes cs context s
        ≡ attempt (guarded_node env apply w node current cs) (λ _. pure tt) s'
  unfolding process_next_node
  process_next_node_lem current k nodes cs context s s' w node hs hw hl = rw (hs, hw, hl) refl

  -- A node of a paused workflow is not run: the workflow's row keeps the node to resume from, no
  -- task is created and no message is sent.
  pub process_next_node_waits :
      (current : String) (k : ℕ) (nodes : Dict Node) (cs : List Connection)
      (context : Option Context) (s s' : Store) (w : Workflow) (node : Node)
      → set_schema_from_context context s ≡ (ok tt, s')
      → get_workflow k s' ≡ (ok w, s')
      → lookup current nodes ≡ some node
      → is_wait w.status ≡ true
      → process_next_node env apply current k nodes cs context s
        ≡ (ok tt, save_workflow env (record w { current_node_id = some current }) s')
  unfolding guarded_node
  process_next_node_waits current k nodes cs context s s' w node hs hw hl wait =
      process_next_node_lem current k nodes cs context s s' w node hs hw hl ∙ rw wait refl

  -- A node whose inputs are not ready is not run: nothing changes but the schema.
  pub process_next_node_not_ready :
      (current : String) (k : ℕ) (nodes : Dict Node) (cs : List Connection)
      (context : Option Context) (s s' : Store) (w : Workflow) (node : Node)
      → set_schema_from_context context s ≡ (ok tt, s')
      → get_workflow k s' ≡ (ok w, s')
      → lookup current nodes ≡ some node
      → is_wait w.status ≡ false
      → are_inputs_ready w.id current cs s'.tasks ≡ false
      → process_next_node env apply current k nodes cs context s ≡ (ok tt, s')
  unfolding guarded_node
  process_next_node_not_ready current k nodes cs context s s' w node hs hw hl wait ready =
      process_next_node_lem current k nodes cs context s s' w node hs hw hl ∙ rw (wait, ready) refl

  handled : (r : Result Unit × Store) → (caught (λ _. pure tt) r).0 ≡ ok tt
  handled (ok tt, s) = refl
  handled (err e, s) = refl

  -- Once the schema is set no exception leaves the task: an unknown workflow or node, malformed
  -- data and a failure of the step itself are all logged and swallowed.
  pub process_next_node_swallows :
      (current : String) (k : ℕ) (nodes : Dict Node) (cs : List Connection)
      (context : Option Context) (s s' : Store)
      → set_schema_from_context context s ≡ (ok tt, s')
      → (process_next_node env apply current k nodes cs context s).0 ≡ ok tt
  unfolding process_next_node
  process_next_node_swallows current k nodes cs context s s' hs = rw hs (handled _)
