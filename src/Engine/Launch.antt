-- ===== src/Engine/Launch.antt =====
-- What launching a workflow of version 2 does when nothing is missing.
use finmars_workflow.Common.{
  ℕ, String, ◌≡◌, refl, Option, some, List, ◌++◌, map, arith, ap, find, ◌==◌, ◌∙◌,
}
use finmars_workflow.Common.Dict.{Dict}
use finmars_workflow.Common.Exec.{ok}
use finmars_workflow.Graph.{nodes_by_id, adjacency_list, start_nodes}
use finmars_workflow.Models.{
  Env, Workflow, WorkflowTemplate, WorkflowStatus, Store, Context, process_next_node,
}
use finmars_workflow.Models.Tables.{get_workflow, get_template}
use finmars_workflow.Models.Save.{save_workflow, save_workflow_shape}
use finmars_workflow.Tenancy.{set_schema_from_context}
use finmars_workflow.Engine.{template_of, execute_workflow_v2}
use finmars_workflow.Engine.Queue.{for_each-send}

pub template_of_ok :
    (w : Workflow) (s : Store) (j : ℕ) (t : WorkflowTemplate)
    → w.workflow_template ≡ some j
    → find (λ u. u.id == j) s.templates ≡ some t
    → template_of w s ≡ (ok t, s)
unfolding template_of get_template
template_of_ok w s j t hw ht = ground arith

-- Saving a workflow leaves the templates alone.
pub templates-save_workflow :
    (env : Env) (w : Workflow) (s : Store) → (save_workflow env w s).templates ≡ s.templates
templates-save_workflow env w s = ap (λ (r : Store). r.templates) (save_workflow_shape env w s)

pub outbox-save_workflow :
    (env : Env) (w : Workflow) (s : Store) → (save_workflow env w s).outbox ≡ s.outbox
outbox-save_workflow env w s = ap (λ (r : Store). r.outbox) (save_workflow_shape env w s)

-- In the schema of its context, a workflow whose template is there and whose connections all start
-- at nodes is put in progress, and one message is sent for each start node, in the order of the
-- nodes; nothing else changes but what `save` writes.
pub execute_workflow_v2_launches :
    (env : Env) (k j : ℕ) (context : Option Context) (s s' : Store) (w : Workflow)
    (t : WorkflowTemplate) (adj : Dict (List String))
    → set_schema_from_context context s ≡ (ok tt, s')
    → get_workflow k s' ≡ (ok w, s')
    → w.workflow_template ≡ some j
    → find (λ u. u.id == j) s'.templates ≡ some t
    → adjacency_list (nodes_by_id t.nodes) t.connections ≡ ok adj
    → execute_workflow_v2 env k context s ≡ (
      ok tt,
      record (save_workflow env (record w { status = WorkflowStatus.progress }) s') {
        outbox =
            s'.outbox
            ++ map
                (λ n. process_next_node n k (nodes_by_id t.nodes) adj t.connections context)
                (start_nodes (nodes_by_id t.nodes) t.connections);
      },
    )
unfolding execute_workflow_v2
execute_workflow_v2_launches env k j context s s' w t adj hs hw hj ht ha =
    let w' = record w { status = WorkflowStatus.progress } in
    let opened = save_workflow env w' s' in
    let found : template_of w opened ≡ (ok t, opened) =
      template_of_ok w opened j t hj (rw (templates-save_workflow env w' s') ht) in
    rw (hs, hw, found, ha)
      (for_each-send (λ n. process_next_node n k (nodes_by_id t.nodes) adj t.connections context)
          (start_nodes (nodes_by_id t.nodes) t.connections) opened
        ∙ rw (outbox-save_workflow env w' s') refl)
