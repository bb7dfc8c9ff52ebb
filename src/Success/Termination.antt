-- ===== src/Success/Termination.antt =====
-- The calls that go up through the parents end: enough fuel is one more than the workflow's id, since
-- a nested workflow is created after its parent and so has a larger id.
use finmars_workflow.Common.{
  ℕ, zero, suc, ◌<◌, String, ◌≡◌, ◌≢◌, Bool, true, false, Option, none, some, List, [], ◌∷◌, arith,
  ap, all, Bool-cases, inl, inr,
}
use finmars_workflow.Common.Dict.{Dict, lookup, has}
use finmars_workflow.Common.Exec.{Exec, err, key_error, out_of_fuel, for_each, need}
use finmars_workflow.Graph.Adjacency.{Builds, adjacency_list-Builds}
use finmars_workflow.Success.Next.{for_each-send_next}
use finmars_workflow.Json.{Json}
use finmars_workflow.Graph.{
  Node, Connection, nodes_by_id, adjacency_list, get_next_node_by_condition, condition_holds,
}
use finmars_workflow.Models.{
  Env, Workflow, WorkflowTemplate, WorkflowStatus, Task, TaskStatus, Store, is_nested,
}
use finmars_workflow.Models.Tables.{get_workflow, get_template, get_task_of_node, put_task}
use finmars_workflow.Models.Save.{save_workflow, save_workflow_shape}
use finmars_workflow.Success.{
  next_node_ids, send_next, resume_parent, finish_workflow, go_on, with_template, after_success,
  success_step, handle_task_success, succeeded_task,
}
use finmars_workflow.Success.Found.{
  Ends, ParentBelow, Descends, Ends-after, replace-All, get_workflow_found, get_workflow-Ends,
  get_template_found, get_template-Ends, get_task-Ends, get_task_found,
}

adjacency_list-Ends :
    (nodes : Dict Node) (cs : List Connection) → adjacency_list nodes cs ≢ err out_of_fuel
adjacency_list-Ends nodes cs =
    go (all (λ c. has c.source nodes) cs) (adjacency_list-Builds nodes cs)
  where
    go : (b : Bool) → Builds b (adjacency_list nodes cs) → adjacency_list nodes cs ≢ err out_of_fuel
    go true (adj, e) h = cc
    go false e h = cc

condition-Ends : (v : Json) → condition_holds v ≢ err out_of_fuel
unfolding condition_holds
condition-Ends v = ground arith

next_node_ids-Ends :
    (node : Node) (current : String) (retval : Json) (adj : Dict (List String))
    (cs : List Connection)
    → next_node_ids node current retval adj cs ≢ err out_of_fuel
unfolding next_node_ids get_next_node_by_condition
next_node_ids-Ends node current retval adj cs = ground (arith, condition-Ends retval)

for_each-send_next-Ends :
    (k : ℕ) (nodes : Dict Node) (adj : Dict (List String)) (cs : List Connection) (ns : List String)
    (s : Store)
    → Ends (for_each (send_next k nodes adj cs) ns s)
for_each-send_next-Ends k nodes adj cs ns s = λ h. cc (for_each-send_next k nodes adj cs ns s)

-- One round, with the recursive call known to end for the tasks of smaller workflows.
module _ (env : Env) (rec : Task → Json → Exec Store Unit) (bound : ℕ)
    (rec_ends : (t : Task) (v : Json) (s : Store)
      → Descends s.workflows
      → t.workflow < bound
      → Ends (rec t v s)) where
  resume_parent-Ends :
      (node_id : Option String) (v : Json) (o : Option ℕ) (k : ℕ) (s : Store)
      → Descends s.workflows
      → ParentBelow o k
      → k < suc bound
      → Ends (resume_parent rec node_id v o s)
  unfolding resume_parent
  resume_parent-Ends node_id v none k s d b le = cc
  resume_parent-Ends node_id v (some p) k s d b le =
      Ends-after _ (get_workflow p s) (get_workflow-Ends p s) λ parent s1 found.
        let (same, _, kept) =
          get_workflow_found (λ w. ParentBelow w.parent w.id) p s s1 parent d found in
        Ends-after _ (get_task_of_node parent.id node_id s1) (get_task-Ends parent.id node_id s1)
          λ t s2 got.
            let (owner, kept') = get_task_found parent.id node_id s1 s2 t got in
            rec_ends (record t { status = TaskStatus.progress }) v s2 (rw (kept', kept) d)
              (omega arith)

  finish_workflow-Ends :
      (w : Workflow) (v : Json) (s : Store)
      → Descends s.workflows
      → ParentBelow w.parent w.id
      → w.id < suc bound
      → Ends (finish_workflow env rec w v s)
  unfolding finish_workflow
  finish_workflow-Ends w v s d b le =
      let w' = record w { status = WorkflowStatus.success; finished_at = some s.clock } in
      let kept : Descends (save_workflow env w' s).workflows =
        rw (ap (λ (r : Store). r.workflows) (save_workflow_shape env w' s))
          (replace-All (λ u. ParentBelow u.parent u.id) w' s.workflows b d) in
      resume_parent-Ends w.node_id v w.parent w.id (save_workflow env w' s) kept b le

  finish_or_send-Ends :
      (w : Workflow) (v : Json) (send : String → Exec Store Unit) (next : List String) (s : Store)
      → ((ns : List String) → Ends (for_each send ns s))
      → Descends s.workflows
      → ParentBelow w.parent w.id
      → w.id < suc bound
      → Ends (
          let act : Exec Store Unit = elim next [
            | [] ↦ finish_workflow env rec w v
            | n ∷ ns ↦ for_each send (n ∷ ns)
          ] in
          act s)
  finish_or_send-Ends w v send [] s sent d b le = finish_workflow-Ends w v s d b le
  finish_or_send-Ends w v send (n ∷ ns) s sent d b le = sent (n ∷ ns)

  go_on-Ends :
      (w : Workflow) (template : WorkflowTemplate) (current : String) (v : Json) (s : Store)
      → Descends s.workflows
      → ParentBelow w.parent w.id
      → w.id < suc bound
      → Ends (go_on env rec w template current v s)
  unfolding go_on
  go_on-Ends w template current v s d b le =
      let nodes = nodes_by_id template.nodes in
      let cs = template.connections in
      Ends-after _ (adjacency_list nodes cs, s) (adjacency_list-Ends nodes cs)
        λ adj s1 e1.
          Ends-after _ (need key_error (lookup current nodes) s1) (ground arith) λ node s2 e2.
            Ends-after _ (next_node_ids node current v adj cs, s2)
              (next_node_ids-Ends node current v adj cs)
              λ next s3 e3.
                let same : s3 ≡ s = ground arith in
                finish_or_send-Ends
                  (record w { last_task_output = some v; current_node_id = some current }) v
                  (send_next w.id nodes adj cs) next s3
                  (λ ns. for_each-send_next-Ends w.id nodes adj cs ns s3) (rw same d) b le

  with_template-Ends :
      (w : Workflow) (v : Json) (node_id : Option String) (o : Option ℕ) (s : Store)
      → Descends s.workflows
      → ParentBelow w.parent w.id
      → w.id < suc bound
      → Ends (with_template env rec w v node_id o s)
  unfolding with_template
  with_template-Ends w v node_id none s d b le = λ h. cc
  with_template-Ends w v node_id (some j) s d b le =
      Ends-after _ (get_template j s) (get_template-Ends j s) λ template s1 got.
        Ends-after _ (need key_error node_id s1) (ground arith) λ current s2 e2.
          let same : s2 ≡ s = ground (arith, get_template_found j s s1 template got) in
          go_on-Ends w template current v s2 (rw same d) b le

  success_step-Ends :
      (t : Task) (v : Json) (s : Store)
      → Descends s.workflows
      → t.workflow < suc bound
      → Ends (success_step env rec t v s)
  unfolding success_step after_success
  success_step-Ends t v s d le = elim (Bool-cases (is_nested t.status)) [
    | inl nested ↦ rw nested (λ h. cc)
    | inr other ↦
        let s' = put_task (succeeded_task env s.clock v t) s in
        rw other (
          Ends-after _ (get_workflow t.workflow s') (get_workflow-Ends t.workflow s') λ w s1 found.
            let (same, below, kept) =
              get_workflow_found (λ u. ParentBelow u.parent u.id) t.workflow s' s1 w d found in
            with_template-Ends w v t.node_id w.workflow_template s1 (rw kept d) below (omega arith))
  ]

-- Where every nested workflow has a larger id than its parent, one call more than the workflow's id
-- is enough: the chain of parents is walked to its end, whatever the templates and the tasks hold.
pub handle_task_success_terminates :
    (fuel : ℕ) (env : Env) (t : Task) (retval : Json) (s : Store)
    → Descends s.workflows
    → t.workflow < fuel
    → (handle_task_success fuel env t retval s).0 ≢ err out_of_fuel
unfolding handle_task_success
handle_task_success_terminates zero env t retval s d h = absurd (omega arith)
handle_task_success_terminates (suc n) env t retval s d h =
    success_step-Ends env (handle_task_success n env) n
      (λ u v r. handle_task_success_terminates n env u v r) t retval s d h
