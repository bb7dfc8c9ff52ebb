-- ===== src/Runs/Updates/Finished.antt =====
-- A finished task, and the workflows above it.
use finmars_workflow.Common.{
  ℕ, zero, suc, String, ap, Option, none, some, List, [], ◌∷◌, Bool-cases, inl, inr, arith,
}
use finmars_workflow.Common.Dict.{Dict, lookup}
use finmars_workflow.Common.Exec.{Exec, Result, key_error, need, for_each}
use finmars_workflow.Json.{Json}
use finmars_workflow.Graph.{Node, Connection, nodes_by_id, adjacency_list}
use finmars_workflow.Models.{
  Env, Workflow, WorkflowTemplate, WorkflowStatus, Task, TaskStatus, Store, Context, is_nested,
}
use finmars_workflow.Models.Tables.{
  get_workflow, get_template, get_task_of_node, get_celery_task, put_task,
}
use finmars_workflow.Models.Save.{save_workflow}
use finmars_workflow.Tenancy.{set_schema_from_context}
use finmars_workflow.Success.{
  succeeded_task, next_node_ids, send_next, resume_parent, finish_workflow, go_on, with_template,
  after_success, success_step, handle_task_success,
}
use finmars_workflow.Success.Next.{for_each-send_next}
use finmars_workflow.Callbacks.{on_success}
use finmars_workflow.Runs.Keys.{
  Leads, Leads-refl, Leads-trans, Leads-same, Leads-put, Leads-after, Leads-given, Stands, key_of,
  keys_of,
}
use finmars_workflow.Runs.Updates.{
  save_workflow-Leads, get_workflow-Leads, get_template-Leads, get_task_of_node-Leads,
  get_celery_task-Leads, set_schema-Leads, node_task-Stands, celery_task-Stands,
}

module _ (w : ℕ) (cs : List Connection) (env : Env) where
  module _ (rec : Task → Json → Exec Store Unit)
      (rec-Leads : (t : Task) (v : Json) (s : Store)
        → Stands (key_of t) (keys_of s.tasks)
        → Leads w cs s (rec t v s).1) where
    resume_parent-Leads :
        (node_id : Option String) (v : Json) (o : Option ℕ) (s : Store)
        → Leads w cs s (resume_parent rec node_id v o s).1
    unfolding resume_parent
    resume_parent-Leads node_id v none s = Leads-refl
    resume_parent-Leads node_id v (some p) s =
        Leads-after w cs _ s (get_workflow p s) (get_workflow-Leads w cs p s) λ parent s1 _.
          Leads-given λ h1.
            Leads-after w cs _ s1 (get_task_of_node parent.id node_id s1)
              (get_task_of_node-Leads w cs parent.id node_id s1)
              λ t s2 got.
                rec-Leads (record t { status = TaskStatus.progress }) v s2
                  (node_task-Stands parent.id node_id s1 s2 t h1 got)

    finish_workflow-Leads :
        (u : Workflow) (v : Json) (s : Store) → Leads w cs s (finish_workflow env rec u v s).1
    unfolding finish_workflow
    finish_workflow-Leads u v s =
        let u' = record u { status = WorkflowStatus.success; finished_at = some s.clock } in
        Leads-trans (save_workflow-Leads w cs env u' s)
          (resume_parent-Leads u.node_id v u.parent (save_workflow env u' s))

    finish_or_send-Leads :
        (u : Workflow) (v : Json) (k : ℕ) (nodes : Dict Node) (adj : Dict (List String))
        (ds : List Connection) (next : List String) (s : Store)
        → Leads w cs s
            (let act : Exec Store Unit = elim next [
              | [] ↦ finish_workflow env rec u v
              | n ∷ ns ↦ for_each (send_next k nodes adj ds) (n ∷ ns)
            ] in
              act s).1
    finish_or_send-Leads u v k nodes adj ds [] s = finish_workflow-Leads u v s
    finish_or_send-Leads u v k nodes adj ds (n ∷ ns) s =
        let sent =
          ap (λ (r : Result Unit × Store). r.1) (for_each-send_next k nodes adj ds (n ∷ ns) s) in
        Leads-same w cs s _ (ap (λ (r : Store). r.tasks) sent)
          (ap (λ (r : Store). r.next_task) sent)

    go_on-Leads :
        (u : Workflow) (template : WorkflowTemplate) (current : String) (v : Json) (s : Store)
        → Leads w cs s (go_on env rec u template current v s).1
    unfolding go_on
    go_on-Leads u template current v s =
        let nodes = nodes_by_id template.nodes in
        let ds = template.connections in
        Leads-after w cs _ s (adjacency_list nodes ds, s) Leads-refl
          λ adj s1 _.
            Leads-after w cs _ s1 (need key_error (lookup current nodes) s1)
              (Leads-same w cs s1 _ (ground arith) (ground arith))
              λ node s2 _.
                Leads-after w cs _ s2 (next_node_ids node current v adj ds, s2) Leads-refl
                  λ next s3 _.
                    finish_or_send-Leads
                      (record u { last_task_output = some v; current_node_id = some current }) v
                      u.id nodes adj ds next s3

    with_template-Leads :
        (u : Workflow) (v : Json) (node_id : Option String) (o : Option ℕ) (s : Store)
        → Leads w cs s (with_template env rec u v node_id o s).1
    unfolding with_template
    with_template-Leads u v node_id none s = Leads-refl
    with_template-Leads u v node_id (some j) s =
        Leads-after w cs _ s (get_template j s) (get_template-Leads w cs j s) λ template s1 _.
          Leads-after w cs _ s1 (need key_error node_id s1)
            (Leads-same w cs s1 _ (ground arith) (ground arith))
            λ current s2 _. go_on-Leads u template current v s2

    success_step-Leads :
        (t : Task) (v : Json) (s : Store)
        → Stands (key_of t) (keys_of s.tasks)
        → Leads w cs s (success_step env rec t v s).1
    unfolding success_step after_success succeeded_task
    success_step-Leads t v s h = elim (Bool-cases (is_nested t.status)) [
      | inl nested ↦ rw nested Leads-refl
      | inr other ↦
          let s' = put_task (succeeded_task env s.clock v t) s in
          rw other (
            Leads-trans (Leads-put w cs (succeeded_task env s.clock v t) s h) (
              Leads-after w cs _ s' (get_workflow t.workflow s')
                (get_workflow-Leads w cs t.workflow s')
                λ u s1 _. with_template-Leads u v t.node_id u.workflow_template s1))
    ]

  pub handle_task_success-Leads :
      (fuel : ℕ) (t : Task) (v : Json) (s : Store)
      → Stands (key_of t) (keys_of s.tasks)
      → Leads w cs s (handle_task_success fuel env t v s).1
  unfolding handle_task_success
  handle_task_success-Leads zero t v s h = Leads-refl
  handle_task_success-Leads (suc n) t v s h =
      success_step-Leads (handle_task_success n env) (handle_task_success-Leads n) t v s h

  pub on_success-Leads :
      (fuel : ℕ) (v : Json) (task_id : String) (context : Option Context) (s : Store)
      → Leads w cs s (on_success fuel env v task_id context s).1
  unfolding on_success
  on_success-Leads fuel v task_id context s =
      Leads-after w cs _ s (set_schema_from_context context s) (set_schema-Leads w cs context s)
        λ _ s1 _. Leads-given λ h1.
          Leads-after w cs _ s1 (get_celery_task (some task_id) s1)
            (get_celery_task-Leads w cs (some task_id) s1)
            λ t s2 got.
              handle_task_success-Leads fuel t v s2
                (celery_task-Stands (some task_id) s1 s2 t h1 got)
