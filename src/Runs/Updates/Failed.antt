-- ===== src/Runs/Updates/Failed.antt =====
-- A failed task, and the tasks of the workflows above it.
use finmars_workflow.Common.{ℕ, zero, suc, String, ◌≡◌, Option, none, some, List, arith}
use finmars_workflow.Common.Exec.{Exec}
use finmars_workflow.Graph.{Connection}
use finmars_workflow.Models.{Env, Workflow, Store}
use finmars_workflow.Models.Tables.{get_workflow, get_task_of_node, get_celery_task, put_task}
use finmars_workflow.Models.Save.{save_workflow}
use finmars_workflow.Tenancy.{set_schema_from_context}
use finmars_workflow.Callbacks.{
  Failure, failed_workflow, failed_task, send_alert, fail_parent, fail_workflow, failure_step,
  on_failure,
}
use finmars_workflow.Runs.Keys.{
  Leads, Leads-refl, Leads-trans, Leads-same, Leads-put, Leads-after, Leads-given,
}
use finmars_workflow.Runs.Updates.{
  save_workflow-Leads, get_workflow-Leads, get_task_of_node-Leads, get_celery_task-Leads,
  set_schema-Leads, celery_task-Stands, get_workflow_same,
}

module _ (w : ℕ) (cs : List Connection) (env : Env) (f : Failure) where
  send_alert-Leads : (u : Workflow) (s : Store) → Leads w cs s (send_alert u s)
  unfolding send_alert
  send_alert-Leads u s = Leads-same w cs s _ (ground arith) (ground arith)

  module _ (rec : Option String → Exec Store Unit)
      (rec-Leads : (k : Option String) (s : Store) → Leads w cs s (rec k s).1) where
    fail_parent-Leads :
        (node_id : Option String) (o : Option ℕ) (s : Store)
        → Leads w cs s (fail_parent rec node_id o s).1
    unfolding fail_parent
    fail_parent-Leads node_id none s = Leads-refl
    fail_parent-Leads node_id (some p) s =
        Leads-after w cs _ s (get_workflow p s) (get_workflow-Leads w cs p s) λ parent s1 _.
          Leads-after w cs _ s1 (get_task_of_node parent.id node_id s1)
            (get_task_of_node-Leads w cs parent.id node_id s1)
            λ t s2 _. rec-Leads t.celery_task_id s2

    fail_workflow-Leads : (u : Workflow) (s : Store) → Leads w cs s (fail_workflow env rec f u s).1
    unfolding fail_workflow
    fail_workflow-Leads u s =
        let s' = save_workflow env (failed_workflow f u) s in
        Leads-trans (save_workflow-Leads w cs env (failed_workflow f u) s) (
          Leads-after w cs _ s' (fail_parent rec u.node_id u.parent s')
            (fail_parent-Leads u.node_id u.parent s')
            λ _ s1 _. send_alert-Leads (failed_workflow f u) s1)

    failure_step-Leads :
        (task_id : Option String) (s : Store) → Leads w cs s (failure_step env rec f task_id s).1
    unfolding failure_step failed_task
    failure_step-Leads task_id s =
        Leads-after w cs _ s (set_schema_from_context f.context s)
          (set_schema-Leads w cs f.context s)
          λ _ s1 _. Leads-given λ h1.
            Leads-after w cs _ s1 (get_celery_task task_id s1)
              (get_celery_task-Leads w cs task_id s1)
              λ t s2 got.
                let stands = celery_task-Stands task_id s1 s2 t h1 got in
                Leads-after w cs _ s2 (get_workflow t.workflow s2)
                  (get_workflow-Leads w cs t.workflow s2)
                  λ u s3 seen.
                    let same : s3 ≡ s2 = get_workflow_same t.workflow s2 s3 u seen in
                    Leads-trans (Leads-put w cs (failed_task env s3.clock f t) s3 (rw same stands))
                      (fail_workflow-Leads u (put_task (failed_task env s3.clock f t) s3))

  pub on_failure-Leads :
      (fuel : ℕ) (task_id : Option String) (s : Store)
      → Leads w cs s (on_failure fuel env f task_id s).1
  unfolding on_failure
  on_failure-Leads zero task_id s = Leads-refl
  on_failure-Leads (suc n) task_id s =
      failure_step-Leads (on_failure n env f) (on_failure-Leads n) task_id s
