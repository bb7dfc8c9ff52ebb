-- ===== src/Callbacks/Tests.antt =====
-- The theorems on the callbacks: a task that fails in a workflow, and in a nested one.
use finmars_workflow.Common.{◌≡◌, ◌≢◌, refl, false, some, [], ◌∷◌, arith, ap, All, ◌↔◌}
use finmars_workflow.Common.Exec.{ok, err, value_error, out_of_fuel, modify, ◌>>◌}
use finmars_workflow.Json.{num}
use finmars_workflow.Models.{Store, Workflow, WorkflowStatus, Task, TaskStatus}
use finmars_workflow.Models.Tables.{put_task, get_one}
use finmars_workflow.Models.Save.{save_workflow}
use finmars_workflow.Callbacks.{
  Failure, failed_task, failed_workflow, send_alert, on_failure, update_progress, log,
  is_workflow_already_running,
}
use finmars_workflow.Callbacks.Failing.{on_failure_fails, on_failure_climbs}
use finmars_workflow.Callbacks.Climbing.{on_failure_terminates, IsBelow}
use finmars_workflow.Callbacks.Running.{
  log-update_progress, is_workflow_already_running_iff, LetsRun,
}
use finmars_workflow.Fixtures.{test_env, task_at, workflow_in, store_with, main_context}

abbrev boom : Failure
boom = record { error = value_error; text = "boom"; traceback = "line 1"; context = main_context }

abbrev failing_task : Task
failing_task = task_at 1 "a" TaskStatus.progress

abbrev failing : Store
failing = store_with WorkflowStatus.progress (failing_task ∷ [])

on_failure_fails_example : on_failure 2 test_env boom (some "celery") failing ≡ (
  ok tt,
  send_alert (failed_workflow boom (workflow_in WorkflowStatus.progress)) (
      save_workflow test_env
        (failed_workflow boom (workflow_in WorkflowStatus.progress))
        (put_task (failed_task test_env 100 boom failing_task) failing)),
)
unfolding finmars_workflow.Tenancy.set_schema_from_context
    finmars_workflow.Models.Tables.get_celery_task
on_failure_fails_example =
    on_failure_fails 1 test_env boom (some "celery") failing failing failing_task
      (workflow_in WorkflowStatus.progress) refl refl refl refl

failing-IsBelow : IsBelow (some "celery") failing 2
unfolding get_one
failing-IsBelow t h =
    let found : ok failing_task ≡ ok t = h in
    let owner : 1 ≡ t.workflow =
      ap (λ (u : Task). u.workflow) (let e : failing_task ≡ t = cc found in e) in
    omega arith

on_failure_terminates_example :
    (on_failure 2 test_env boom (some "celery") failing).0 ≢ err out_of_fuel
on_failure_terminates_example =
    on_failure_terminates 2 test_env boom (some "celery") failing (tt, tt) failing-IsBelow
      (omega arith)

abbrev child : Workflow
child = record (workflow_in WorkflowStatus.progress) { id = 2; node_id = some "a"; parent = some 1 }

abbrev child_task : Task
child_task = record (task_at 2 "x" TaskStatus.progress) {
  workflow = 2;
  celery_task_id = some "inner";
}

abbrev waiting_task : Task
waiting_task = task_at 1 "a" TaskStatus.nested_progress

abbrev nested : Store
nested = record (store_with WorkflowStatus.progress (child_task ∷ waiting_task ∷ [])) {
  workflows = child ∷ workflow_in WorkflowStatus.progress ∷ [];
}

abbrev inner_failed : Store
inner_failed =
    save_workflow test_env (failed_workflow boom child)
      (put_task (failed_task test_env 100 boom child_task) nested)

on_failure_climbs_example :
    on_failure 3 test_env boom (some "inner") nested
    ≡ (on_failure 2 test_env boom (some "celery")
          >> modify (send_alert (failed_workflow boom child)))
        inner_failed
unfolding finmars_workflow.Tenancy.set_schema_from_context
    finmars_workflow.Models.Tables.get_celery_task finmars_workflow.Models.Tables.get_workflow
    save_workflow failed_task finmars_workflow.Models.Tables.get_task_of_node
on_failure_climbs_example =
    on_failure_climbs 2 1 test_env boom (some "inner") nested nested inner_failed child_task
      waiting_task child (workflow_in WorkflowStatus.progress) refl refl refl refl refl refl refl

log-update_progress_example :
    (update_progress test_env failing_task (num 1) >> log failing_task "half done") failing
    ≡ log failing_task "half done" failing
log-update_progress_example =
    log-update_progress test_env failing_task failing_task (num 1) "half done" failing refl refl

is_workflow_already_running_iff_example :
    (is_workflow_already_running failing_task "com.finmars.diamond" failing ≡ false)
    ↔ All (LetsRun 1 "com.finmars.diamond") (workflow_in WorkflowStatus.progress ∷ [])
is_workflow_already_running_iff_example =
    is_workflow_already_running_iff failing_task "com.finmars.diamond" failing
