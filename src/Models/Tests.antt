-- ===== src/Models/Tests.antt =====
-- The theorems on the tables at concrete rows.
use mathlib.Core.Bool.{false≢true}
use finmars_workflow.Common.{
  ◌≡◌, refl, none, some, List, [], ◌∷◌, ◌++◌, map, arith, eq_iff, if◌then◌else◌, inr,
}
use finmars_workflow.Common.Exec.{ok}
use finmars_workflow.Json.{num, obj, end, truthy}
use finmars_workflow.Json.Codec.{WritesAs}
use finmars_workflow.Models.{Task, WorkflowStatus, TaskStatus}
use finmars_workflow.Models.Payload.{
  get_payload, set_payload, read_column, write_column, get_payload-set_payload,
  read_column-write_column,
}
use finmars_workflow.Models.Tables.{HasDistinctIds, replace_workflow}
use finmars_workflow.Models.Save.{
  save_workflow, save_workflow_silent, save_workflow_error, save_workflow_result,
}
use finmars_workflow.Models.Cancel.{cancel, settled, active_of, cancel-settled, cancel-workflows}
use finmars_workflow.Fixtures.{one_codec, test_env, workflow_in, task_at, store_with, before_join}

-- The constant codec writes 1 as "1".
one-WritesAs : WritesAs one_codec (num 1) (num 1)
one-WritesAs = record { read_back = refl; not_empty = λ e. false≢true ((eq_iff "1" "").1 e) }

get_payload-set_payload_example :
    get_payload one_codec (set_payload one_codec (num 1) (workflow_in WorkflowStatus.init))
    ≡ (if truthy (num 1) then num 1 else obj end)
get_payload-set_payload_example =
    get_payload-set_payload one_codec (num 1) (num 1) (workflow_in WorkflowStatus.init) one-WritesAs

read_column-write_column_example :
    read_column one_codec (write_column one_codec (num 1)) ≡ ok (num 1)
read_column-write_column_example = read_column-write_column one_codec (num 1) (num 1) one-WritesAs

abbrev half_run : List Task
half_run = task_at 2 "b" TaskStatus.progress ∷ task_at 1 "a" TaskStatus.success ∷ []

half_run-HasDistinctIds : HasDistinctIds half_run
half_run-HasDistinctIds = ((λ e. omega arith, tt), (tt, tt))

cancel-settled_example :
    ((cancel test_env
        (workflow_in WorkflowStatus.progress)
        (store_with WorkflowStatus.progress half_run)).tasks
      ≡ map (settled 1 100) half_run)
    × ((cancel test_env
          (workflow_in WorkflowStatus.progress)
          (store_with WorkflowStatus.progress half_run)).revoked
        ≡ [] ++ map (λ t. t.celery_task_id) (active_of 1 half_run))
cancel-settled_example =
    cancel-settled test_env (workflow_in WorkflowStatus.progress)
      (store_with WorkflowStatus.progress half_run) half_run-HasDistinctIds

cancel-workflows_example :
    (cancel test_env
      (workflow_in WorkflowStatus.progress)
      (store_with WorkflowStatus.progress half_run)).workflows
    ≡ replace_workflow
        (workflow_in WorkflowStatus.canceled)
        (workflow_in WorkflowStatus.progress ∷ [])
cancel-workflows_example =
    cancel-workflows test_env (workflow_in WorkflowStatus.progress)
      (store_with WorkflowStatus.progress half_run)

save_workflow_silent_example :
    (save_workflow test_env
      (workflow_in WorkflowStatus.wait)
      (store_with WorkflowStatus.progress half_run)).updates
    ≡ []
save_workflow_silent_example =
    save_workflow_silent test_env (workflow_in WorkflowStatus.wait)
      (store_with WorkflowStatus.progress half_run) (inr refl)

abbrev failed_run : List Task
failed_run = task_at 2 "b" TaskStatus.error ∷ task_at 1 "a" TaskStatus.success ∷ []

save_workflow_error_example :
    (save_workflow test_env
      (workflow_in WorkflowStatus.error)
      (store_with WorkflowStatus.progress failed_run)).updates
    ≡ []
      ++ record {
        platform_task_id = 5;
        status = WorkflowStatus.error;
        result = none;
        error = some none;
      }
        ∷ []
save_workflow_error_example =
    save_workflow_error test_env (workflow_in WorkflowStatus.error)
      (store_with WorkflowStatus.progress failed_run) 4 (task_at 2 "b" TaskStatus.error) refl refl
      refl

-- Of the tasks of "a", "b" and "c" it is the one of "a", the oldest, whose result is reported.
save_workflow_result_example :
    (save_workflow test_env
      (workflow_in WorkflowStatus.success)
      (store_with WorkflowStatus.progress before_join)).updates
    ≡ []
      ++ record {
        platform_task_id = 5;
        status = WorkflowStatus.success;
        result = some (num 1);
        error = none;
      }
        ∷ []
unfolding read_column
save_workflow_result_example =
    save_workflow_result test_env (workflow_in WorkflowStatus.success)
      (store_with WorkflowStatus.progress before_join) 4
      (task_at 3 "c" TaskStatus.success ∷ task_at 2 "b" TaskStatus.success ∷ []) []
      (task_at 1 "a" TaskStatus.success) (num 1) refl refl (refl, (refl, (refl, tt))) refl refl tt
      refl
