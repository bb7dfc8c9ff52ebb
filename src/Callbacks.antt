-- ===== src/Callbacks.antt =====
-- What Celery calls around a task: `workflow_prerun`, `BaseTask.before_start`, `on_success` and
-- `on_failure` of workflow/tasks/base.py with `send_alert` of workflow/utils.py; and the methods of
-- `BaseTask` that a running task calls.
pub mod Failing
pub mod Climbing
pub mod Running
pub mod Tests
use finmars_workflow.Common.{
  ℕ, zero, suc, String, Bool, true, false, not, ◌&&◌, Option, none, some, List, [], ◌∷◌, ◌++◌, ◌==◌,
  str_eq, str_append, find, any, if◌then◌else◌, truthy_str, holds_str,
}
use finmars_workflow.Common.Exec.{
  Exec, Result, ok, err, Error, time_limit, soft_time_limit, out_of_fuel, pure, raise, gets, modify,
  ◌>>=◌, ◌>>◌,
}
use finmars_workflow.Json.{Json, str, obj, field, end}
use finmars_workflow.Models.{
  Env, Workflow, WorkflowStatus, Task, TaskStatus, Space, Store, Context, Alert, is_in_progress,
  is_failed,
}
use finmars_workflow.Models.Payload.{write_column}
use finmars_workflow.Models.Tables.{
  get_workflow, get_task, get_celery_task, get_task_of_node, put_task,
}
use finmars_workflow.Models.Save.{save_workflow}
use finmars_workflow.Models.Cancel.{mark_task_as_finished}
use finmars_workflow.Tenancy.{set_schema_from_context, prerun_schema, is_ignored}
use finmars_workflow.Success.{handle_task_success}

-- task.status = Task.STATUS_PROGRESS; task.worker_name = hostname
abbrev pub started_task : String → Task → Task
started_task hostname t = record t { status = TaskStatus.progress; worker_name = some hostname }

unfoldable pub start_task : String → String → Exec Store Task
start_task hostname task_id = do
  t ← get_celery_task (some task_id)
  modify (put_task (started_task hostname t))
  pure (started_task hostname t)

-- `name` is the task's, and `context` what the signal's keyword arguments hold under "context".
unfoldable pub workflow_prerun : String → String → String → Option Context → Exec Store Unit
unfolding start_task
workflow_prerun name hostname task_id context =
    if is_ignored name
    then pure tt
    else do prerun_schema name context; start_task hostname task_id; pure tt

-- The two rows are kept on the instance, as `self.task` and `self.workflow`.
unfoldable pub before_start : String → String → Option Context → Exec Store (Task × Workflow)
unfolding start_task
before_start hostname task_id context = do
  set_schema_from_context context
  t ← start_task hostname task_id
  w ← get_workflow t.workflow
  pure (t, w)

unfoldable pub on_success : ℕ → Env → Json → String → Option Context → Exec Store Unit
on_success fuel env retval task_id context = do
  set_schema_from_context context
  t ← get_celery_task (some task_id)
  handle_task_success fuel env t retval

-- The signal's arguments: the exception with its text, the traceback and the context.
pub record Failure : Type 0 where
  pub error : Error
  pub text : String
  pub traceback : String
  pub context : Option Context

-- isinstance(exception, TimeLimitExceeded | SoftTimeLimitExceeded)
abbrev pub is_timeout : Error → Bool
is_timeout time_limit = true
is_timeout soft_time_limit = true
is_timeout _ = false

abbrev pub failed_workflow : Failure → Workflow → Workflow
failed_workflow f w = record w {
  status = if is_timeout f.error then WorkflowStatus.timeout else WorkflowStatus.error;
}

unfoldable pub failed_task : Env → ℕ → Failure → Task → Task
failed_task env now f t = mark_task_as_finished now (record t {
  status = if is_timeout f.error then TaskStatus.timeout else TaskStatus.error;
  result_data =
      write_column env.codec
        (obj (field "exception" (str f.text) (field "traceback" (str f.traceback) end)));
  error_message = some f.text;
})

-- The path under the host that the alert is posted to.
alert_path : Space → String
alert_path p =
    let space = str_append p.space_code "/api/v1/utils/expression/" in
    elim p.realm_code [
      | none ↦ space
      | some r ↦ if str_eq r "" then space else str_append r (str_append "/" space)
    ]

-- Nothing leaves the `try`: without the user "finmars_bot" nothing is posted.
unfoldable pub send_alert : Workflow → Store → Store
unfolding alert_path
send_alert w s =
    if is_failed w.status && any (λ u. str_eq u.username "finmars_bot") s.users
    then record s {
      alerts =
          s.alerts
          ++ record { user_code = w.user_code; workflow = w.id; path = alert_path s.space } ∷ [];
    }
    else s

-- The lines under `if task.workflow.parent`; the status that the parent's task is given is not saved.
unfoldable pub fail_parent :
    (Option String → Exec Store Unit) → Option String → Option ℕ → Exec Store Unit
fail_parent rec node_id none = pure tt
fail_parent rec node_id (some p) = do
  parent ← get_workflow p
  task ← get_task_of_node parent.id node_id
  rec task.celery_task_id

unfoldable pub fail_workflow :
    Env → (Option String → Exec Store Unit) → Failure → Workflow → Exec Store Unit
unfolding fail_parent
fail_workflow env rec f w = do
  modify (save_workflow env (failed_workflow f w))
  fail_parent rec w.node_id w.parent
  modify (send_alert (failed_workflow f w))

unfoldable pub failure_step :
    Env → (Option String → Exec Store Unit) → Failure → Option String → Exec Store Unit
failure_step env rec f task_id = do
  set_schema_from_context f.context
  t ← get_celery_task task_id
  w ← get_workflow t.workflow
  now ← gets (λ s. s.clock)
  modify (put_task (failed_task env now f t))
  fail_workflow env rec f w

-- The calls go up through the parents; the first argument bounds how far.
unfoldable pub on_failure : ℕ → Env → Failure → Option String → Exec Store Unit
unfolding failure_step
on_failure zero env f task_id = raise out_of_fuel
on_failure (suc n) env f task_id = failure_step env (on_failure n env f) f task_id

-- self.update_progress(progress), where `t` is `self.task`: the row is read again
unfoldable pub update_progress : Env → Task → Json → Exec Store Unit
update_progress env t progress = do
  row ← get_task t.id
  modify (put_task (record row { progress_data = write_column env.codec progress }))

-- if not self.task.log: self.task.log = ""
abbrev pub log_of : Task → String
log_of t = elim t.log [ none ↦ "" | some l ↦ l ]

abbrev pub logged_task : String → Task → Task
logged_task message t = record t { log = some (str_append (str_append (log_of t) message) "\n") }

-- self.log(message): `self.task` itself is changed and saved, and is returned here
unfoldable pub log : Task → String → Exec Store Task
log t message = do modify (put_task (logged_task message t)); pure (logged_task message t)

-- exclude(id__in=[...]).filter(user_code=..., status=PROGRESS)
abbrev pub runs : String → Workflow → Bool
runs code w = holds_str w.user_code code && is_in_progress w.status

unfoldable pub is_workflow_already_running : Task → String → Store → Bool
is_workflow_already_running t code s =
    any (λ w. not (w.id == t.workflow) && runs code w) s.workflows
