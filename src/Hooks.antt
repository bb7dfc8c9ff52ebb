-- ===== src/Hooks.antt =====
-- The Celery tasks `failure_hooks_launcher` and `execute` of workflow/tasks/workflows.py: the hooks of a
-- failed workflow, and the launch of a scheduled one. The registered task names and `apply_async` of the
-- chain are parameters.
pub mod Launched
pub mod Scheduled
pub mod Tests
use finmars_workflow.Common.{
  ℕ, ◌+◌, String, Bool, true, false, Option, none, some, List, [], ◌∷◌, ◌++◌, ◌==◌, str_eq, find,
  map, if◌then◌else◌, holds_str,
}
use finmars_workflow.Common.Dict.{Dict}
use finmars_workflow.Common.Exec.{
  Exec, Result, ok, err, does_not_exist, attribute_error, pure, raise, lift, gets, modify, need,
  attempt, ◌>>=◌, ◌>>◌,
}
use finmars_workflow.Json.{Json}
use finmars_workflow.Models.{
  Env, User, Workflow, Task, TaskStatus, Space, Store, Context, Message,
  mark_as_canceled_init_tasks,
}
use finmars_workflow.Models.Tables.{add_task}
use finmars_workflow.Tenancy.{set_schema_from_context}
use finmars_workflow.Engine.{send}
use finmars_workflow.NextNode.{draw}
use finmars_workflow.System.{Config}
use finmars_workflow.Builder.{Canvas}
use finmars_workflow.Schedules.Rows.{Schedule, has_id}
use finmars_workflow.Launch.{World, at_store, Order, execute_workflow}

-- celery_app.tasks.get(task_name).subtask(...)
pub record HookSignature : Type 0 where
  pub name : String
  pub task_id : String
  pub workflow_id : ℕ
  pub payload : Json
  pub context : Option Context

abbrev pub hook_task : String → String → ℕ → ℕ → Task
hook_task task_id name w k = record {
  id = k;
  workflow = w;
  node_id = none;
  celery_task_id = some task_id;
  name = some name;
  source_code = none;
  status = TaskStatus.init;
  worker_name = none;
  payload_data = none;
  result_data = none;
  progress_data = none;
  previous_data = none;
  log = none;
  error_message = none;
  is_hook = true;
  finished_at = none;
}

module _ (env : Env) (is_registered : String → Bool) where
  -- One turn of the loop; a name that is not registered has no task, and None has no `subtask`.
  unfoldable pub new_hook : ℕ → Json → Option Context → String → Exec Store HookSignature
  new_hook w payload context name = do
    task_id ← draw env
    if is_registered name
        then (do
          modify (add_task (hook_task task_id name w))
          pure (record {
            name = name;
            task_id = task_id;
            workflow_id = w;
            payload = payload;
            context = context;
          }))
        else raise attribute_error

  unfoldable pub new_hooks :
      ℕ → Json → Option Context → List String → Exec Store (List HookSignature)
  new_hooks w payload context [] = pure []
  new_hooks w payload context (name ∷ names) = do
    hook ← new_hook w payload context name
    hooks ← new_hooks w payload context names
    pure (hook ∷ hooks)

  -- What the finished chain raises is logged; the message at the end names no context.
  unfoldable pub failure_hooks_launcher :
      (String → List HookSignature → Exec Store Unit)
      → ℕ
      → List String
      → Json
      → Option Context
      → Exec Store Unit
  failure_hooks_launcher apply_async w names payload context = do
    set_schema_from_context context
    hooks ← new_hooks w payload context names
    chain_id ← draw env
    apply_async chain_id hooks
    draw env
    modify (send (mark_as_canceled_init_tasks w none))

pub record Beat : Type 0 where
  pub world : World
  pub schedules : List Schedule

abbrev pub at_world : {A : Type 0} → Exec World A → Exec Beat A
at_world m b = let (r, x) = m b.world in (r, record b { world = x })

-- Schedule.objects.filter(id=schedule_id).update(last_run_at=now())
abbrev pub touch : Option ℕ → Beat → Beat
touch none b = b
touch (some k) b = record b {
  schedules =
      map (λ c. if has_id k c then record c { last_run_at = some b.world.store.clock } else c)
        b.schedules;
}

abbrev pub get_schedule : Option ℕ → Exec Beat Schedule
get_schedule none b = (err does_not_exist, b)
get_schedule (some k) b = need does_not_exist (find (has_id k) b.schedules) b

-- Space.objects.get(space_code=...)
abbrev pub get_space : Option String → Exec Store Space
get_space code s =
    if holds_str code s.space.space_code then (ok s.space, s) else (err does_not_exist, s)

module _ (env : Env) (reload : String → Result (Dict Config))
    (apply_async : Canvas → Result {0} Unit) where
  -- What is raised is logged, and None returned.
  unfoldable pub execute :
      String → Option Json → Option Context → Option ℕ → Option ℕ → Exec Beat (Option Workflow)
  execute user_code payload context schedule_id crontab_id =
      attempt
        (do
          at_world (at_store (set_schema_from_context context))
          modify (touch schedule_id)
          schedule ← get_schedule schedule_id
          owner ← at_world (
              at_store
                (λ s. need does_not_exist (find (λ u. str_eq u.username schedule.owner) s.users) s))
          ctx ← need attribute_error context
          space ← at_world (at_store (get_space ctx.space_code))
          launched ← at_world (
              execute_workflow env reload apply_async (record {
                username = owner.username;
                user_code = user_code;
                payload = payload;
                realm_code = space.realm_code;
                space_code = some space.space_code;
                platform_task_id = none;
                crontab = crontab_id;
              }))
          pure (some launched))
        (λ _. pure none)
