-- ===== src/System.antt =====
-- The registry of workflows, `SystemWorkflowManager` of workflow/system.py: the configurations that
-- were loaded, what the builder reads of them, and the canceling of a dead worker's tasks. What
-- loading the files from storage again gives is a parameter, `reload`.
pub mod Worker
pub mod Sync
pub mod Register
pub mod Imports
pub mod Tests
use finmars_workflow.Common.{
  ℕ, String, Bool, true, false, ◌&&◌, ◌||◌, Option, none, some, List, [], ◌∷◌, ◌++◌, map, ◌==◌,
  str_eq, select, any, truthy_str, holds_str, if◌then◌else◌,
}
use finmars_workflow.Common.Dict.{Dict, lookup}
use finmars_workflow.Common.Exec.{Exec, Result, ok, err, not_found}
use finmars_workflow.Json.{Json, null, str, or_null}
use finmars_workflow.Models.{
  Env, Workflow, WorkflowStatus, Task, TaskStatus, Store, is_active, is_running,
}
use finmars_workflow.Models.Tables.{put_task}
use finmars_workflow.Models.Cancel.{cancel, canceled_task, revoke}

-- An element of "tasks": a name; a dictionary, by what its first key holds under "type" and "tasks";
-- an empty dictionary; or anything else.
pub data Step : Type 0 where
  single : String → Step
  group : Option String → Option (List String) → Step
  empty other : Step

-- What a configuration holds under "workflow", and its "version".
pub record Config : Type 0 where
  pub queue : Option Json
  pub tasks : Option (List Step)
  pub hooks : Option (Dict String)
  pub imports : Option Json
  pub is_manager : Option Bool
  pub version : Option Json

abbrev pub found : Option Config → Result Config
found none = err (not_found "Workflow not found")
found (some c) = ok c

unfoldable pub get_by_user_code : String → Dict Config → Result Config
get_by_user_code code configs = found (lookup code configs)

-- get_by_user_code(user_code, sync_remote=True): the registry that it leaves comes back too
unfoldable pub get_synced :
    (String → Result (Dict Config)) → String → Dict Config → Result (Config × Dict Config)
get_synced reload code configs = elim (lookup code configs) [
  | some c ↦ ok (c, configs)
  | none ↦ elim (reload code) [
    | err e ↦ err e
    | ok configs' ↦ elim (lookup code configs') [
      | none ↦ err (not_found "Workflow not found")
      | some c ↦ ok (c, configs')
    ]
  ]
]

-- get_tasks, get_hook_task, get_queue and get_imports of a configuration
abbrev pub get_tasks : Config → List Step
get_tasks c = elim c.tasks [ none ↦ [] | some ts ↦ ts ]

abbrev pub get_hook_task : String → Config → Option String
get_hook_task hook c = elim c.hooks [ none ↦ none | some hs ↦ lookup hook hs ]

abbrev pub get_queue : Config → Json
get_queue c = elim c.queue [ none ↦ str "workflow" | some q ↦ q ]

abbrev pub get_imports : Config → Json
get_imports c = or_null c.imports

-- status in [PROGRESS, INIT]
abbrev pub is_open : WorkflowStatus → Bool
is_open WorkflowStatus.progress = true
is_open WorkflowStatus.init = true
is_open _ = false

cancel_all : Env → List Workflow → Store → Store
cancel_all env [] s = s
cancel_all env (w ∷ ws) s = cancel_all env ws (cancel env w s)

-- The second loop: a task is revoked if it has a Celery id.
unfoldable pub drop_task : Task → Store → Store
drop_task t s =
    put_task (canceled_task s.clock t) (if truthy_str t.celery_task_id then revoke t s else s)

unfoldable pub drop_tasks : List Task → Store → Store
unfolding drop_task
drop_tasks [] s = s
drop_tasks (t ∷ ts) s = drop_tasks ts (drop_task t s)

abbrev pub is_of_worker : String → Task → Bool
is_of_worker worker t = is_active t.status && holds_str t.worker_name worker

-- Workflow.objects.filter(status__in=[PROGRESS, INIT], id__in=[task.workflow_id for task in tasks])
abbrev pub workflows_of : String → Store → List Workflow
workflows_of worker s =
    let owners =
      map (λ t. t.workflow)
        (select (λ t. is_running t.status && holds_str t.worker_name worker) s.tasks) in
    select (λ w. is_open w.status && any (λ k. k == w.id) owners) s.workflows

unfoldable pub cancel_all_existing_tasks : Env → String → Store → Store
unfolding cancel_all drop_tasks
cancel_all_existing_tasks env worker s =
    let s' = cancel_all env (workflows_of worker s) s in
    drop_tasks (select (is_of_worker worker) s'.tasks) s'
