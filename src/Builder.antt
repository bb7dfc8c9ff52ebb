-- ===== src/Builder.antt =====
-- `WorkflowBuilder` of workflow/builder.py: the Celery canvas of a workflow of version 1, and the
-- rows of its tasks.
pub mod Chain
pub mod Rows
pub mod Tests
use finmars_workflow.Common.{
  ℕ, ◌+◌, String, Bool, true, false, ◌&&◌, Option, none, some, List, [], ◌∷◌, ◌++◌, map, str_append,
  str_eq, if◌then◌else◌,
}
use finmars_workflow.Common.Exec.{
  Exec, Result, ok, err, key_error, index_error, syntax_error, pure, raise, lift, gets, modify,
  attempt, ◌>>=◌, ◌>>◌,
}
use finmars_workflow.Json.{
  Json, null, bool, num, minus, str, arr, obj, Items, nil, cons, Fields, end, field, get,
}
use finmars_workflow.Models.{Env, Workflow, WorkflowStatus, Task, TaskStatus, Space, Store, Context}
use finmars_workflow.Models.Payload.{get_payload, write_column}
use finmars_workflow.Models.Tables.{add_task}
use finmars_workflow.Models.Save.{save_workflow}
use finmars_workflow.Success.{space_context}
use finmars_workflow.System.{
  Step, single, group, empty, other, Config, get_tasks, get_hook_task, get_queue, get_imports,
}

-- The Celery signature of one step.
pub record StepSignature : Type 0 where
  pub task_id : String
  pub workflow_id : ℕ
  pub payload : Json
  pub context : Option Context
  pub imports : Json
  pub queue : Json

-- The elements of a chain; a group has an id of its own, and `moved` is `.set(queue=...)`.
pub data Link : Type 0 where
  start_link end_link : ℕ → Option Context → String → Link
  step_link : StepSignature → Link
  group_link : String → List StepSignature → Link
  moved : String → Link → Link
  failure_link : ℕ → String → List String → Json → Option Context → Link

-- The queues after `parse_queues`.
pub record Queues : Type 0 where
  pub default : String
  pub customs : Fields

-- isinstance(queue, str) and isinstance(customs, dict)
both_typed : Json → Json → Result Queues
both_typed (str q) (obj fs) = ok (record { default = q; customs = fs })
both_typed _ _ = err syntax_error

get_or : Json → String → Fields → Json
get_or d k fs = elim (get k fs) [ none ↦ d | some v ↦ v ]

unfoldable pub parse_queues : Json → Result Queues
unfolding both_typed get_or
parse_queues (obj fs) =
    both_typed (get_or (str "celery") "default" fs) (get_or (obj end) "customs" fs)
parse_queues q = both_typed q (obj end)

-- What is fixed while tasks are parsed.
pub record Plan : Type 0 where
  pub workflow : Workflow
  pub queues : Queues
  pub imports : Json

-- The store, and `self.previous`.
pub record Progress : Type 0 where
  pub store : Store
  pub previous : Option (List String)

-- A list of texts as JSON, for the column.
abbrev pub texts : List String → Items
texts [] = nil
texts (t ∷ ts) = cons (str t) (texts ts)

abbrev pub previous_json : Option (List String) → Json
previous_json none = null
previous_json (some ts) = arr (texts ts)

-- self.custom_queues.get(prefixed_name, self.queue)
queue_of : Queues → Space → String → Json
unfolding get_or
queue_of qs p name =
    get_or (str qs.default) (str_append p.space_code (str_append "." name)) qs.customs

abbrev pub planned_task : Env → Plan → String → String → Bool → Option (List String) → ℕ → Task
planned_task env plan task_id name is_hook previous k = record {
  id = k;
  workflow = plan.workflow.id;
  node_id = none;
  celery_task_id = some task_id;
  name = some name;
  source_code = none;
  status = TaskStatus.init;
  worker_name = none;
  payload_data = none;
  result_data = none;
  progress_data = none;
  previous_data = write_column env.codec (previous_json previous);
  log = none;
  error_message = none;
  is_hook = is_hook;
  finished_at = none;
}

module _ (env : Env) (plan : Plan) where
  -- new_task(name, is_hook, single): `self.previous` moves on only for a single task
  unfoldable pub new_task : Bool → Bool → String → Exec Progress StepSignature
  unfolding queue_of
  new_task is_hook alone name b =
      let task_id = env.uuid b.store.drawn in
      let drawn = record b.store { drawn = b.store.drawn + 1 } in
      (
        ok (record {
          task_id = task_id;
          workflow_id = plan.workflow.id;
          payload = get_payload env.codec plan.workflow;
          context = space_context b.store.space;
          imports = plan.imports;
          queue = queue_of plan.queues b.store.space name;
        }),
        record {
          store = add_task (planned_task env plan task_id name is_hook b.previous) drawn;
          previous = if alone then some (task_id ∷ []) else b.previous;
        },
      )

  unfoldable pub new_tasks : Bool → List String → Exec Progress (List StepSignature)
  new_tasks is_hook [] = pure []
  new_tasks is_hook (name ∷ names) = do
    sig ← new_task is_hook false name
    sigs ← new_tasks is_hook names
    pure (sig ∷ sigs)

  -- group(*tasks, task_id=uuid())
  unfoldable pub close_group : List StepSignature → Exec Progress Link
  close_group sigs b = (
    ok (group_link (env.uuid b.store.drawn) sigs),
    record {
      store = record b.store { drawn = b.store.drawn + 1 };
      previous = some (map (λ g. g.task_id) sigs);
    },
  )

  -- The test of the type reads a key that it has just found missing, and is false otherwise.
  unfoldable pub parse_step : Bool → Step → Exec Progress Link
  parse_step is_hook (single name) = do sig ← new_task is_hook true name; pure (step_link sig)
  parse_step is_hook (group none tasks) = raise key_error
  parse_step is_hook (group (some _) none) = raise key_error
  parse_step is_hook (group (some _) (some names)) = do
    sigs ← new_tasks is_hook names
    close_group sigs
  parse_step is_hook empty = raise index_error
  parse_step is_hook other = raise syntax_error

  unfoldable pub parse_flat_tasks : Bool → List Step → Exec Progress (List Link)
  parse_flat_tasks is_hook [] = pure []
  parse_flat_tasks is_hook (t ∷ ts) = do
    link ← parse_step is_hook t
    links ← parse_flat_tasks is_hook ts
    pure (link ∷ links)

  -- The one task of a hook, with `self.previous` empty, which afterwards is as before.
  unfoldable pub before_hook : Option String → List Link → Exec Progress (List Link)
  before_hook none canvas = pure canvas
  before_hook (some name) canvas = if str_eq name "" then pure canvas else do
    previous ← gets (λ b. b.previous)
    modify (λ b. record b { previous = none })
    sig ← new_task true true name
    modify (λ b. record b { previous = previous })
    pure (moved plan.queues.default (step_link sig) ∷ canvas)

  -- build_hooks(): the callbacks for a failure and for a success
  failure_hook : Option String → Exec Progress (List Link)
  failure_hook none = pure []
  failure_hook (some name) = if str_eq name "" then pure [] else do
    modify (λ b. record b { previous = none })
    context ← gets (λ b. space_context b.store.space)
    pure (
        moved plan.queues.default (
          failure_link plan.workflow.id plan.queues.default (name ∷ [])
            (get_payload env.codec plan.workflow) context)
        ∷ [])

  success_hook : Option String → Exec Progress (List Link)
  success_hook none = pure []
  success_hook (some name) =
      if str_eq name "" then pure [] else parse_flat_tasks true (single name ∷ [])

  unfoldable pub build_hooks : Config → Exec Progress (List Link × List Link)
  unfolding failure_hook success_hook
  build_hooks c = do
    previous ← gets (λ b. b.previous)
    failure ← failure_hook (get_hook_task "failure" c)
    success ← success_hook (get_hook_task "success" c)
    modify (λ b. record b { previous = previous })
    pure (failure, success)

-- build(), for the configuration that the registry holds for the workflow
unfoldable pub build : Env → Workflow → Config → Exec Progress (Plan × List Link)
build env w c = do
  modify (λ b. record b { previous = some [] })
  qs ← lift (parse_queues (get_queue c))
  let plan : Plan = record { workflow = w; queues = qs; imports = get_imports c }
  steps ← parse_flat_tasks env plan false (get_tasks c)
  canvas ← before_hook env plan (get_hook_task "before_start" c) steps
  context ← gets (λ b. space_context b.store.space)
  pure (plan, start_link w.id context qs.default ∷ canvas ++ end_link w.id context qs.default ∷ [])

-- What is handed to Celery: the chain with its id, and the callbacks.
pub record Canvas : Type 0 where
  pub task_id : String
  pub links : List Link
  pub link_error : List Link
  pub link : List Link

-- run() of a new builder; `apply_async` of Celery may raise, and the workflow is then in error
unfoldable pub run : Env → (Canvas → Result {0} Unit) → Workflow → Config → Exec Progress Unit
run env apply_async w c = do
  (plan, links) ← build env w c
  task_id ← gets (λ b. env.uuid b.store.drawn)
  modify (λ b. record b { store = record b.store { drawn = b.store.drawn + 1 } })
  (failure, success) ← build_hooks env plan c
  attempt
      (lift (
        apply_async
          (record { task_id = task_id; links = links; link_error = failure; link = success })))
      (λ e. do
        modify (λ b. record b {
          store = save_workflow env (record w { status = WorkflowStatus.error }) b.store;
        })
        raise e)
