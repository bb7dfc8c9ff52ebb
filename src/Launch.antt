-- ===== src/Launch.antt =====
-- Launching a workflow: `execute_workflow` of workflow/workflows.py, `Workflow.run_new_workflow` of
-- workflow/models.py, and the actions `run_workflow` and `relaunch` of workflow/views.py. Loading the
-- registry again and Celery's `apply_async` of a canvas are parameters.
pub mod Rows
pub mod Tests
use Prim.Native.String.{len}
use text.Mathlib.Text.{find?, get?}
use finmars_workflow.Common.{
  ℕ, suc, ◌+◌, ◌-◌, String, Bool, true, false, not, ◌&&◌, Option, none, some, List, [], ◌∷◌, ◌++◌,
  ◌==◌, str_eq, str_append, find, if◌then◌else◌, holds_str, leb,
}
use finmars_workflow.Common.Dict.{Dict}
use finmars_workflow.Common.Exec.{
  Exec, Result, ok, err, Error, does_not_exist, type_error, value_error, attribute_error, exception,
  need, pure, raise, lift, gets, modify, attempt, ◌>>=◌, ◌>>◌,
}
use finmars_workflow.Json.{
  Json, null, bool, num, minus, str, arr, obj, end, Items, nil, cons, get, or_null,
}
use finmars_workflow.Models.{
  Env, User, Workflow, WorkflowTemplate, WorkflowStatus, Task, TaskStatus, Space, Store, Context,
  execute_workflow_v2,
}
use finmars_workflow.Models.Payload.{get_payload, set_payload}
use finmars_workflow.Models.Tables.{get_one, get_workflow, put_task}
use finmars_workflow.Tenancy.{set_schema_from_context}
use finmars_workflow.Engine.{send}
use finmars_workflow.System.{Config, get_synced}
use finmars_workflow.Builder.{Canvas, Progress, run}

-- The tenant's store, and the registry of the process.
pub record World : Type 0 where
  pub store : Store
  pub configs : Dict Config

-- An operation on the store, as one on both.
abbrev pub at_store : {A : Type 0} → Exec Store A → Exec World A
at_store m x = let (r, s) = m x.store in (r, record x { store = s })

get_user : String → Exec Store User
get_user name s = need does_not_exist (find (λ u. str_eq u.username name) s.users) s

-- Space.objects.get(space_code=...)
get_space : Option String → Exec Store Space
get_space code s =
    if holds_str code s.space.space_code then (ok s.space, s) else (err does_not_exist, s)

-- ".".join(user_code.split(".")[1:]): what follows the first point
unfoldable pub after_point : String → String
after_point code = elim (find? code ".") [
  | none ↦ ""
  | some i ↦ elim (get? code (suc i) (len code)) [ none ↦ "" | some rest ↦ rest ]
]

abbrev pub is_template : String → WorkflowTemplate → Bool
is_template code t = holds_str t.user_code code

-- WorkflowTemplate.objects.get(...), where DoesNotExist leaves None
template_or_none : Result WorkflowTemplate → Result (Option ℕ)
template_or_none (ok t) = ok (some t.id)
template_or_none (err does_not_exist) = ok none
template_or_none (err e) = err e

-- A new row, the newest one, with the next id of the sequence; it is new, so that `save` tells the
-- platform nothing.
abbrev pub add_workflow : (ℕ → Workflow) → Store → Store
add_workflow make s = record s {
  workflows = make s.next_workflow ∷ s.workflows;
  next_workflow = s.next_workflow + 1;
}

-- Workflow(...) with its default columns, before the payload is set
abbrev pub blank_workflow : ℕ → String → Option ℕ → ℕ → Workflow
blank_workflow owner code template k = record {
  id = k;
  workflow_template = template;
  current_node_id = none;
  last_task_output = none;
  node_id = none;
  user_code = some code;
  status = WorkflowStatus.init;
  payload_data = none;
  periodic = false;
  is_manager = false;
  platform_task_id = none;
  owner = owner;
  crontab = none;
  finished_at = none;
  parent = none;
}

abbrev pub manages : Config → Bool
manages c = elim c.is_manager [ none ↦ false | some b ↦ b ]

-- wf.get("version") == "2": the number 2 is not the text
abbrev pub is_text_two : Option Json → Bool
is_text_two (some (str v)) = str_eq v "2"
is_text_two _ = false

-- The arguments of `execute_workflow`.
pub record Order : Type 0 where
  pub username : String
  pub user_code : String
  pub payload : Option Json
  pub realm_code : Option String
  pub space_code : Option String
  pub platform_task_id : Option ℕ
  pub crontab : Option ℕ

abbrev pub payload_or_empty : Option Json → Json
payload_or_empty none = obj end
payload_or_empty (some v) = v

unfoldable pub ordered : Env → Order → ℕ → Option ℕ → Config → ℕ → Workflow
ordered env o owner template c k =
    set_payload env.codec (payload_or_empty o.payload)
      (record (blank_workflow owner o.user_code template k) {
        is_manager = manages c;
        platform_task_id = o.platform_task_id;
        crontab = o.crontab;
      })

abbrev pub order_context : Order → Option Context
order_context o = some (record { realm_code = o.realm_code; space_code = o.space_code })

-- get_by_user_code(user_code, sync_remote=True)
unfoldable pub synced : (String → Result (Dict Config)) → String → Exec World Config
synced reload code x = elim (get_synced reload code x.configs) [
  | ok (c, configs) ↦ (ok c, record x { configs = configs })
  | err e ↦ (err e, x)
]

-- A code that contains the space's code anywhere is not given it as a prefix.
unfoldable pub full_code : String → String → String
full_code space code = elim (find? code space) [
  | some _ ↦ code
  | none ↦ str_append space (str_append "." code)
]

module _ (env : Env) (reload : String → Result (Dict Config))
    (apply_async : Canvas → Result {0} Unit) where
  -- The builder of version 1, on a builder's own state.
  run_canvas : Workflow → Config → Exec Store Unit
  run_canvas w c s =
      let (r, b) = run env apply_async w c (record { store = s; previous = some [] }) in
      (r, b.store)

  unfoldable pub execute_workflow : Order → Exec World Workflow
  unfolding get_user get_space template_or_none run_canvas
  execute_workflow o = do
    user ← at_store (get_user o.username)
    c ← synced reload o.user_code
    space ← at_store (get_space o.space_code)
    found ← gets (λ x. get_one (is_template (after_point o.user_code)) x.store.templates)
    template ← lift (template_or_none found)
    row ← gets (λ x. ordered env o user.id template c x.store.next_workflow)
    modify (λ x. record x { store = add_workflow (ordered env o user.id template c) x.store })
    if is_text_two c.version
        then at_store (modify (send (execute_workflow_v2 row.id (order_context o))))
        else at_store (run_canvas row c)
    pure row

  -- The owner is the user whose id the workflow holds.
  unfoldable pub run_new_workflow : Workflow → String → Option Json → Exec World Workflow
  run_new_workflow w code payload =
      if str_eq code ""
      then raise (exception "User code is required.")
      else if not w.is_manager
      then raise (exception "Workflow is not manager. Can't run new workflow.")
      else do
        space ← gets (λ x. x.store.space)
        let full = str_append space.space_code (str_append "." code)
        c ← synced reload full
        if manages c
            then raise (exception "New Workflow is manager. Manager can't execute another manager")
            else do
              owner ← at_store (λ s. need does_not_exist (find (λ u. u.id == w.owner) s.users) s)
              execute_workflow (record {
                username = owner.username;
                user_code = full;
                payload = payload;
                realm_code = space.realm_code;
                space_code = some space.space_code;
                platform_task_id = none;
                crontab = none;
              })

  -- request.data, and the space code that the middleware left on the request.
  unfoldable pub run_workflow : Order → String → Exec World Workflow
  run_workflow o space = do
    let full = full_code space o.user_code
    _ ← synced reload full
    execute_workflow (record o { user_code = full; space_code = some space; crontab = none })

  -- A workflow without user code makes the registry's lookup split None.
  unfoldable pub relaunch : String → Option String → String → ℕ → Exec World Workflow
  relaunch username realm space k = do
    w ← at_store (get_workflow k)
    code ← need attribute_error w.user_code
    execute_workflow (record {
      username = username;
      user_code = code;
      payload = some (get_payload env.codec w);
      realm_code = realm;
      space_code = some space;
      platform_task_id = none;
      crontab = none;
    })
