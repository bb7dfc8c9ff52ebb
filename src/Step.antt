-- ===== src/Step.antt =====
-- The task `execute_workflow_step` of workflow/tasks/workflows.py: a step runs the code of its node,
-- launches a nested workflow, or calls the function that its module registers. What it imports and
-- executes is a parameter.
pub mod Nested
pub mod Tests
use Prim.Native.String.{len}
use text.Mathlib.Text.{find?, get?}
use finmars_workflow.Common.{
  ℕ, suc, ◌+◌, ◌-◌, String, Bool, true, false, not, ◌&&◌, Option, none, some, List, [], ◌∷◌, ◌++◌,
  ◌==◌, str_eq, str_append, find, if◌then◌else◌, holds_str, leb,
}
use finmars_workflow.Common.Dict.{Dict}
use finmars_workflow.Common.Exec.{
  Exec, Result, ok, err, Error, does_not_exist, type_error, value_error, attribute_error, exception,
  need, pure, raise, lift, gets, modify, attempt, ◌>>=◌, ◌>>◌,
}
use finmars_workflow.Json.{
  Json, null, bool, num, minus, str, arr, obj, end, Items, nil, cons, get, or_null,
}
use finmars_workflow.Models.{
  Env, User, Workflow, WorkflowTemplate, WorkflowStatus, Task, TaskStatus, Space, Store, Context,
  execute_workflow_v2,
}
use finmars_workflow.Models.Payload.{get_payload, set_payload}
use finmars_workflow.Models.Tables.{get_one, get_workflow, put_task}
use finmars_workflow.Tenancy.{set_schema_from_context}
use finmars_workflow.Engine.{send}
use finmars_workflow.System.{Config, get_synced}
use finmars_workflow.Builder.{Canvas, Progress, run}
use finmars_workflow.Launch.{World, at_store, add_workflow, blank_workflow, is_template, synced}

-- A name that ends in ".task" without that ending.
unfoldable pub without_task : String → String
without_task name =
    if holds_str (get? name (len name - 5) (len name)) ".task" && leb 5 (len name)
    then elim (get? name 0 (len name - 5)) [ none ↦ name | some rest ↦ rest ]
    else name

-- int(version) == 2; `int` reads a text, or raises
unfoldable pub is_two : (String → Result ℕ) → Option Json → Result Bool
is_two int none = ok false
is_two int (some (num n)) = ok (n == 2)
is_two int (some (minus n)) = ok false
is_two int (some (bool b)) = ok false
is_two int (some (str v)) = elim (int v) [ ok n ↦ ok (n == 2) | err e ↦ err e ]
is_two int (some _) = err type_error

abbrev pub nested_workflow : Env → Workflow → Task → String → Json → ℕ → ℕ → Workflow
nested_workflow env w t code payload template k =
    set_payload env.codec payload (record (blank_workflow w.owner code (some template) k) {
      node_id = t.node_id;
      parent = some w.id;
    })

-- Paths of Python's library: replace(".", "/").replace(":", "/"), normpath(join(_, _)), and
-- rsplit("/", maxsplit=1), which has one part where there is no "/".
pub record Paths : Type 0 where
  pub slashed : String → String
  pub resolve : String → String → String
  pub rsplit : String → Option (String × String)

-- What a step calls outside of the engine: `int` of a text; the copying of files that match patterns
-- from storage; the import of a module, with the function that it registers, if any; and `exec` of a
-- node's code, with the `main` that it defines, if any.
pub record Outside : Type 0 where
  pub paths : Paths
  pub int : String → Result ℕ
  pub sync : String → List String → Exec World Unit
  pub import_user_tasks : String → Exec World (Option (Task → Json → Exec World Json))
  pub exec_source : String → Exec World (Option (Task → Json → Exec World Json))

has_wildcard : String → Bool
has_wildcard segment = elim (find? segment "*") [
  | some _ ↦ true
  | none ↦ elim (find? segment "?") [ none ↦ false | some _ ↦ true ]
]

-- One element of the imports: a last segment with a wildcard is the pattern.
sync_extra : Outside → String → Exec World Unit
unfolding has_wildcard
sync_extra out path = elim (out.paths.rsplit path) [
  | none ↦ if has_wildcard path then raise value_error else out.sync path ("*.*" ∷ [])
  | some (dir, segment) ↦
      if has_wildcard segment then out.sync dir (segment ∷ []) else out.sync path ("*.*" ∷ [])
]

sync_all : Outside → String → Items → Exec World Unit
sync_all out module_path nil = pure tt
sync_all out module_path (cons (str p) ps) =
    sync_extra out (out.paths.resolve module_path p) >> sync_all out module_path ps
sync_all out module_path (cons _ ps) = raise type_error

-- imports, or imports.get("dirs") of a dictionary, where it is a list
sync_imports : Outside → String → Json → Exec World Unit
unfolding sync_all sync_extra
sync_imports out module_path (arr ps) = sync_all out module_path ps
sync_imports out module_path (obj fs) = elim (or_null (get "dirs" fs)) [
  | arr ps ↦ sync_all out module_path ps
  | _ ↦ pure tt
]
sync_imports out module_path _ = pure tt

-- A task of a version 1 workflow, by its path: its files are fetched, and its function is called.
unfoldable pub run_function : Outside → Task → String → Json → Json → Exec World Json
unfolding sync_imports
run_function out t path payload imports = do
  let module_path = out.paths.slashed path
  out.sync module_path ("*.yaml" ∷ "*.yml" ∷ "*.json" ∷ "*.py" ∷ [])
  sync_imports out module_path imports
  function ← out.import_user_tasks module_path
  elim function [ none ↦ raise (exception "no function to execute") | some f ↦ f t payload ]

-- A node with code of its own: without a `main` nothing more is run, and the result is None.
unfoldable pub run_source : Outside → Task → String → Json → Exec World Json
run_source out t code payload = do
  main ← out.exec_source code
  elim main [ none ↦ pure null | some f ↦ f t payload ]

module _ (env : Env) (reload : String → Result (Dict Config)) (out : Outside) where
  -- `t` is `self.task`, and `w` its workflow.
  unfoldable pub nest : Workflow → Task → String → Json → Context → Exec Store Json
  nest w t code payload context = do
    template ←
        attempt (λ s. (get_one (is_template code) s.templates, s))
          (λ _. raise (exception "No target_workflow_template"))
    k ← gets (λ s. s.next_workflow)
    modify (add_workflow (nested_workflow env w t code payload template.id))
    modify (send (execute_workflow_v2 k (some context)))
    modify (put_task (record t { status = TaskStatus.nested_progress }))
    pure null

  -- The branch of a task without code, by the task's name and the context.
  unfoldable pub run_named :
      Workflow → Task → Json → Json → Option Context → Option String → Exec World Json
  run_named w t payload imports context name_of = do
    name ← need attribute_error name_of
    ctx ← need attribute_error context
    space ← need attribute_error ctx.space_code
    c ← synced reload (str_append space (str_append "." (without_task name)))
    two ← lift (is_two out.int c.version)
    if two
        then at_store (nest w t (without_task name) payload ctx)
        else run_function out t (without_task name) payload imports

  -- if self.task.source_code
  run_step : Workflow → Task → Json → Json → Option Context → Option String → Exec World Json
  run_step w t payload imports context none = run_named w t payload imports context t.name
  run_step w t payload imports context (some code) =
      if str_eq code ""
      then run_named w t payload imports context t.name
      else run_source out t code payload

  unfoldable pub execute_workflow_step : Task → Json → Json → Option Context → Exec World Json
  unfolding run_step
  execute_workflow_step t payload imports context = do
    at_store (set_schema_from_context context)
    w ← at_store (get_workflow t.workflow)
    run_step w t payload imports context t.source_code
