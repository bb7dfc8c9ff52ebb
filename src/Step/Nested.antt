-- ===== src/Step/Nested.antt =====
-- What a step adds that launches a nested workflow.
use finmars_workflow.Common.{
  ℕ, ◌+◌, ◌<◌, String, ◌≡◌, refl, Bool-cases, str_eq, inl, inr, true, false, Option, none, some,
  List, [], ◌∷◌, arith, ap, ◌∙◌, str_append, All, truthy_str,
}
use finmars_workflow.Common.Dict.{Dict}
use finmars_workflow.Common.Exec.{Result, ok, err}
use finmars_workflow.Json.{Json, null}
use finmars_workflow.Models.{
  Env, Workflow, WorkflowTemplate, Task, TaskStatus, Store, Context, execute_workflow_v2,
}
use finmars_workflow.Models.Payload.{set_payload}
use finmars_workflow.Models.Tables.{get_one, get_workflow, put_task}
use finmars_workflow.Tenancy.{set_schema_from_context}
use finmars_workflow.Engine.{send}
use finmars_workflow.Success.Found.{Descends}
use finmars_workflow.System.{Config, get_synced}
use finmars_workflow.Launch.Rows.{synced_ok}
use finmars_workflow.Launch.{World, add_workflow, is_template}
use finmars_workflow.Step.{
  nested_workflow, nest, run_named, run_step, Outside, execute_workflow_step, is_two, without_task,
}

-- Every id is below the next one of the sequence, and every parent is older than its nested workflow.
abbrev pub IsGrown : Store → Type 0
IsGrown s = All (λ w. w.id < s.next_workflow) s.workflows × Descends s.workflows

-- The context that a step is given.
abbrev pub step_context : Option String → String → Option Context
step_context realm space = some (record { realm_code = realm; space_code = some space })

All-weaken : (k : ℕ) (ws : List Workflow) → All (λ w. w.id < k) ws → All (λ w. w.id < k + 1) ws
All-weaken k [] h = tt
All-weaken k (w ∷ ws) h = (omega (arith, h.0), All-weaken k ws h.1)

module _ (env : Env) (reload : String → Result (Dict Config)) (out : Outside) where
  nest_ok :
      (w : Workflow) (t : Task) (code : String) (payload : Json) (context : Context) (s : Store)
      (template : WorkflowTemplate)
      → get_one (is_template code) s.templates ≡ ok template
      → nest env reload out w t code payload context s ≡ (
        ok null,
        put_task
            (record t { status = TaskStatus.nested_progress })
            (send
              (execute_workflow_v2 s.next_workflow (some context))
              (add_workflow (nested_workflow env w t code payload template.id) s)),
      )
  unfolding nest
  nest_ok w t code payload context s template h = rw h refl

  run_step_named :
      (w : Workflow) (t : Task) (payload imports : Json) (context : Option Context)
      (code : Option String) (x : World)
      → truthy_str code ≡ false
      → run_step env reload out w t payload imports context code x
        ≡ run_named env reload out w t payload imports context t.name x
  unfolding run_step
  run_step_named w t payload imports context none x h = refl
  run_step_named w t payload imports context (some code) x h = elim (Bool-cases (str_eq code "")) [
    | inl e ↦ rw e refl
    | inr e ↦ ground arith
  ]

  -- A step whose name is a workflow of version 2 in its space adds one row for the nested workflow,
  -- with the step's node and workflow as its node and parent, sends one message that launches it in
  -- the step's context, and leaves its task to wait for it.
  pub execute_workflow_step_nests :
      (t : Task) (payload imports : Json) (realm : Option String) (x : World) (s : Store)
      (w : Workflow) (name space : String) (c : Config) (configs : Dict Config)
      (template : WorkflowTemplate)
      → set_schema_from_context (step_context realm space) x.store ≡ (ok tt, s)
      → get_workflow t.workflow s ≡ (ok w, s)
      → truthy_str t.source_code ≡ false
      → t.name ≡ some name
      → get_synced reload (str_append space (str_append "." (without_task name))) x.configs
        ≡ ok (c, configs)
      → is_two out.int c.version ≡ ok true
      → get_one (is_template (without_task name)) s.templates ≡ ok template
      → execute_workflow_step env reload out t payload imports (step_context realm space) x ≡ (
        ok null,
        record {
          store =
              put_task
                (record t { status = TaskStatus.nested_progress })
                (send (execute_workflow_v2 s.next_workflow (step_context realm space)) (
                  add_workflow
                    (nested_workflow env w t (without_task name) payload template.id)
                    s));
          configs = configs;
        },
      )
  unfolding execute_workflow_step run_named
  execute_workflow_step_nests t payload imports realm x s w name space c configs template hs hw hc
        hn hy hv ht =
      let ctx : Context = record { realm_code = realm; space_code = some space } in
      let x' : World = record { store = s; configs = x.configs } in
      rw (hs, hw)
        (run_step_named w t payload imports (some ctx) t.source_code x' hc
          ∙ ap (λ o. run_named env reload out w t payload imports (some ctx) o x') hn
          ∙ rw
              (
                synced_ok reload (str_append space (str_append "." (without_task name))) x' c
                    configs hy,
                hv,
                nest_ok w t (without_task name) payload ctx s template ht,
              )
              refl)

  -- A nested workflow gets a larger id than its parent, so that parents stay older than the workflows
  -- nested in them and ids stay below the next one, whether the launch succeeds or not.
  pub nest-IsGrown :
      (w : Workflow) (t : Task) (code : String) (payload : Json) (context : Context) (s : Store)
      → IsGrown s
      → w.id < s.next_workflow
      → IsGrown (nest env reload out w t code payload context s).1
  unfolding nest set_payload
  nest-IsGrown w t code payload context s h le = go (get_one (is_template code) s.templates) refl
    where
      go :
          (r : Result WorkflowTemplate)
          → get_one (is_template code) s.templates ≡ r
          → IsGrown (nest env reload out w t code payload context s).1
      go (ok template) e =
          rw e ((omega arith, All-weaken s.next_workflow s.workflows h.0), (le, h.1))
      go (err x) e = rw e h
