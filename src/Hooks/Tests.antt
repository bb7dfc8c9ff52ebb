-- ===== src/Hooks/Tests.antt =====
-- The theorems on the failure hooks at a store with one workflow; the chain does nothing.
use finmars_workflow.Common.{String, ◌≡◌, refl, true, List, [], ◌∷◌, map}
use finmars_workflow.Common.Exec.{Exec, ok, pure}
use finmars_workflow.Json.{null}
use finmars_workflow.Models.{Store, Context, WorkflowStatus}
use finmars_workflow.Hooks.{Beat, HookSignature, new_hooks, failure_hooks_launcher}
use finmars_workflow.Hooks.Launched.{hook_rows, new_hooks_lem}
use finmars_workflow.Fixtures.{test_env, store_with, main_context}

abbrev failed : Store
failed = store_with WorkflowStatus.error []

abbrev two_hooks : List String
two_hooks = "hook.a" ∷ "hook.b" ∷ []

new_hooks_lem_example :
    (hooks : List HookSignature) × (s1 : Store) × (new_hooks test_env
        (λ _. true)
        1
        null
        main_context
        two_hooks
        failed
      ≡ (ok hooks, s1))
    × (map (λ g. g.name) hooks ≡ two_hooks)
    × (s1.tasks ≡ hook_rows test_env 1 two_hooks 0 9 [])
new_hooks_lem_example =
    new_hooks_lem test_env (λ _. true) 1 null main_context two_hooks failed (refl, (refl, tt))

abbrev idle_chain : String → List HookSignature → Exec Store Unit
idle_chain _ _ = pure tt

abbrev launched : Store
launched =
    (failure_hooks_launcher test_env (λ _. true) idle_chain 1 two_hooks null main_context failed).1

abbrev beat : Beat
beat = record { world = record { store = failed; configs = [] }; schedules = [] }
