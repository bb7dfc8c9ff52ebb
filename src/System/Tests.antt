-- ===== src/System/Tests.antt =====
-- The theorems on a dead worker at a store with one of its tasks, and on the loading of a space's workflows.
use finmars_workflow.Common.{true, String, refl, none, List, ◌≡◌, false, some, [], ◌∷◌, ◌++◌, All}
use finmars_workflow.Models.{Store, Task, WorkflowStatus, TaskStatus}
use finmars_workflow.System.{is_of_worker, cancel_all_existing_tasks}
use finmars_workflow.System.Worker.{cancel_all_existing_tasks_lem}
use finmars_workflow.Common.Dict.{lookup}
use finmars_workflow.Common.Exec.{ok, err, does_not_exist}
use finmars_workflow.Models.{Space}
use finmars_workflow.System.{Config}
use finmars_workflow.System.Sync.{Remote, Local, sync_for_schema, starts_with, first_of}
use finmars_workflow.System.Sync.Isolated.{Keeps, sync_for_schema-Keeps}
use finmars_workflow.System.Register.{
  Tenants, Registry, WorkflowFile, register_workflows, last_entry, register_workflows_one,
}
use finmars_workflow.Fixtures.{test_env, task_at, store_with}

abbrev held_task : Task
held_task = record (task_at 1 "a" TaskStatus.nested_progress) { worker_name = some "worker01" }

abbrev held : Store
held = store_with WorkflowStatus.progress (held_task ∷ [])

cancel_all_existing_tasks_lem_example :
    All
      (λ t. is_of_worker "worker01" t ≡ false)
      (cancel_all_existing_tasks test_env "worker01" held).tasks
cancel_all_existing_tasks_lem_example = cancel_all_existing_tasks_lem test_env "worker01" held

-- Every folder holds one directory "com" and one file.
abbrev endless : Remote
endless = record {
  listdir = λ _. ok ("com" ∷ [], "task.py" ∷ []);
  read = λ _. ok "new";
  matches = λ _ _. true;
  removes = λ folder components p. starts_with (folder ++ components) p;
}

abbrev two_spaces : Local
two_spaces = record {
  files =
      ("space" ∷ "workflows" ∷ "com" ∷ "a.py" ∷ [], "old")
      ∷ ("other" ∷ "workflows" ∷ "com" ∷ "a.py" ∷ [], "old")
      ∷ [];
}

sync_for_schema-Keeps_example :
    Keeps
      ("other" ∷ "workflows" ∷ "com" ∷ "a.py" ∷ [])
      two_spaces
      (sync_for_schema endless ("*.py" ∷ []) "space" ("com" ∷ []) two_spaces).1
unfolding starts_with first_of
sync_for_schema-Keeps_example =
    sync_for_schema-Keeps endless ("*.py" ∷ []) "space" ("com" ∷ [])
      ("other" ∷ "workflows" ∷ "com" ∷ "a.py" ∷ []) two_spaces (λ _ _ _ _ h. h) (refl, tt) refl

abbrev empty_config : Config
empty_config = record {
  queue = none;
  tasks = none;
  hooks = none;
  imports = none;
  is_manager = none;
  version = none;
}

abbrev main_space : Space
main_space = record { realm_code = some "realm"; space_code = "space" }

abbrev main_files : List WorkflowFile
main_files =
    record { suffix = ".yaml"; content = ok ("com.a", empty_config) }
    ∷ record { suffix = ".json"; content = err does_not_exist }
    ∷ []

abbrev tenants : Tenants
tenants = record {
  schemas = "public" ∷ "space" ∷ [];
  lower = λ code. code;
  space_at = λ _. some main_space;
  files = λ _. ok main_files;
}

abbrev empty_registry : Registry
empty_registry = record { search_path = "public"; workflows = [] }

register_workflows_one_example :
    ((register_workflows tenants (some "space") empty_registry).0 ≡ ok tt)
    × ((register_workflows tenants (some "space") empty_registry).1.search_path ≡ "space")
    × ((k : String)
        → lookup k (register_workflows tenants (some "space") empty_registry).1.workflows
          ≡ last_entry main_space k main_files (lookup k empty_registry.workflows))
register_workflows_one_example =
    register_workflows_one tenants empty_registry "space" main_space main_files refl refl refl refl
      refl
