-- ===== src/Runs/Updates/Others.antt =====
-- Canceling, the callbacks at the start of a task, and what a running task writes.
use finmars_workflow.Common.{
  ℕ, String, ◌≡◌, refl, ap, sym, ◌∙◌, Option, some, List, [], ◌∷◌, Bool-cases, inl, inr, arith, All,
  select, ◌==◌,
}
use finmars_workflow.Common.Exec.{Result, ok, err, modify}
use finmars_workflow.Json.{Json}
use finmars_workflow.Graph.{Connection}
use finmars_workflow.Models.{
  Env, Workflow, WorkflowStatus, Task, TaskStatus, Store, Context, is_active,
}
use finmars_workflow.Models.Payload.{write_column}
use finmars_workflow.Models.Tables.{get_workflow, get_task, get_celery_task, put_task, tasks_of}
use finmars_workflow.Models.Cancel.{cancel, cancel_tasks, cancel_task, canceled_task, revoke}
use finmars_workflow.Models.{is_init, execute_workflow_v2}
use finmars_workflow.Models.Tables.{get_one}
use finmars_workflow.Common.Exec.{for_each, raise, exception, caught, Error}
use finmars_workflow.Engine.{mark_as_canceled_init_tasks, send}
use finmars_workflow.Launch.{is_template, add_workflow}
use finmars_workflow.Common.{◌&&◌}
use finmars_workflow.Common.Dict.{Dict}
use finmars_workflow.Models.{WorkflowTemplate}
use finmars_workflow.System.{Config}
use finmars_workflow.Step.{Outside, nest, nested_workflow}
use finmars_workflow.Tenancy.{set_schema_from_context, prerun_schema, is_ignored}
use finmars_workflow.Callbacks.{
  started_task, start_task, workflow_prerun, before_start, update_progress, logged_task, log,
}
use finmars_workflow.Runs.Keys.{
  Leads, Leads-refl, Leads-trans, Leads-same, Leads-put, Leads-after, Leads-given, Stands, Key,
  key_of, keys_of, rows_stand, All-select, replace-keys,
}
use finmars_workflow.Runs.Updates.{
  save_workflow-Leads, get_workflow-Leads, get_task-Leads, get_celery_task-Leads, set_schema-Leads,
  celery_task-Stands, task-Stands,
}

-- The keys stay, so a row that stands goes on to stand.
abbrev Stand : List Key → List Task → Type 0
Stand ks ts = All (λ t. Stands (key_of t) ks) ts

module _ (w : ℕ) (cs : List Connection) where
  cancel_task-Leads :
      (t : Task) (s : Store) → Stands (key_of t) (keys_of s.tasks) → Leads w cs s (cancel_task t s)
  unfolding cancel_task
  cancel_task-Leads t s h = elim (Bool-cases (is_active t.status)) [
    | inl e ↦ rw e (
        Leads-trans (Leads-same w cs s (revoke t s) refl refl)
          (Leads-put w cs (canceled_task s.clock t) (revoke t s) h))
    | inr e ↦ rw e Leads-refl
  ]

  cancel_task-keys :
      (t : Task) (s : Store)
      → Stands (key_of t) (keys_of s.tasks)
      → keys_of (cancel_task t s).tasks ≡ keys_of s.tasks
  unfolding cancel_task
  cancel_task-keys t s h = elim (Bool-cases (is_active t.status)) [
    | inl e ↦ rw e (replace-keys (canceled_task s.clock t) s.tasks h)
    | inr e ↦ rw e refl
  ]

  cancel_tasks-Leads :
      (ts : List Task) (s : Store) → Stand (keys_of s.tasks) ts → Leads w cs s (cancel_tasks ts s)
  unfolding cancel_tasks
  cancel_tasks-Leads [] s h = Leads-refl
  cancel_tasks-Leads (t ∷ ts) s h =
      Leads-trans (cancel_task-Leads t s h.0)
        (cancel_tasks-Leads ts (cancel_task t s) (rw (cancel_task-keys t s h.0) h.1))

  pub cancel-Leads : (env : Env) (v : Workflow) (s : Store) → Leads w cs s (cancel env v s)
  unfolding cancel
  cancel-Leads env v s = Leads-given λ h.
      Leads-trans
        (cancel_tasks-Leads (tasks_of v.id s.tasks) s (
          All-select (λ t. Stands (key_of t) (keys_of s.tasks)) (λ t. t.workflow == v.id) s.tasks
            (rows_stand s h)))
        (save_workflow-Leads w cs env (record v { status = WorkflowStatus.canceled })
          (cancel_tasks (tasks_of v.id s.tasks) s))

  start_task-Leads :
      (hostname task_id : String) (s : Store) → Leads w cs s (start_task hostname task_id s).1
  unfolding start_task
  start_task-Leads hostname task_id s = Leads-given λ h.
      Leads-after w cs _ s (get_celery_task (some task_id) s)
        (get_celery_task-Leads w cs (some task_id) s)
        λ t s1 got.
          Leads-put w cs (started_task hostname t) s1
            (celery_task-Stands (some task_id) s s1 t h got)

  prerun_schema-Leads :
      (name : String) (context : Option Context) (s : Store)
      → Leads w cs s (prerun_schema name context s).1
  unfolding prerun_schema
  prerun_schema-Leads name context s = Leads-same w cs s _ (ground arith) (ground arith)

  pub workflow_prerun-Leads :
      (name hostname task_id : String) (context : Option Context) (s : Store)
      → Leads w cs s (workflow_prerun name hostname task_id context s).1
  unfolding workflow_prerun
  workflow_prerun-Leads name hostname task_id context s = elim (Bool-cases (is_ignored name)) [
    | inl e ↦ rw e Leads-refl
    | inr e ↦ rw e (
        Leads-after w cs _ s (prerun_schema name context s) (prerun_schema-Leads name context s)
          λ _ s1 _.
            Leads-after w cs _ s1 (start_task hostname task_id s1)
              (start_task-Leads hostname task_id s1) λ _ s2 _. Leads-refl)
  ]

  pub before_start-Leads :
      (hostname task_id : String) (context : Option Context) (s : Store)
      → Leads w cs s (before_start hostname task_id context s).1
  unfolding before_start
  before_start-Leads hostname task_id context s =
      Leads-after w cs _ s (set_schema_from_context context s) (set_schema-Leads w cs context s)
        λ _ s1 _.
          Leads-after w cs _ s1 (start_task hostname task_id s1)
            (start_task-Leads hostname task_id s1)
            λ t s2 _.
              Leads-after w cs _ s2 (get_workflow t.workflow s2)
                (get_workflow-Leads w cs t.workflow s2) λ v s3 _. Leads-refl

  pub update_progress-Leads :
      (env : Env) (t : Task) (progress : Json) (s : Store)
      → Leads w cs s (update_progress env t progress s).1
  unfolding update_progress
  update_progress-Leads env t progress s = Leads-given λ h.
      Leads-after w cs _ s (get_task t.id s) (get_task-Leads w cs t.id s) λ row s1 got.
        Leads-put w cs (record row { progress_data = write_column env.codec progress }) s1
          (task-Stands t.id s s1 row h got)

  pub log-Leads :
      (t : Task) (message : String) (s : Store)
      → Stands (key_of t) (keys_of s.tasks)
      → Leads w cs s (log t message s).1
  unfolding log
  log-Leads t message s h = Leads-put w cs (logged_task message t) s h

  cancel_each :
      (now : ℕ) (ts : List Task) (s : Store)
      → Stand (keys_of s.tasks) ts
      → Leads w cs s (for_each (λ t. modify (put_task (canceled_task now t))) ts s).1
  cancel_each now [] s h = Leads-refl
  cancel_each now (t ∷ ts) s h = Leads-trans (Leads-put w cs (canceled_task now t) s h.0) (
      cancel_each now ts (put_task (canceled_task now t) s)
        (rw (replace-keys (canceled_task now t) s.tasks h.0) h.1))

  pub mark_as_canceled-Leads :
      (k : ℕ) (context : Option Context) (s : Store)
      → Leads w cs s (mark_as_canceled_init_tasks k context s).1
  unfolding mark_as_canceled_init_tasks
  mark_as_canceled-Leads k context s =
      Leads-after w cs _ s (set_schema_from_context context s) (set_schema-Leads w cs context s)
        λ _ s1 _. Leads-given λ h.
          cancel_each s1.clock (select (λ t. t.workflow == k && is_init t.status) s1.tasks) s1 (
            All-select (λ t. Stands (key_of t) (keys_of s1.tasks))
              (λ t. t.workflow == k && is_init t.status) s1.tasks (rows_stand s1 h))

  raised_same :
      (e : Error) (r : Result WorkflowTemplate) (s : Store) → (caught (λ _. raise e) (r, s)).1 ≡ s
  raised_same e (ok t) s = refl
  raised_same e (err x) s = refl

  pub nest-Leads :
      (env : Env) (reload : String → Result (Dict Config)) (out : Outside) (v : Workflow) (t : Task)
      (code : String) (payload : Json) (context : Context) (s : Store)
      → Stands (key_of t) (keys_of s.tasks)
      → Leads w cs s (nest env reload out v t code payload context s).1
  unfolding nest
  nest-Leads env reload out v t code payload context s h =
      let e = exception "No target_workflow_template" in
      let none_left = raised_same e (get_one (is_template code) s.templates) s in
      Leads-after w cs _ s (caught (λ _. raise e) (get_one (is_template code) s.templates, s))
        (rw none_left Leads-refl)
        λ template s1 got.
          let same : s1 ≡ s =
            sym (ap (λ (r : Result WorkflowTemplate × Store). r.1) got) ∙ none_left in
          let sent =
            send (execute_workflow_v2 s1.next_workflow (some context))
              (add_workflow (nested_workflow env v t code payload template.id) s1) in
          Leads-trans (Leads-same w cs s1 sent refl refl)
            (Leads-put w cs (record t { status = TaskStatus.nested_progress }) sent (rw same h))
