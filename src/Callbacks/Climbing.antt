-- ===== src/Callbacks/Climbing.antt =====
-- The calls of `on_failure` up through the parents end.
use finmars_workflow.Common.{ℕ, zero, suc, ◌<◌, String, ◌≡◌, ◌≢◌, Option, none, some, arith, ap}
use finmars_workflow.Common.Exec.{Exec, ok, err, out_of_fuel}
use finmars_workflow.Models.{Env, Workflow, Task, Store, Context}
use finmars_workflow.Models.Tables.{
  get_one, get_workflow, get_celery_task, get_task_of_node, has_celery_id, is_of_node, put_task,
}
use finmars_workflow.Models.Save.{save_workflow, save_workflow_shape}
use finmars_workflow.Tenancy.{set_schema_from_context}
use finmars_workflow.Tenancy.Laws.{set_schema_from_context_ok}
use finmars_workflow.Success.Found.{
  Ends, Ends-after, Descends, ParentBelow, get_workflow_found, get_workflow-Ends, get_task_found,
  get_task-Ends, replace-All,
}
use finmars_workflow.Callbacks.{
  Failure, failed_task, failed_workflow, fail_parent, fail_workflow, failure_step, on_failure,
}
use finmars_workflow.Callbacks.Failing.{get_one_unique, same_node_refl}

-- The task with a Celery id, if there is one, belongs to a workflow with a smaller id.
abbrev pub IsBelow : Option String → Store → ℕ → Type 0
IsBelow k s n = (t : Task) → get_one (has_celery_id k) s.tasks ≡ ok t → t.workflow < n

set_schema-tables :
    (context : Option Context) (s s' : Store)
    → set_schema_from_context context s ≡ (ok tt, s')
    → (s'.workflows ≡ s.workflows) × (s'.tasks ≡ s.tasks)
set_schema-tables context s s' h =
    let (_, code, _, _, _, _, e) = set_schema_from_context_ok context s s' h in
    (ap (λ (r : Store). r.workflows) e, ap (λ (r : Store). r.tasks) e)

set_schema-Ends : (context : Option Context) (s : Store) → Ends (set_schema_from_context context s)
unfolding set_schema_from_context
set_schema-Ends context s = ground arith

get_celery_task_found :
    (k : Option String) (s s' : Store) (t : Task)
    → get_celery_task k s ≡ (ok t, s')
    → (get_one (has_celery_id k) s.tasks ≡ ok t) × (s' ≡ s)
unfolding get_celery_task
get_celery_task_found k s s' t h = (ground arith, ground arith)

get_celery_task-Ends : (k : Option String) (s : Store) → Ends (get_celery_task k s)
unfolding get_celery_task
get_celery_task-Ends k s = ground arith

node_task_found :
    (w : ℕ) (n : Option String) (s s' : Store) (t : Task)
    → get_task_of_node w n s ≡ (ok t, s')
    → get_one (is_of_node w n) s.tasks ≡ ok t
unfolding get_task_of_node
node_task_found w n s s' t h = ground arith

-- One round, with the recursive call known to end for the tasks of smaller workflows.
module _ (env : Env) (rec : Option String → Exec Store Unit) (n : ℕ)
    (rec_ends : (k : Option String) (s : Store)
      → Descends s.workflows
      → IsBelow k s n
      → 0 < n
      → Ends (rec k s)) where
  fail_parent-Ends :
      (node_id : Option String) (o : Option ℕ) (k : ℕ) (s : Store)
      → Descends s.workflows
      → ParentBelow o k
      → k < suc n
      → Ends (fail_parent rec node_id o s)
  unfolding fail_parent
  fail_parent-Ends node_id none k s d b le = cc
  fail_parent-Ends node_id (some p) k s d b le =
      Ends-after _ (get_workflow p s) (get_workflow-Ends p s) λ parent s1 found.
        let (same, _, kept) =
          get_workflow_found (λ w. ParentBelow w.parent w.id) p s s1 parent d found in
        Ends-after _ (get_task_of_node parent.id node_id s1) (get_task-Ends parent.id node_id s1)
          λ t s2 got.
            let (owner, kept') = get_task_found parent.id node_id s1 s2 t got in
            let one = node_task_found parent.id node_id s1 s2 t got in
            rec_ends t.celery_task_id s2 (rw (kept', kept) d)
              (λ u other.
                let same_task : t ≡ u =
                  get_one_unique (has_celery_id t.celery_task_id) (is_of_node parent.id node_id)
                    s1.tasks t u one (same_node_refl t.celery_task_id) (rw kept' at other) in
                let of_parent : u.workflow ≡ parent.id = rw (← same_task) owner in omega arith)
              (omega arith)

  fail_workflow-Ends :
      (f : Failure) (w : Workflow) (s : Store)
      → Descends s.workflows
      → ParentBelow w.parent w.id
      → w.id < suc n
      → Ends (fail_workflow env rec f w s)
  unfolding fail_workflow
  fail_workflow-Ends f w s d b le =
      let w' = failed_workflow f w in
      let kept : Descends (save_workflow env w' s).workflows =
        rw (ap (λ (r : Store). r.workflows) (save_workflow_shape env w' s))
          (replace-All (λ u. ParentBelow u.parent u.id) w' s.workflows b d) in
      Ends-after _ (fail_parent rec w.node_id w.parent (save_workflow env w' s))
        (fail_parent-Ends w.node_id w.parent w.id (save_workflow env w' s) kept b le)
        (λ _ s2 _. λ h. cc)

  failure_step-Ends :
      (f : Failure) (k : Option String) (s : Store)
      → Descends s.workflows
      → IsBelow k s (suc n)
      → Ends (failure_step env rec f k s)
  unfolding failure_step
  failure_step-Ends f k s d below =
      Ends-after _ (set_schema_from_context f.context s) (set_schema-Ends f.context s)
        λ u s1 opened.
          let (ws, ts) = set_schema-tables f.context s s1 opened in
          Ends-after _ (get_celery_task k s1) (get_celery_task-Ends k s1) λ t s2 got.
            let (one, kept) = get_celery_task_found k s1 s2 t got in
            let small : t.workflow < suc n = below t (rw ts at one) in
            Ends-after _ (get_workflow t.workflow s2) (get_workflow-Ends t.workflow s2)
              λ w s3 found.
                let d2 : Descends s2.workflows = rw (kept, ws) d in
                let (same, b, kept') =
                  get_workflow_found (λ v. ParentBelow v.parent v.id) t.workflow s2 s3 w d2 found in
                fail_workflow-Ends f w (put_task (failed_task env s3.clock f t) s3) (rw kept' d2) b
                  (omega arith)

-- Where every nested workflow has a larger id than its parent, any bound above the id of the
-- workflow of the failed task is enough: the chain of parents is walked to its end, whatever the
-- tasks hold.
pub on_failure_terminates :
    (fuel : ℕ) (env : Env) (f : Failure) (task_id : Option String) (s : Store)
    → Descends s.workflows
    → IsBelow task_id s fuel
    → 0 < fuel
    → (on_failure fuel env f task_id s).0 ≢ err out_of_fuel
unfolding on_failure
on_failure_terminates zero env f task_id s d h pos = absurd (omega arith)
on_failure_terminates (suc n) env f task_id s d h pos =
    failure_step-Ends env (on_failure n env f) n
      (λ k r dr b p. on_failure_terminates n env f k r dr b p) f task_id s d h
