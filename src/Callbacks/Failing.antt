-- ===== src/Callbacks/Failing.antt =====
-- What a failed task does to its workflow, and to the workflows above it.
use finmars_workflow.Common.{
  ℕ, suc, String, ◌≡◌, refl, Bool, true, Option, none, some, List, [], ◌∷◌, arith, ap, sym, ◌∙◌,
  find, select, All, ◌==◌, Bool-cases, inl, inr, eq_refl,
}
use finmars_workflow.Common.Exec.{Exec, ok, modify, ◌>>◌}
use finmars_workflow.Models.{Env, Workflow, Task, Store}
use finmars_workflow.Models.Tables.{
  get_one, get_workflow, get_celery_task, get_task_of_node, same_node, put_task,
}
use finmars_workflow.Models.Save.{save_workflow}
use finmars_workflow.Tenancy.{set_schema_from_context}
use finmars_workflow.Success.Next.{get_workflow_ok}
use finmars_workflow.Callbacks.{
  Failure, failed_task, failed_workflow, send_alert, fail_parent, fail_workflow, failure_step,
  on_failure,
}

failure_step_lem :
    (env : Env) (rec : Option String → Exec Store Unit) (f : Failure) (task_id : Option String)
    (s s' : Store) (t : Task) (w : Workflow)
    → set_schema_from_context f.context s ≡ (ok tt, s')
    → get_celery_task task_id s' ≡ (ok t, s')
    → find (λ v. v.id == t.workflow) s'.workflows ≡ some w
    → failure_step env rec f task_id s
      ≡ fail_workflow env rec f w (put_task (failed_task env s'.clock f t) s')
unfolding failure_step
failure_step_lem env rec f task_id s s' t w hs ht hw =
    rw (hs, ht, get_workflow_ok t.workflow s' w hw) refl

-- A failed task of a workflow without parent: the task is marked as failed, or as timed out for a
-- time limit, with the text of the exception, its workflow too, and then the alert is sent.
pub on_failure_fails :
    (fuel : ℕ) (env : Env) (f : Failure) (task_id : Option String) (s s' : Store) (t : Task)
    (w : Workflow)
    → set_schema_from_context f.context s ≡ (ok tt, s')
    → get_celery_task task_id s' ≡ (ok t, s')
    → find (λ v. v.id == t.workflow) s'.workflows ≡ some w
    → w.parent ≡ none
    → on_failure (suc fuel) env f task_id s ≡ (
      ok tt,
      send_alert
          (failed_workflow f w)
          (save_workflow env (failed_workflow f w) (put_task (failed_task env s'.clock f t) s')),
    )
unfolding on_failure fail_workflow
on_failure_fails fuel env f task_id s s' t w hs ht hw hp =
    let s1 = save_workflow env (failed_workflow f w) (put_task (failed_task env s'.clock f t) s') in
    let rec = on_failure fuel env f in
    failure_step_lem env rec f task_id s s' t w hs ht hw
    ∙ ap (λ o. (fail_parent rec w.node_id o >> modify (send_alert (failed_workflow f w))) s1) hp

-- With a parent whose task of the same node is there, the same exception fails that task, and with it
-- the parent's workflow, before the alert of this workflow is sent.
pub on_failure_climbs :
    (fuel p : ℕ) (env : Env) (f : Failure) (task_id : Option String) (s s' s1 : Store) (t up : Task)
    (w parent : Workflow)
    → set_schema_from_context f.context s ≡ (ok tt, s')
    → get_celery_task task_id s' ≡ (ok t, s')
    → find (λ v. v.id == t.workflow) s'.workflows ≡ some w
    → w.parent ≡ some p
    → save_workflow env (failed_workflow f w) (put_task (failed_task env s'.clock f t) s') ≡ s1
    → get_workflow p s1 ≡ (ok parent, s1)
    → get_task_of_node parent.id w.node_id s1 ≡ (ok up, s1)
    → on_failure (suc fuel) env f task_id s
      ≡ (on_failure fuel env f up.celery_task_id >> modify (send_alert (failed_workflow f w))) s1
unfolding on_failure fail_workflow fail_parent
on_failure_climbs fuel p env f task_id s s' s1 t up w parent hs ht hw hp h1 hg hu =
    let rec = on_failure fuel env f in
    failure_step_lem env rec f task_id s s' t w hs ht hw
    ∙ ap
        (λ o.
          (fail_parent rec w.node_id o >> modify (send_alert (failed_workflow f w)))
            (save_workflow env (failed_workflow f w) (put_task (failed_task env s'.clock f t) s')))
        hp
    ∙ rw (h1, hg, hu) refl

All-select : (P : Task → Type 0) (q : Task → Bool) (xs : List Task) → All P xs → All P (select q xs)
All-select P q [] h = tt
All-select P q (x ∷ xs) h = elim (Bool-cases (q x)) [
  | inl e ↦ rw e (h.0, All-select P q xs h.1)
  | inr e ↦ rw e (All-select P q xs h.1)
]

select-back :
    (Q : Task → Type 0) (p : Task → Bool) (xs : List Task)
    → All Q (select p xs)
    → All (λ x. p x ≡ true → Q x) xs
select-back Q p [] h = tt
select-back Q p (x ∷ xs) h = elim (Bool-cases (p x)) [
  | inl e ↦
      let both : Q x × All Q (select p xs) = rw e at h in (λ _. both.0, select-back Q p xs both.1)
  | inr e ↦ (λ yes. absurd (cc (sym e ∙ yes)), select-back Q p xs (rw e at h))
]

-- Two queries for one row that meet in a row have found the same one.
pub get_one_unique :
    (p q : Task → Bool) (xs : List Task) (t u : Task)
    → get_one q xs ≡ ok t
    → p t ≡ true
    → get_one p xs ≡ ok u
    → t ≡ u
unfolding get_one
get_one_unique p q xs t u hq hp hu =
    from_q (select q xs) refl (All-select _ q xs (from_p (select p xs) refl))
  where
    from_p : (found : List Task) → select p xs ≡ found → All (λ x. p x ≡ true → x ≡ u) xs
    from_p [] e = ground arith
    from_p (v ∷ []) e = select-back (λ x. x ≡ u) p xs (rw e (ground arith, tt))
    from_p (v ∷ v' ∷ r) e = ground arith

    from_q :
        (found : List Task)
        → select q xs ≡ found
        → All (λ x. p x ≡ true → x ≡ u) (select q xs)
        → t ≡ u
    from_q [] e a = ground arith
    from_q (v ∷ []) e a =
        let same : v ≡ t = ground arith in
        let alls : All (λ x. p x ≡ true → x ≡ u) (v ∷ []) = rw e at a in
        sym same ∙ alls.0 (rw same hp)
    from_q (v ∷ v' ∷ r) e a = ground arith

pub same_node_refl : (o : Option String) → same_node o o ≡ true
same_node_refl none = refl
same_node_refl (some k) = eq_refl k
