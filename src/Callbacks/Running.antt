-- ===== src/Callbacks/Running.antt =====
-- The methods that a running task calls on itself.
use finmars_workflow.Common.{
  ℕ, String, ◌≡◌, ◌≢◌, refl, false, not, ◌&&◌, some, List, [], ◌∷◌, arith, ap, sym, ◌∙◌, find, any,
  ◌==◌, ◌↔◌, inl, inr, Bool-cases, Option-cases, All, eq_iff,
}
use finmars_workflow.Common.Exec.{ok, ◌>>◌}
use finmars_workflow.Json.{Json}
use finmars_workflow.Models.{Env, Workflow, Task, Store, is_in_progress}
use finmars_workflow.Models.Payload.{write_column}
use finmars_workflow.Models.Tables.{get_task, replace_task}
use finmars_workflow.Callbacks.{
  update_progress, log, logged_task, is_workflow_already_running, runs,
}

replace_task-twice :
    (v w : Task) (ts : List Task)
    → v.id ≡ w.id
    → replace_task w (replace_task v ts) ≡ replace_task w ts
replace_task-twice v w [] h = refl
replace_task-twice v w (u ∷ ts) h = elim (Bool-cases (u.id == v.id)) [
  | inl e ↦ rw e (ground (arith, replace_task-twice v w ts h))
  | inr e ↦ rw e (ground (arith, replace_task-twice v w ts h))
]

-- A task that reports its progress and then logs a message loses the progress: `update_progress`
-- writes a fresh copy of the row, and `log` writes `self.task`, which still has the old columns, so
-- that the store is as if the progress had never been reported.
pub log-update_progress :
    (env : Env) (t row : Task) (progress : Json) (message : String) (s : Store)
    → find (λ u. u.id == t.id) s.tasks ≡ some row
    → row.id ≡ t.id
    → (update_progress env t progress >> log t message) s ≡ log t message s
unfolding update_progress log get_task
log-update_progress env t row progress message s h same =
    let v = record row { progress_data = write_column env.codec progress } in
    rw h (
      ap (λ ts. (ok (logged_task message t), record s { tasks = ts }))
        (replace_task-twice v (logged_task message t) s.tasks same))

-- One row that is not in the way.
abbrev pub LetsRun : ℕ → String → Workflow → Type 0
LetsRun own code w = w.id ≢ own → w.user_code ≡ some code → is_in_progress w.status ≡ false

LetsRun-iff :
    (own : ℕ) (code : String) (w : Workflow)
    → ((not (w.id == own) && runs code w) ≡ false) ↔ LetsRun own code w
LetsRun-iff own code w = elim (Option-cases w.user_code) [
  | inl e ↦ rw e (ground arith)
  | inr (c, e) ↦ rw e (ground (arith, eq_iff c code))
]

any-LetsRun :
    (own : ℕ) (code : String) (ws : List Workflow)
    → (any (λ w. not (w.id == own) && runs code w) ws ≡ false) ↔ All (LetsRun own code) ws
any-LetsRun own code [] = (λ _. tt, λ _. refl)
any-LetsRun own code (w ∷ ws) =
    let (to, from) = any-LetsRun own code ws in
    let (to', from') = LetsRun-iff own code w in
    elim (Bool-cases (not (w.id == own) && runs code w)) [
      | inl e ↦ rw e (λ h. cc, λ h. absurd (cc (sym e ∙ from' h.0)))
      | inr e ↦ rw e (λ h. (to' e, to h), λ h. from h.1)
    ]

-- A task is told that no workflow of a user code is running exactly when every workflow in progress
-- with that user code is the task's own.
pub is_workflow_already_running_iff :
    (t : Task) (code : String) (s : Store)
    → (is_workflow_already_running t code s ≡ false) ↔ All (LetsRun t.workflow code) s.workflows
unfolding is_workflow_already_running
is_workflow_already_running_iff t code s = any-LetsRun t.workflow code s.workflows
