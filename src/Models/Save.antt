-- ===== src/Models/Save.antt =====
-- `Workflow.save` of workflow/models.py: the row is written, and the platform is told about a
-- workflow that has ended.
use finmars_workflow.Common.{
  ℕ, zero, suc, ◌≡◌, refl, true, false, ◌&&◌, Option, none, some, List, [], ◌∷◌, ◌++◌, arith, ◌==◌,
  ==_iff, if◌then◌else◌, find, last, All, Bool-cases, inl, inr, ◌⊎◌, ◌&&◌,
}
use finmars_workflow.Common.Exec.{Result, ok, err}
use finmars_workflow.Json.{Json}
use finmars_workflow.Json.Codec.{Codec}
use finmars_workflow.Models.{Env, Workflow, Task, Store, StatusUpdate, is_final, is_error}
use finmars_workflow.Models.Payload.{read_column}
use finmars_workflow.Models.Tables.{replace_workflow, tasks_of}

-- self.tasks.filter(status=Task.STATUS_ERROR).first()
abbrev pub error_task : ℕ → List Task → Option Task
error_task w ts = find (λ t. t.workflow == w && is_error t.status) ts

-- self.tasks.last(): the last in the default order, newest first
abbrev pub last_task : ℕ → List Task → Option Task
last_task w ts = last (tasks_of w ts)

add_update : StatusUpdate → Store → Store
add_update u s = record s { updates = s.updates ++ u ∷ [] }

-- result=last_task.result; an exception of the getter is caught and logged
report_result : ℕ → Workflow → Result Json → Store → Store
report_result p w (err e) s = s
report_result p w (ok v) s =
    add_update (record { platform_task_id = p; status = w.status; result = some v; error = none }) s

report_last : Codec → ℕ → Workflow → Option Task → Store → Store
report_last c p w none s = s
report_last c p w (some t) s = report_result p w (read_column c t.result_data) s

report : Codec → ℕ → Workflow → Option Task → Store → Store
report c p w (some t) s =
    add_update
      (record {
        platform_task_id = p;
        status = w.status;
        result = none;
        error = some t.error_message;
      })
      s
report c p w none s = report_last c p w (last_task w.id s.tasks) s

-- `self.platform_task_id` is false where it is None or 0
notify : Codec → Workflow → Option ℕ → Store → Store
notify c w none s = s
notify c w (some zero) s = s
notify c w (some (suc p)) s =
    if is_final w.status then report c (suc p) w (error_task w.id s.tasks) s else s

unfoldable pub save_workflow : Env → Workflow → Store → Store
unfolding notify report report_last report_result add_update
save_workflow env w s =
    notify env.codec w w.platform_task_id (record s { workflows = replace_workflow w s.workflows })

-- Saving a workflow writes its row and may tell the platform, and touches nothing else.
pub save_workflow_shape :
    (env : Env) (w : Workflow) (s : Store)
    → save_workflow env w s ≡ record s {
      workflows = replace_workflow w s.workflows;
      updates = (save_workflow env w s).updates;
    }
unfolding save_workflow
save_workflow_shape env w s = ground arith

-- The platform is told nothing while a workflow goes on, nor for one that it did not start.
pub save_workflow_silent :
    (env : Env) (w : Workflow) (s : Store)
    → (w.platform_task_id ≡ none) ⊎ (is_final w.status ≡ false)
    → (save_workflow env w s).updates ≡ s.updates
unfolding save_workflow
save_workflow_silent env w s h = ground arith

-- A workflow that the platform started and that has ended with a failed task is reported with its
-- status and the message of its newest failed task, and with no result.
pub save_workflow_error :
    (env : Env) (w : Workflow) (s : Store) (p : ℕ) (t : Task)
    → w.platform_task_id ≡ some (suc p)
    → is_final w.status ≡ true
    → error_task w.id s.tasks ≡ some t
    → (save_workflow env w s).updates
      ≡ s.updates
        ++ record {
          platform_task_id = suc p;
          status = w.status;
          result = none;
          error = some t.error_message;
        }
          ∷ []
unfolding save_workflow
save_workflow_error env w s p t hp hf ht = rw (hp, hf, ht) refl

-- No row of another workflow's task, nor of a failed one.
abbrev pub HasNoErrors : ℕ → List Task → Type 0
HasNoErrors w ts = All (λ t. (t.workflow == w && is_error t.status) ≡ false) ts

abbrev pub IsForeign : ℕ → List Task → Type 0
IsForeign w ts = All (λ t. (t.workflow == w) ≡ false) ts

tasks_of-foreign : (w : ℕ) (ts : List Task) → IsForeign w ts → tasks_of w ts ≡ []
tasks_of-foreign w [] h = refl
tasks_of-foreign w (t ∷ ts) h = rw (h.0) (tasks_of-foreign w ts h.1)

error_task-none : (w : ℕ) (ts : List Task) → HasNoErrors w ts → error_task w ts ≡ none
error_task-none w [] h = refl
error_task-none w (t ∷ ts) h = rw (h.0) (error_task-none w ts h.1)

last-cons : {A : Type 0} (x y : A) (xs : List A) → last xs ≡ some y → last (x ∷ xs) ≡ some y
last-cons x y [] h = cc
last-cons x y (z ∷ xs) h = h

last_task-oldest :
    (w : ℕ) (newer older : List Task) (t : Task)
    → t.workflow ≡ w
    → IsForeign w older
    → last_task w (newer ++ t ∷ older) ≡ some t
last_task-oldest w [] older t e h = rw ((==_iff t.workflow w).1 e, tasks_of-foreign w older h) refl
last_task-oldest w (n ∷ newer) older t e h = elim (Bool-cases (n.workflow == w)) [
  | inl same ↦
      rw same
        (last-cons n t (tasks_of w (newer ++ t ∷ older)) (last_task-oldest w newer older t e h))
  | inr other ↦ rw other (last_task-oldest w newer older t e h)
]

-- A workflow that the platform started and that has ended with no failed task is reported with the
-- result of its OLDEST task: `last()` reverses the default order, which is newest first.
pub save_workflow_result :
    (env : Env) (w : Workflow) (s : Store) (p : ℕ) (newer older : List Task) (t : Task) (v : Json)
    → w.platform_task_id ≡ some (suc p)
    → is_final w.status ≡ true
    → HasNoErrors w.id s.tasks
    → s.tasks ≡ newer ++ t ∷ older
    → t.workflow ≡ w.id
    → IsForeign w.id older
    → read_column env.codec t.result_data ≡ ok v
    → (save_workflow env w s).updates
      ≡ s.updates
        ++ record { platform_task_id = suc p; status = w.status; result = some v; error = none }
          ∷ []
unfolding save_workflow
save_workflow_result env w s p newer older t v hp hf he ht hw ho hv =
    let oldest : last_task w.id s.tasks ≡ some t =
      rw ht (last_task-oldest w.id newer older t hw ho) in
    rw (hp, hf, error_task-none w.id s.tasks he, oldest, hv) refl
