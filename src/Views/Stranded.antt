-- ===== src/Views/Stranded.antt =====
-- A paused workflow that is resumed without a node to go on from: `resume_workflow` of `WorkflowViewSet`
-- in workflow/views.py.
use finmars_workflow.Common.{ℕ, ◌≡◌, false, Option, some, find, ◌==◌}
use finmars_workflow.Common.Exec.{ok}
use finmars_workflow.Json.{Json}
use finmars_workflow.Models.{Env, Workflow, WorkflowStatus, Store}
use finmars_workflow.Views.{Response, has_running_tasks, resume_workflow}

-- The workflow is in progress, none of its tasks is to be run or in progress, and however it is resumed,
-- the answer is 400 and the store is left as it is.
abbrev pub IsStranded : Env → ℕ → Store → Type 0
IsStranded env k s =
    ((v : Workflow) × (find (λ u. u.id == k) s.workflows ≡ some v)
      × (v.status ≡ WorkflowStatus.progress))
    × (has_running_tasks k s.tasks ≡ false)
    × ((again : Option Json)
        → (r : Response) × (resume_workflow env k again s ≡ (ok r, s)) × (r.code ≡ 400))
