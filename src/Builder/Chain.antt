-- ===== src/Builder/Chain.antt =====
-- The chain that the builder hands to Celery.
use finmars_workflow.Common.{ℕ, ◌+◌, ◌≡◌, refl, false, Option, some, List, [], ◌∷◌, ◌++◌}
use finmars_workflow.Common.Exec.{Exec, Result, ok, err, Error, after, lift}
use finmars_workflow.Models.{Env, Workflow, WorkflowStatus, Context}
use finmars_workflow.Models.Save.{save_workflow}
use finmars_workflow.System.{Config, get_tasks, get_hook_task, get_queue, get_imports}
use finmars_workflow.Builder.{
  Link, start_link, end_link, Plan, Progress, Canvas, parse_queues, parse_flat_tasks, before_hook,
  build_hooks, build, run,
}

-- What holds of the result of every run that succeeds.
abbrev Yields : {A : Type 0} → (A → Type 0) → Result A × Progress → Type 0
Yields P (ok a, b) = P a
Yields P (err e, b) = Unit

Yields-after :
    {A B : Type 0} (P : B → Type 0) (r : Result A × Progress) (k : A → Exec Progress B)
    → ((a : A) (b : Progress) → Yields P (k a b))
    → Yields P (after k r)
Yields-after P (ok a, b) k h = h a b
Yields-after P (err e, b) k h = tt

-- The chain runs `start`, then something, then `end`, for the workflow and in one context, on the
-- default queue.
abbrev pub IsFramed : ℕ → Plan × List Link → Type 0
IsFramed k (plan, links) =
    (context : Option Context) × (inner : List Link) × (links
      ≡ start_link k context plan.queues.default ∷ inner
        ++ end_link k context plan.queues.default ∷ [])

build-Yields :
    (env : Env) (w : Workflow) (c : Config) (b : Progress)
    → Yields (IsFramed w.id) (build env w c b)
unfolding build
build-Yields env w c b =
    Yields-after (IsFramed w.id)
      (lift (parse_queues (get_queue c)) (record b { previous = some [] })) _
      λ qs b1.
        let plan : Plan = record { workflow = w; queues = qs; imports = get_imports c } in
        Yields-after (IsFramed w.id) (parse_flat_tasks env plan false (get_tasks c) b1) _
          λ steps b2.
            Yields-after (IsFramed w.id)
              (before_hook env plan (get_hook_task "before_start" c) steps b2) _
              λ canvas b3. (_, canvas, refl)

-- Whatever the configuration, a canvas that is built opens with `start` and closes with `end`, both
-- for this workflow, in one context and on the default queue.
pub build-IsFramed :
    (env : Env) (w : Workflow) (c : Config) (b b' : Progress) (built : Plan × List Link)
    → build env w c b ≡ (ok built, b')
    → IsFramed w.id built
build-IsFramed env w c b b' built h = rw h at (build-Yields env w c b)

-- If Celery refuses the canvas, the workflow is saved in error, and the exception is raised again.
pub run_refused :
    (env : Env) (apply_async : Canvas → Result {0} Unit) (w : Workflow) (c : Config)
    (b b1 b2 : Progress) (plan : Plan) (links failure success : List Link) (e : Error)
    → build env w c b ≡ (ok (plan, links), b1)
    → build_hooks env plan c (record b1 { store = record b1.store { drawn = b1.store.drawn + 1 } })
      ≡ (ok (failure, success), b2)
    → apply_async (record {
      task_id = env.uuid b1.store.drawn;
      links = links;
      link_error = failure;
      link = success;
    })
      ≡ err e
    → run env apply_async w c b ≡ (
      err e,
      record b2 { store = save_workflow env (record w { status = WorkflowStatus.error }) b2.store },
    )
unfolding run
run_refused env apply_async w c b b1 b2 plan links failure success e hb hh ha = rw (hb, hh, ha) refl
