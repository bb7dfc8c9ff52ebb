-- ===== src/Builder/Rows.antt =====
-- The rows that the builder adds, against the signatures of its canvas.
use finmars_workflow.Common.{
  String, ◌≡◌, refl, sym, ap, ◌∙◌, Bool, true, false, Option, none, some, List, [], ◌∷◌, ◌++◌, map,
}
use finmars_workflow.Common.Exec.{Exec, Result, ok, err, after}
use finmars_workflow.Models.{Env}
use finmars_workflow.System.{Step, single, group, empty, other}
use finmars_workflow.Builder.{
  StepSignature, Link, step_link, group_link, moved, Plan, Progress, new_task, new_tasks,
  close_group, parse_step, parse_flat_tasks,
}

-- The Celery ids of the steps in a canvas, and of the rows.
abbrev pub link_ids : Link → List String
link_ids (step_link g) = g.task_id ∷ []
link_ids (group_link _ gs) = map (λ g. g.task_id) gs
link_ids (moved _ l) = link_ids l
link_ids _ = []

abbrev pub canvas_ids : List Link → List String
canvas_ids [] = []
canvas_ids (l ∷ ls) = link_ids l ++ canvas_ids ls

abbrev pub row_ids : Progress → List (Option String)
row_ids b = map (λ t. t.celery_task_id) b.store.tasks

-- Each one put before the others in turn, as new rows are.
abbrev pub put_before : List String → List (Option String) → List (Option String)
put_before [] ks = ks
put_before (i ∷ is) ks = put_before is (some i ∷ ks)

put_before-append :
    (is js : List String) (ks : List (Option String))
    → put_before (is ++ js) ks ≡ put_before js (put_before is ks)
put_before-append [] js ks = refl
put_before-append (i ∷ is) js ks = put_before-append is js (some i ∷ ks)

-- A run that succeeds has added one row per id of its result, in their order.
abbrev Adds : {A : Type 0} → (A → List String) → Result A × Progress → Progress → Type 0
Adds f (ok a, b') b = row_ids b' ≡ put_before (f a) (row_ids b)
Adds f (err e, b') b = Unit

Adds-after :
    {A B : Type 0} (f : A → List String) (g : B → List String) (r : Result A × Progress)
    (k : A → Exec Progress B) (b0 b : Progress)
    → Adds f r b0
    → ((a : A) (b1 : Progress) → row_ids b1 ≡ put_before (f a) (row_ids b0) → Adds g (k a b1) b)
    → Adds g (after k r) b
Adds-after f g (ok a, b1) k b0 b h next = next a b1 h
Adds-after f g (err e, b1) k b0 b h next = tt

abbrev sig_ids : List StepSignature → List String
sig_ids = map (λ g. g.task_id)

module _ (env : Env) (plan : Plan) where
  new_task-Adds :
      (is_hook alone : Bool) (name : String) (b : Progress)
      → Adds (λ g. g.task_id ∷ []) (new_task env plan is_hook alone name b) b
  unfolding new_task
  new_task-Adds is_hook alone name b = refl

  new_tasks-Adds :
      (is_hook : Bool) (names : List String) (b : Progress)
      → Adds sig_ids (new_tasks env plan is_hook names b) b
  unfolding new_tasks
  new_tasks-Adds is_hook [] b = refl
  new_tasks-Adds is_hook (name ∷ names) b =
      Adds-after (λ g. g.task_id ∷ []) sig_ids (new_task env plan is_hook false name b) _ b b
        (new_task-Adds is_hook false name b)
        λ g b1 e.
          Adds-after sig_ids sig_ids (new_tasks env plan is_hook names b1) _ b1 b
            (new_tasks-Adds is_hook names b1) λ gs b2 e'. e' ∙ ap (put_before (sig_ids gs)) e

  parse_step-Adds :
      (is_hook : Bool) (t : Step) (b : Progress) → Adds link_ids (parse_step env plan is_hook t b) b
  unfolding parse_step close_group
  parse_step-Adds is_hook (single name) b =
      Adds-after (λ g. g.task_id ∷ []) link_ids (new_task env plan is_hook true name b) _ b b
        (new_task-Adds is_hook true name b) (λ g b1 e. e)
  parse_step-Adds is_hook (group none _) b = tt
  parse_step-Adds is_hook (group (some _) none) b = tt
  parse_step-Adds is_hook (group (some _) (some names)) b =
      Adds-after sig_ids link_ids (new_tasks env plan is_hook names b) _ b b
        (new_tasks-Adds is_hook names b) (λ gs b1 e. e)
  parse_step-Adds is_hook empty b = tt
  parse_step-Adds is_hook other b = tt

  parse_flat_tasks-Adds :
      (is_hook : Bool) (ts : List Step) (b : Progress)
      → Adds canvas_ids (parse_flat_tasks env plan is_hook ts b) b
  unfolding parse_flat_tasks
  parse_flat_tasks-Adds is_hook [] b = refl
  parse_flat_tasks-Adds is_hook (t ∷ ts) b =
      Adds-after link_ids canvas_ids (parse_step env plan is_hook t b) _ b b
        (parse_step-Adds is_hook t b)
        λ l b1 e.
          Adds-after canvas_ids canvas_ids (parse_flat_tasks env plan is_hook ts b1) _ b1 b
            (parse_flat_tasks-Adds is_hook ts b1)
            λ ls b2 e'.
              e'
              ∙ ap (put_before (canvas_ids ls)) e
              ∙ sym (put_before-append (link_ids l) (canvas_ids ls) (row_ids b))

  -- Where the tasks of a configuration can be parsed, every signature of the canvas, in a group or
  -- alone, has one new row with its Celery id, and there are no other new rows; the rows are added in
  -- the order of the canvas.
  pub parse_flat_tasks-rows :
      (is_hook : Bool) (ts : List Step) (b b' : Progress) (canvas : List Link)
      → parse_flat_tasks env plan is_hook ts b ≡ (ok canvas, b')
      → row_ids b' ≡ put_before (canvas_ids canvas) (row_ids b)
  parse_flat_tasks-rows is_hook ts b b' canvas h = rw h at (parse_flat_tasks-Adds is_hook ts b)

-- The type of a group is never looked at: whatever it is, the tasks are parsed in the same way.
pub parse_flat_tasks_any_type :
    (env : Env) (plan : Plan) (is_hook : Bool) (given other_one : String)
    (names : Option (List String)) (ts : List Step) (b : Progress)
    → parse_flat_tasks env plan is_hook (group (some given) names ∷ ts) b
      ≡ parse_flat_tasks env plan is_hook (group (some other_one) names ∷ ts) b
unfolding parse_flat_tasks parse_step
parse_flat_tasks_any_type env plan is_hook given other_one none ts b = refl
parse_flat_tasks_any_type env plan is_hook given other_one (some names) ts b = refl
