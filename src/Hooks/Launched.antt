-- ===== src/Hooks/Launched.antt =====
-- What the launcher of the failure hooks leaves: its rows, its chain, and the message that is to cancel
-- the tasks that have not been started.
use finmars_workflow.Common.{
  ℕ, ◌+◌, String, ◌≡◌, refl, ap, Bool, true, Option, List, [], ◌∷◌, map, All,
}
use finmars_workflow.Common.Exec.{Exec, ok}
use finmars_workflow.Json.{Json}
use finmars_workflow.Models.{Env, Task, Store, Context}
use finmars_workflow.NextNode.{draw}
use finmars_workflow.Hooks.{HookSignature, hook_task, new_hook, new_hooks}

-- The rows of the hooks on top of the table, with the ids that are drawn from `d` and `n` on.
abbrev pub hook_rows : Env → ℕ → List String → ℕ → ℕ → List Task → List Task
hook_rows env w [] d n ts = ts
hook_rows env w (name ∷ names) d n ts =
    hook_rows env w names (d + 1) (n + 1) (hook_task (env.uuid d) name w n ∷ ts)

module _ (env : Env) (is_registered : String → Bool) where
  new_hook_lem :
      (w : ℕ) (payload : Json) (context : Option Context) (name : String) (s : Store)
      → is_registered name ≡ true
      → new_hook env is_registered w payload context name s ≡ (
        ok (record {
          name = name;
          task_id = env.uuid s.drawn;
          workflow_id = w;
          payload = payload;
          context = context;
        }),
        record s {
          drawn = s.drawn + 1;
          tasks = hook_task (env.uuid s.drawn) name w s.next_task ∷ s.tasks;
          next_task = s.next_task + 1;
        },
      )
  unfolding new_hook draw
  new_hook_lem w payload context name s h = rw h refl

  -- For hooks that are registered the chain holds one signature for each, in their order, and the table
  -- gets one row for each, marked as a hook and not yet run, newest first.
  pub new_hooks_lem :
      (w : ℕ) (payload : Json) (context : Option Context) (names : List String) (s : Store)
      → All (λ name. is_registered name ≡ true) names
      → (hooks : List HookSignature) × (s1 : Store) × (new_hooks env is_registered w payload context
            names s
          ≡ (ok hooks, s1))
        × (map (λ g. g.name) hooks ≡ names)
        × (s1.tasks ≡ hook_rows env w names s.drawn s.next_task s.tasks)
  unfolding new_hooks
  new_hooks_lem w payload context [] s h = ([], s, refl, refl, refl)
  new_hooks_lem w payload context (name ∷ names) s h =
      let s0 : Store = record s {
        drawn = s.drawn + 1;
        tasks = hook_task (env.uuid s.drawn) name w s.next_task ∷ s.tasks;
        next_task = s.next_task + 1;
      } in
      let (hooks, s1, run, same, rows) = new_hooks_lem w payload context names s0 h.1 in
      (
        record {
          name = name;
          task_id = env.uuid s.drawn;
          workflow_id = w;
          payload = payload;
          context = context;
        }
            ∷ hooks,
        s1,
        rw (new_hook_lem w payload context name s h.0, run) refl,
        ap (λ xs. name ∷ xs) same,
        rows,
      )
