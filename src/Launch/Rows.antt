-- ===== src/Launch/Rows.antt =====
-- What launching adds to the store.
use finmars_workflow.Common.{
  String, ◌≡◌, refl, true, false, Option, some, find, str_eq, Bool-cases, ◌⊎◌, inl, inr, str_append,
  holds_str,
}
use finmars_workflow.Common.Dict.{Dict}
use finmars_workflow.Common.Exec.{Result, ok, err, exception, Error}
use finmars_workflow.Json.{Json}
use finmars_workflow.Models.{Env, User, Workflow, WorkflowTemplate, execute_workflow_v2}
use finmars_workflow.Models.Tables.{get_one}
use finmars_workflow.Engine.{send}
use finmars_workflow.System.{Config, get_synced}
use finmars_workflow.Builder.{Canvas}
use finmars_workflow.Launch.{
  World, Order, add_workflow, after_point, is_template, is_text_two, ordered, order_context,
  execute_workflow, run_new_workflow, synced, manages,
}

pub synced_ok :
    (reload : String → Result (Dict Config)) (code : String) (x : World) (c : Config)
    (configs : Dict Config)
    → get_synced reload code x.configs ≡ ok (c, configs)
    → synced reload code x ≡ (ok c, record x { configs = configs })
unfolding synced
synced_ok reload code x c configs h = rw (synced, h) refl

module _ (env : Env) (reload : String → Result (Dict Config))
    (apply_async : Canvas → Result {0} Unit) where
  -- A workflow whose configuration is there with the version "2" gets one new row, new and with the
  -- template whose user code is the workflow's without its space, and one message is sent that
  -- launches it in the order's context; nothing else changes in the store.
  pub execute_workflow_launches :
      (o : Order) (x : World) (user : User) (c : Config) (configs : Dict Config)
      (t : WorkflowTemplate)
      → find (λ u. str_eq u.username o.username) x.store.users ≡ some user
      → get_synced reload o.user_code x.configs ≡ ok (c, configs)
      → holds_str o.space_code x.store.space.space_code ≡ true
      → get_one (is_template (after_point o.user_code)) x.store.templates ≡ ok t
      → is_text_two c.version ≡ true
      → execute_workflow env reload apply_async o x ≡ (
        ok (ordered env o user.id (some t.id) c x.store.next_workflow),
        record {
          store =
              send
                (execute_workflow_v2
                  (ordered env o user.id (some t.id) c x.store.next_workflow).id
                  (order_context o))
                (add_workflow (ordered env o user.id (some t.id) c) x.store);
          configs = configs;
        },
      )
  unfolding execute_workflow
  execute_workflow_launches o x user c configs t hu hc hs ht hv =
      rw (hu, synced_ok reload o.user_code x c configs hc, hs, ht, hv) refl

  -- A workflow that is no manager runs no new workflow, and a manager runs no manager: an exception
  -- is raised and the store is as before.
  pub run_new_workflow_refuses :
      (w : Workflow) (code : String) (payload : Option Json) (x : World)
      → (w.is_manager ≡ false)
        ⊎ ((c : Config) × (configs : Dict Config) × (get_synced reload
                (str_append x.store.space.space_code (str_append "." code))
                x.configs
              ≡ ok (c, configs))
            × (manages c ≡ true))
      → (e : Error) × ((run_new_workflow env reload apply_async w code payload x).0 ≡ err e)
        × ((run_new_workflow env reload apply_async w code payload x).1.store ≡ x.store)
  unfolding run_new_workflow
  run_new_workflow_refuses w code payload x h = elim (Bool-cases (str_eq code "")) [
    | inl blank ↦ rw blank (exception "User code is required.", refl, refl)
    | inr full ↦ elim h [
      | inl plain ↦
          rw (full, plain)
            (exception "Workflow is not manager. Can't run new workflow.", refl, refl)
      | inr (c, configs, known, also) ↦ elim (Bool-cases w.is_manager) [
        | inr plain ↦
            rw (full, plain)
              (exception "Workflow is not manager. Can't run new workflow.", refl, refl)
        | inl manager ↦
            rw (full, manager, synced_ok reload _ x c configs known, also)
              (
                exception "New Workflow is manager. Manager can't execute another manager",
                refl,
                refl,
              )
      ]
    ]
  ]
