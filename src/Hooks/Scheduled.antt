-- ===== src/Hooks/Scheduled.antt =====
-- The launch of a scheduled workflow by the task `execute`.
use finmars_workflow.Common.{
  ℕ, String, ◌≡◌, refl, true, Option, none, some, List, [], ◌∷◌, map, find, str_eq, holds_str,
  if◌then◌else◌, Bool-cases, inl, inr,
}
use finmars_workflow.Common.Dict.{Dict}
use finmars_workflow.Common.Exec.{Result, ok, err, caught, after, pure}
use finmars_workflow.Json.{Json}
use finmars_workflow.Models.{Env, User, Workflow, Store, Context}
use finmars_workflow.Tenancy.{set_schema_from_context}
use finmars_workflow.System.{Config}
use finmars_workflow.Builder.{Canvas}
use finmars_workflow.Launch.{execute_workflow}
use finmars_workflow.Json.Codec.{Codec}
use finmars_workflow.Schedules.Rows.{Schedule, has_id}
use finmars_workflow.Hooks.{Beat, at_world, touch, execute}

abbrev touched : Option ℕ → Option Schedule → Option Schedule
touched now none = none
touched now (some c) = some (record c { last_run_at = now })

find-touched :
    (k : ℕ) (now : Option ℕ) (rows : List Schedule)
    → find (has_id k) (map (λ c. if has_id k c then record c { last_run_at = now } else c) rows)
      ≡ touched now (find (has_id k) rows)
find-touched k now [] = refl
find-touched k now (c ∷ rows) = elim (Bool-cases (has_id k c)) [
  | inl e ↦ rw (e, e) refl
  | inr e ↦ rw (e, e) (find-touched k now rows)
]

-- None where the launch raised.
abbrev pub or_none : Result Workflow × Beat → Result (Option Workflow) × Beat
or_none (ok w, b) = (ok (some w), b)
or_none (err e, b) = (ok none, b)

launched_or_none :
    (q : Result Workflow × Beat)
    → caught (λ _. pure none) (after (λ w. pure (some w)) q) ≡ or_none q
launched_or_none (ok w, b) = refl
launched_or_none (err e, b) = refl

module _ (env : Env) (reload : String → Result (Dict Config))
    (apply_async : Canvas → Result {0} Unit) where
  -- Where the context's schema can be selected and holds the space it names, a call for a schedule that is
  -- there, whose owner is a user of that schema, marks the schedule as run now, and is the launch of the
  -- workflow of the user code in the owner's name, in that space, with the payload and the crontab: it
  -- returns the workflow, or None where the launch raises, with what the launch left.
  pub execute_scheduled :
      (code : String) (payload : Option Json) (context : Context) (k : ℕ) (crontab : Option ℕ)
      (b : Beat) (s : Store) (r : Schedule) (u : User)
      → set_schema_from_context (some context) b.world.store ≡ (ok tt, s)
      → find (has_id k) b.schedules ≡ some r
      → find (λ v. str_eq v.username r.owner) s.users ≡ some u
      → holds_str context.space_code s.space.space_code ≡ true
      → execute env reload apply_async code payload (some context) (some k) crontab b
        ≡ or_none (
            at_world
              (execute_workflow env reload apply_async (record {
                username = u.username;
                user_code = code;
                payload = payload;
                realm_code = s.space.realm_code;
                space_code = some s.space.space_code;
                platform_task_id = none;
                crontab = crontab;
              }))
              (touch (some k) (record b { world = record b.world { store = s } })))
  unfolding execute
  execute_scheduled code payload context k crontab b s r u selected there owned same =
      rw (selected, find-touched k (some s.clock) b.schedules, there, owned, same)
        (launched_or_none (
          at_world (execute_workflow env reload apply_async _)
            (touch (some k) (record b { world = record b.world { store = s } }))))
