-- ===== src/Schedules.antt =====
-- Periodic workflows: `build_celery_schedule` of workflow/utils.py, and `schedule_changed` of
-- `DatabaseScheduler` in workflow/schedulers.py. Python's `float`, `str` and `split`, Celery's
-- `crontab` and the scheduler's table of changes are parameters.
pub mod Changes
pub mod Crontab
pub mod Rows
pub mod Calls
pub mod Stored
pub mod Saved
pub mod Entries
pub mod Periodic
pub mod Manual
pub mod Tests
use finmars_workflow.Common.{
  ℕ, String, Bool, true, false, not, ◌||◌, Option, none, some, List, [], ◌∷◌, select, str_eq, ltb,
  if◌then◌else◌,
}
use finmars_workflow.Common.Exec.{
  Exec, Result, ok, err, Error, value_error, attribute_error, syntax_error, key_error, pure, gets,
  ◌>>=◌, ◌>>◌,
}
use finmars_workflow.Json.{Json, str, Fields, end, field, get}
use finmars_workflow.Models.{Store, Context}
use finmars_workflow.Tenancy.{set_schema_from_context}

-- The value of a schedule: seconds, or a crontab.
pub data Timing {ℓ} (Seconds Cron : Type ℓ) : Type ℓ where
  every : Seconds → Timing Seconds Cron
  cron : Cron → Timing Seconds Cron

-- `crontab` takes minute, hour, day of month, month of year and day of week.
pub record Clockwork (Seconds Cron : Type 0) : Type 0 where
  pub float : Json → Result Seconds
  pub text : Json → String
  pub split : String → List String
  pub crontab : String → String → String → String → String → Result Cron

-- The keys of a dictionary, in its order.
abbrev pub keys_of : Fields → List String
keys_of end = []
keys_of (field k _ fs) = k ∷ keys_of fs

module _ {Seconds Cron : Type 0} (c : Clockwork Seconds Cron) where
  parts_of : Json → Result (List String)
  parts_of (str s) = ok (c.split s)
  parts_of _ = err attribute_error

  as_cron : Result Cron → Result (Timing Seconds Cron)
  as_cron (ok v) = ok (cron v)
  as_cron (err e) = err e

  -- m, h, dw, dm, my = schedule.split(" ")
  legacy_parts : Result (List String) → Result (Timing Seconds Cron)
  unfolding as_cron
  legacy_parts (ok (m ∷ h ∷ dw ∷ dm ∷ my ∷ [])) = as_cron (c.crontab m h dm my dw)
  legacy_parts (ok _) = err value_error
  legacy_parts (err e) = err e

  -- m, h, dm, my, dw = ct.split(" ")
  current_parts : Result (List String) → Result (Timing Seconds Cron)
  unfolding as_cron
  current_parts (ok (m ∷ h ∷ dm ∷ my ∷ dw ∷ [])) = as_cron (c.crontab m h dm my dw)
  current_parts (ok _) = err value_error
  current_parts (err e) = err e

  -- float(schedule), and the parts of a crontab where that is a ValueError
  or_parts : Json → Result Seconds → Result (Timing Seconds Cron)
  unfolding legacy_parts parts_of
  or_parts v (ok s) = ok (every s)
  or_parts v (err value_error) = legacy_parts (parts_of v)
  or_parts v (err e) = err e

  as_every : Result Seconds → Result (Timing Seconds Cron)
  as_every (ok s) = ok (every s)
  as_every (err e) = err e

  -- schedule_functions[key](data[key]), for the one key that is left
  apply_key : String → Json → Result (Timing Seconds Cron)
  unfolding or_parts current_parts as_every parts_of
  apply_key k v =
      if str_eq k "schedule"
      then or_parts v (c.float v)
      else if str_eq k "crontab"
      then current_parts (parts_of v)
      else if str_eq k "interval"
      then as_every (c.float v)
      else err syntax_error

  -- Every exception is a WorkflowSyntaxError.
  with_text : Json → Result (Timing Seconds Cron) → Result (String × Timing Seconds Cron)
  with_text v (ok t) = ok (c.text v, t)
  with_text v (err e) = err syntax_error

  build_one : Option Json → String → Result (String × Timing Seconds Cron)
  unfolding with_text apply_key
  build_one none k = err key_error
  build_one (some v) k = with_text v (apply_key k v)

  build_keys : Fields → List String → Result (String × Timing Seconds Cron)
  unfolding build_one
  build_keys fs (k ∷ []) = build_one (get k fs) k
  build_keys fs _ = err syntax_error

  unfoldable pub build_celery_schedule : Fields → Result (String × Timing Seconds Cron)
  unfolding build_keys
  build_celery_schedule fs = build_keys fs (select (λ k. not (str_eq k "payload")) (keys_of fs))

-- ts = max(ts, last_change_in_schema), where None gives way
abbrev pub newer : Option ℕ → Option ℕ → Option ℕ
newer none c = c
newer ts none = ts
newer (some t) (some c) = some (if ltb t c then c else t)

-- ts and ts > (last if last else ts)
abbrev pub is_later : Option ℕ → Option ℕ → Bool
is_later none last = false
is_later (some t) none = ltb t t
is_later (some t) (some l) = ltb l t

-- The loop over the schemas; what `Changes.last_change()` reads depends on the search path. `none` is the `return False` for a database that cannot be read.
scan : (String → Result (Option ℕ)) → List String → Option ℕ → Exec Store (Option (Option ℕ))
scan last_change [] ts = pure (some ts)
scan last_change (schema ∷ schemas) ts = do
  set_schema_from_context (some (record { realm_code = none; space_code = some schema }))
  path ← gets (λ s. s.search_path)
  elim (last_change path) [ err e ↦ pure none | ok c ↦ scan last_change schemas (newer ts c) ]

-- The answer, and the `_last_timestamp` that is kept.
unfoldable pub schedule_changed :
    (String → Result (Option ℕ)) → List String → Option ℕ → Exec Store (Bool × Option ℕ)
unfolding scan
schedule_changed last_change schemas last = do
  found ← scan last_change schemas none
  elim found [ none ↦ pure (false, last) | some ts ↦ pure (is_later ts last, ts) ]
