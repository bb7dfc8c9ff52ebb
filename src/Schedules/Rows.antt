-- ===== src/Schedules/Rows.antt =====
-- The rows of `Schedule` in workflow/models.py: `save`, `crontab_line` and its setter,
-- and `get_next_run_at`. What `save` of
-- django_celery_beat's PeriodicTask refuses and tidies before it stores, Celery's `crontab`,
-- `from_schedule`, `split` and croniter are parameters.
use finmars_workflow.Common.{
  ℕ, ◌+◌, String, Bool, ◌&&◌, Option, none, some, List, [], ◌∷◌, map, str_eq, str_append, any,
  holds_id, if◌then◌else◌,
}
use finmars_workflow.Common.Exec.{
  Exec, Result, ok, err, Error, attribute_error, value_error, lift, gets, modify, raise, ◌>>=◌,
  ◌>>◌,
}
use finmars_workflow.Json.{Json, null, bool, num, str, arr, obj, nil, cons, end, field, or_null}
use finmars_workflow.Json.Codec.{Codec}
use finmars_workflow.Models.{Space}
use finmars_workflow.Models.Tables.{get_one}

pub record Crontab : Type 0 where
  pub id : Option ℕ
  pub minute : String
  pub hour : String
  pub day_of_month : String
  pub month_of_year : String
  pub day_of_week : String

-- `args` and `kwargs` are texts; an `id` is absent until the row is stored.
pub record Schedule : Type 0 where
  pub id : Option ℕ
  pub name : String
  pub queue : Option String
  pub task : String
  pub args : String
  pub kwargs : String
  pub crontab : Option Crontab
  pub payload : Option Json
  pub is_manager : Bool
  pub space : Space
  pub owner : String
  pub workflow_user_code : String
  pub enabled : Bool
  pub last_run_at : Option ℕ

-- The instance that is saved, and the two tables with the ids they give next.
pub record Saving : Type 0 where
  pub self : Schedule
  pub schedules : List Schedule
  pub next_schedule : ℕ
  pub crontabs : List Crontab
  pub next_crontab : ℕ

pub record PeriodicTask : Type 0 where
  pub refuse : List Schedule → Schedule → Option Error
  pub tidy : Schedule → Schedule

abbrev pub line_of : String → String → String → String → String → String
line_of m h d mo w = str_append m (
    str_append " " (
      str_append h
        (str_append " " (str_append d (str_append " " (str_append mo (str_append " " w)))))))

-- crontab_line
abbrev pub crontab_line : Option Crontab → Option String
crontab_line none = none
crontab_line (some c) = some (line_of c.minute c.hour c.day_of_month c.month_of_year c.day_of_week)

-- An absent line is written "None".
abbrev pub line_text : Option String → String
line_text none = "None"
line_text (some l) = l

abbrev pub space_user_code : Schedule → String
space_user_code s = str_append s.space.space_code (str_append "." s.workflow_user_code)

abbrev pub name_of : Schedule → String
name_of s =
    if str_eq s.name ""
    then str_append "periodic-"
        (str_append (space_user_code s) (str_append "-" (line_text (crontab_line s.crontab))))
    else s.name

abbrev pub opt_text : Option String → Json
opt_text none = null
opt_text (some t) = str t

abbrev pub opt_num : Option ℕ → Json
opt_num none = null
opt_num (some n) = num n

abbrev pub args_of : Schedule → Json
args_of s =
    arr (cons (str (space_user_code s)) (cons (or_null s.payload) (cons (bool s.is_manager) nil)))

abbrev pub kwargs_of : Space → Option ℕ → Option ℕ → Json
kwargs_of p crontab_id id = obj (
    field "context"
      (obj (field "realm_code" (opt_text p.realm_code) (field "space_code" (str p.space_code) end)))
      (field "crontab_id" (opt_num crontab_id) (field "schedule_id" (opt_num id) end)))

-- The fields that are written before the crontab is looked up.
abbrev pub prepared : Codec → Schedule → Schedule
prepared c s = record s {
  queue = some "workflow";
  task = "workflow.tasks.workflows.execute";
  name = name_of s;
  args = c.dumps (args_of s);
}

abbrev pub same_times : Crontab → Crontab → Bool
same_times a b =
    str_eq b.minute a.minute
    && str_eq b.hour a.hour
    && str_eq b.day_of_month a.day_of_month
    && str_eq b.month_of_year a.month_of_year
    && str_eq b.day_of_week a.day_of_week

-- CrontabSchedule.objects.get_or_create(...), by what the query finds
abbrev pub created : Result Crontab → Crontab → Exec Saving Crontab
created (ok c) a s = (ok c, s)
created (err Error.does_not_exist) a s =
    let c : Crontab = record a { id = some s.next_crontab } in
    (ok c, record s { crontabs = c ∷ s.crontabs; next_crontab = s.next_crontab + 1 })
created (err e) a s = (err e, s)

unfoldable pub get_or_create : Crontab → Exec Saving Crontab
get_or_create a s = created (get_one (same_times a) s.crontabs) a s

abbrev pub has_id : ℕ → Schedule → Bool
has_id k s = holds_id s.id k

-- Model.save: an INSERT with a new id, or an UPDATE of the row with the id, and an INSERT where there is none.
abbrev pub store_at : Option ℕ → Saving → Saving
store_at none s =
    let row : Schedule = record s.self { id = some s.next_schedule } in
    record s { self = row; schedules = row ∷ s.schedules; next_schedule = s.next_schedule + 1 }
store_at (some k) s =
    if any (has_id k) s.schedules
    then record s { schedules = map (λ o. if has_id k o then s.self else o) s.schedules }
    else record s { schedules = s.self ∷ s.schedules }

abbrev pub store_row : Saving → Saving
store_row s = store_at s.self.id s

-- save(update_fields=["kwargs"])
abbrev pub store_kwargs_at : Option ℕ → Saving → Saving
store_kwargs_at none s = s
store_kwargs_at (some k) s = record s {
  schedules = map (λ o. if has_id k o then record o { kwargs = s.self.kwargs } else o) s.schedules;
}

abbrev pub store_kwargs : Saving → Saving
store_kwargs s = store_kwargs_at s.self.id s

-- PeriodicTask.save
abbrev pub unless_refused : Option Error → (Saving → Saving) → Exec Saving Unit
unless_refused none store s = (ok tt, store s)
unless_refused (some e) store s = (err e, s)

unfoldable pub super_save : PeriodicTask → (Saving → Saving) → Exec Saving Unit
super_save p store s =
    unless_refused (p.refuse s.schedules s.self) (λ t. store (record t { self = p.tidy t.self })) s

abbrev pub set_crontab : Crontab → Saving → Saving
set_crontab a s = record s { self = record s.self { crontab = some a } }

abbrev pub set_kwargs : Codec → Crontab → Saving → Saving
set_kwargs c a s = record s {
  self = record s.self { kwargs = c.dumps (kwargs_of s.self.space a.id s.self.id) };
}

-- A new row is stored twice, since its kwargs name its id.
unfoldable pub store_self : Codec → PeriodicTask → Crontab → Option ℕ → Exec Saving Unit
store_self c p a none = do
  super_save p store_row
  modify (set_kwargs c a)
  super_save p store_kwargs
store_self c p a (some k) = do modify (set_kwargs c a); super_save p store_row

-- The crontab is looked up by its times; None has none.
unfoldable pub save_timed : Codec → PeriodicTask → Option Crontab → Exec Saving Unit
save_timed c p none = raise attribute_error
save_timed c p (some t) = do
  a ← get_or_create t
  modify (set_crontab a)
  id ← gets (λ s. s.self.id)
  store_self c p a id

unfoldable pub save : Codec → PeriodicTask → Exec Saving Unit
save c p = do
  modify (λ s. record s { self = prepared c s.self })
  crontab ← gets (λ s. s.self.crontab)
  save_timed c p crontab

-- schedules.crontab(...), CrontabSchedule.from_schedule and value.split(" ")
pub record Times (Cron : Type 0) : Type 0 where
  pub split : String → List String
  pub crontab : String → String → String → String → String → Result Cron
  pub from_schedule : Cron → Crontab

module _ {Cron : Type 0} (t : Times Cron) where
  from_parts : List String → Result Cron
  from_parts (m ∷ h ∷ d ∷ mo ∷ w ∷ []) = t.crontab m h d mo w
  from_parts _ = err value_error

  -- The setter of crontab_line.
  unfoldable pub set_crontab_line : String → Exec Saving Unit
  unfolding from_parts
  set_crontab_line value = do
    schedule ← lift (from_parts (t.split value))
    modify (set_crontab (t.from_schedule schedule))

-- get_next_run_at: croniter at the line and the time; every exception gives None.
unfoldable pub get_next_run_at :
    {Time : Type 0} → (Option String → Result Time) → Schedule → Option Time
get_next_run_at next s = elim (next (crontab_line s.crontab)) [ ok t ↦ some t | err e ↦ none ]
