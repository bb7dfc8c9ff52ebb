-- ===== src/Health.antt =====
-- The health check: the plugins of healthcheck/handlers.py and `HealthcheckView` of healthcheck/views.py.
-- What psutil reads, and what the database raises at each of the three writes, are parameters; a percentage
-- and its bound are counted in the same unit. The plugins run in threads of their own: only one of them
-- writes, and their errors are put together in the plugins' order.
pub mod Checked
pub mod Tests
use finmars_workflow.Common.{
  ℕ, ◌+◌, ◌*◌, String, Bool, not, ◌&&◌, Option, none, some, List, [], ◌∷◌, ◌++◌, leb, ltb, ◌==◌,
  select, map, if◌then◌else◌,
}

-- The first three are HealthCheckExceptions.
pub data Trouble : Type 0 where
  service_warning unexpected_result unavailable : Trouble
  value_error integrity_error database_error other : Trouble

-- What a check did: it passed, or it raised.
pub data Outcome : Type 0 where
  passed : Outcome
  raised : Trouble → Outcome

-- The errors that a plugin recorded, or what its run raised.
pub data Recorded : Type 0 where
  errors : List Trouble → Recorded
  broken : Trouble → Recorded

-- run_check of a plugin
abbrev pub run_check : Outcome → Recorded
run_check passed = errors []
run_check (raised service_warning) = errors (service_warning ∷ [])
run_check (raised unexpected_result) = errors (unexpected_result ∷ [])
run_check (raised unavailable) = errors (unavailable ∷ [])
run_check (raised e) = broken e

-- A ValueError of psutil is recorded as an error inside the check, which then passes.
abbrev pub recorded : Outcome → Recorded
recorded (raised value_error) = errors (unexpected_result ∷ [])
recorded o = run_check o

pub record Limits : Type 0 where
  pub disk_usage_max : ℕ
  pub memory_min : ℕ

-- psutil.disk_usage("/").percent and psutil.virtual_memory().available, or what they raise
pub data Reading : Type 0 where
  reads : ℕ → Reading
  fails : Trouble → Reading

-- A limit of 0 is false.
abbrev pub check_disk : Limits → Reading → Outcome
check_disk l (fails e) = raised e
check_disk l (reads percent) =
    if not (l.disk_usage_max == 0) && leb l.disk_usage_max percent
    then raised service_warning
    else passed

abbrev pub check_memory : Limits → Reading → Outcome
check_memory l (fails e) = raised e
check_memory l (reads available) =
    if not (l.memory_min == 0) && ltb available (l.memory_min * 1024 * 1024)
    then raised service_warning
    else passed

-- The rows of HealthcheckTestModel, newest first.
pub record TestTable : Type 0 where
  pub rows : List (ℕ × String)
  pub next : ℕ

pub record Writes : Type 0 where
  pub on_create : Option Trouble
  pub on_save : Option Trouble
  pub on_delete : Option Trouble

-- except IntegrityError, and except DatabaseError
abbrev pub translated : Trouble → Trouble
translated integrity_error = unexpected_result
translated database_error = unavailable
translated e = e

abbrev pub rename : ℕ → String → List (ℕ × String) → List (ℕ × String)
rename k name rows = map (λ r. if r.0 == k then (k, name) else r) rows

abbrev pub without : ℕ → List (ℕ × String) → List (ℕ × String)
without k rows = select (λ r. not (r.0 == k)) rows

abbrev pub delete_row : Option Trouble → ℕ → TestTable → Outcome × TestTable
delete_row none k t = (passed, record t { rows = without k t.rows })
delete_row (some e) k t = (raised (translated e), t)

abbrev pub save_row : Option Trouble → Option Trouble → ℕ → TestTable → Outcome × TestTable
save_row none d k t = delete_row d k (record t { rows = rename k "Second" t.rows })
save_row (some e) d k t = (raised (translated e), t)

-- create(name="First"), then save with another name, then delete
abbrev pub check_database :
    Option Trouble → Option Trouble → Option Trouble → TestTable → Outcome × TestTable
check_database none u d t =
    save_row u d t.next (record t { rows = (t.next, "First") ∷ t.rows; next = t.next + 1 })
check_database (some e) u d t = (raised (translated e), t)

-- errors.extend(plugin.errors), and a raise of the first plugin that is broken
abbrev pub extended : Recorded → Recorded → Recorded
extended (broken e) r = broken e
extended (errors es) (broken e) = broken e
extended (errors es) (errors fs) = errors (es ++ fs)

unfoldable pub all_errors : Limits → Reading → Reading → Outcome → Recorded
all_errors l disk memory database =
    extended (recorded (check_disk l disk)) (
      extended (recorded (check_memory l memory))
        (extended (run_check database) (run_check passed)))

-- The status of the answer; none where the view raises.
abbrev pub status_of : Recorded → Option ℕ
status_of (errors []) = some 200
status_of (errors (_ ∷ _)) = some 500
status_of (broken _) = none

unfoldable pub health_view : Limits → Reading → Reading → Writes → TestTable → Option ℕ × TestTable
unfolding all_errors
health_view l disk memory w t =
    let (database, t') = check_database w.on_create w.on_save w.on_delete t in
    (status_of (all_errors l disk memory database), t')
