-- ===== src/Schedules/Tests.antt =====
-- The theorems on schedules: two schemas with changes, and a crontab in both orders.
use mathlib.Core.Bool.{false≢true}
use finmars_workflow.Common.{
  not, ◌&&◌, ◌==◌, ==-refl, ◌≢◌, ◌⊎◌, inr, ◌∙◌, Bool, Bool-cases, ℕ, String, ◌≡◌, refl, ap, inl,
  true, false, Option, none, some, List, [], ◌∷◌, any, str_eq, eq_iff, if◌then◌else◌,
}
use finmars_workflow.Common.Exec.{Error, exception, Result, http404, ok, err, value_error}
use finmars_workflow.Json.{Json, str, arr, obj, Fields, end, field}
use finmars_workflow.Json.Codec.{Codec}
use finmars_workflow.Common.Dict.{Dict, has}
use finmars_workflow.Models.{Store, WorkflowStatus}
use finmars_workflow.Tenancy.{set_search_path}
use finmars_workflow.Schedules.{Clockwork, cron, build_celery_schedule, is_later, schedule_changed}
use finmars_workflow.Schedules.Changes.{IsThere, schedule_changed_lem}
use finmars_workflow.Schedules.Crontab.{build_celery_schedule_orders, crontab_line-set_crontab_line}
use finmars_workflow.Schedules.Rows.{
  Schedule, Crontab, Saving, PeriodicTask, Times, get_or_create, args_of, kwargs_of, crontab_line,
  set_crontab_line,
}
use finmars_workflow.Schedules.Stored.{Keeps, IsFree, IsTimed}
use finmars_workflow.Schedules.Entries.{all_as_schedule, all_as_schedule-has}
use finmars_workflow.Schedules.Periodic.{
  Values, IsMute, init_periodic_tasks, init_periodic_tasks-IsMute,
}
use finmars_workflow.Schedules.Manual.{run_manual}
use finmars_workflow.Fixtures.{store_with, test_env, one_codec}

abbrev quiet : Store
quiet = store_with WorkflowStatus.init []

abbrev changed_at : String → Option ℕ
changed_at x = if str_eq x "space" then some 9 else none

public-IsThere : IsThere quiet.schemas "public"
public-IsThere = (λ e. false≢true ((eq_iff "public" "").1 e), refl)

space-IsThere : IsThere quiet.schemas "space"
space-IsThere = (λ e. false≢true ((eq_iff "space" "").1 e), refl)

schedule_changed_lem_example :
    (ts : Option ℕ) × (path : String) × (schedule_changed
        (λ x. ok (changed_at x))
        ("public" ∷ "space" ∷ [])
        (some 7)
        quiet
      ≡ (
        ok (any (λ x. is_later (changed_at x) (some 7)) ("public" ∷ "space" ∷ []), ts),
        set_search_path path quiet,
      ))
schedule_changed_lem_example =
    schedule_changed_lem changed_at ("public" ∷ "space" ∷ []) 7 quiet
      (public-IsThere, (space-IsThere, tt))

abbrev parts : String → List String
parts s =
    if str_eq s "1 2 5 3 4"
    then "1" ∷ "2" ∷ "5" ∷ "3" ∷ "4" ∷ []
    else "1" ∷ "2" ∷ "3" ∷ "4" ∷ "5" ∷ []

abbrev wall_clock : Clockwork ℕ (List String)
wall_clock = record {
  float = λ _. err value_error;
  text = λ _. "text";
  split = parts;
  crontab = λ m h dm my dw. ok (m ∷ h ∷ dm ∷ my ∷ dw ∷ []);
}

build_celery_schedule_orders_example :
    (build_celery_schedule wall_clock (field "schedule" (str "1 2 5 3 4") end)
      ≡ ok ("text", cron ("1" ∷ "2" ∷ "3" ∷ "4" ∷ "5" ∷ [])))
    × (build_celery_schedule wall_clock (field "crontab" (str "1 2 3 4 5") end)
        ≡ ok ("text", cron ("1" ∷ "2" ∷ "3" ∷ "4" ∷ "5" ∷ [])))
build_celery_schedule_orders_example =
    build_celery_schedule_orders wall_clock "1 2 5 3 4" "1 2 3 4 5" "1" "2" "3" "4" "5"
      ("1" ∷ "2" ∷ "3" ∷ "4" ∷ "5" ∷ []) refl refl refl refl

abbrev pub nine : Crontab
nine = record {
  id = none;
  minute = "0";
  hour = "9";
  day_of_month = "*";
  month_of_year = "*";
  day_of_week = "1";
}

-- Every Monday at nine, not stored yet.
abbrev pub weekly : Schedule
weekly = record {
  id = none;
  name = "";
  queue = none;
  task = "";
  args = "[]";
  kwargs = "{}";
  crontab = some nine;
  payload = none;
  is_manager = false;
  space = record { realm_code = some "realm"; space_code = "space" };
  owner = "finmars_bot";
  workflow_user_code = "report";
  enabled = true;
  last_run_at = none;
}

abbrev dumps : Json → String
dumps (arr _) = "args"
dumps _ = "kwargs"

abbrev loads : String → Option Json
loads t =
    if str_eq t "args"
    then some (args_of weekly)
    else some (kwargs_of weekly.space (some 5) (some 3))

abbrev pub two_texts : Codec
two_texts = record { dumps = dumps; loads = loads }

abbrev pub empty_table : Saving
empty_table = record {
  self = weekly;
  schedules = [];
  next_schedule = 3;
  crontabs = [];
  next_crontab = 5;
}

abbrev same_row : Option ℕ → Option ℕ → Bool
same_row (some j) (some k) = j == k
same_row _ _ = false

abbrev clashes : Schedule → Schedule → Bool
clashes r o = str_eq o.name r.name && not (same_row o.id r.id)

abbrev validated : List Schedule → Schedule → Option Crontab → Option Error
validated rows r none = some (exception "One of clocked, interval, crontab, or solar must be set.")
validated rows r (some _) =
    if any (clashes r) rows then some (exception "A task of this name already exists.") else none

-- A row without a crontab and a name that is taken are refused; nothing is tidied.
abbrev pub plain : PeriodicTask
plain = record { refuse = λ rows r. validated rows r r.crontab; tidy = λ r. r }

free_is_new :
    (r o : Schedule)
    → (o.name ≢ r.name) ⊎ ((k : ℕ) × (o.id ≡ some k) × (r.id ≡ some k))
    → clashes r o ≡ false
free_is_new r o (inl other) = elim (Bool-cases (str_eq o.name r.name)) [
  | inl e ↦ absurd (other ((eq_iff o.name r.name).0 e))
  | inr e ↦ rw e refl
]
free_is_new r o (inr (k, e, f)) =
    let same : same_row o.id r.id ≡ true =
      ap (λ i. same_row i r.id) e ∙ ap (λ i. same_row (some k) i) f ∙ ==-refl k in
    elim (Bool-cases (str_eq o.name r.name)) [ inl b ↦ rw (b, same) refl | inr b ↦ rw b refl ]

no_clash :
    (rows : List Schedule) (r : Schedule) → IsFree rows r.id r.name → any (clashes r) rows ≡ false
no_clash [] r h = refl
no_clash (o ∷ rows) r h = rw (free_is_new r o h.0, no_clash rows r h.1) refl

pub plain_accepts :
    (rows : List Schedule) (r : Schedule)
    → IsFree rows r.id r.name
    → IsTimed r.crontab
    → plain.refuse rows r ≡ none
plain_accepts rows r free (a, timed) = ap (validated rows r) timed ∙ rw (no_clash rows r free) refl

pub plain-Keeps : Keeps plain
plain-Keeps = record {
  id = λ _. refl;
  name = λ _. refl;
  args = λ _. refl;
  kwargs = λ _. refl;
  space = λ _. refl;
  owner = λ _. refl;
  crontab = λ _. refl;
}

abbrev id_of : Result Crontab → Option ℕ
id_of (ok a) = a.id
id_of (err e) = none

pub reads_kwargs :
    (a : Crontab)
    → (get_or_create nine empty_table).0 ≡ ok a
    → loads (dumps (kwargs_of weekly.space a.id (some 3)))
      ≡ some (kwargs_of weekly.space a.id (some 3))
unfolding get_or_create finmars_workflow.Models.Tables.get_one
reads_kwargs a h = ap (λ i. some (kwargs_of weekly.space i (some 3))) (ap id_of h)

abbrev texts : Times (List String)
texts = record {
  split = λ _. "0" ∷ "9" ∷ "*" ∷ "*" ∷ "1" ∷ [];
  crontab = λ m h d mo w. ok (m ∷ h ∷ d ∷ mo ∷ w ∷ []);
  from_schedule = λ _. nine;
}

crontab_line-set_crontab_line_example :
    (s' : Saving) × (set_crontab_line texts "0 9 * * 1" empty_table ≡ (ok tt, s'))
    × (crontab_line s'.self.crontab ≡ some "0 9 * * 1")
    × (s'.schedules ≡ [])
    × (s'.crontabs ≡ [])
crontab_line-set_crontab_line_example =
    crontab_line-set_crontab_line texts "0 9 * * 1" "0" "9" "*" "*" "1"
      ("0" ∷ "9" ∷ "*" ∷ "*" ∷ "1" ∷ []) empty_table refl refl refl
      (record {
        minute = refl;
        hour = refl;
        day_of_month = refl;
        month_of_year = refl;
        day_of_week = refl;
      })

abbrev enabled : String → List Schedule
enabled x = if str_eq x "space" then record weekly { name = "weekly" } ∷ [] else []

abbrev entry : Schedule → Result String
entry m = ok m.name

all_as_schedule-has_example :
    (d : Dict String) × (path : String) × (all_as_schedule entry enabled
        ("public" ∷ "space" ∷ [])
        quiet
      ≡ (ok d, set_search_path path quiet))
    × (has "space:weekly" d ≡ true)
all_as_schedule-has_example =
    all_as_schedule-has entry enabled "space:weekly" ("public" ∷ "space" ∷ []) quiet
      (λ m. inl (m.name, refl)) (public-IsThere, (space-IsThere, tt))

abbrev daily : Dict Fields
daily =
    (
      "space.report",
      field "realm_code" (str "realm") (
          field "space_code" (str "space")
            (field "periodic" (obj (field "crontab" (str "1 2 3 4 5") end)) end)),
    )
    ∷ []

init_periodic_tasks-IsMute_example :
    Values
      (IsMute test_env (λ _. err value_error) (λ _. ok tt) one_codec wall_clock)
      (init_periodic_tasks one_codec wall_clock daily []).1
init_periodic_tasks-IsMute_example =
    init_periodic_tasks-IsMute test_env (λ _. err value_error) (λ _. ok tt) one_codec wall_clock
      daily

-- The schedule as it is stored.
abbrev stored : Schedule
stored = record weekly {
  id = some 3;
  args = "args";
  kwargs = "kwargs";
  crontab = some (record nine { id = some 5 });
}

run_manual_test : (run_manual (λ _ _. ok tt) (ok stored)).status ≡ 202
unfolding run_manual
run_manual_test = refl

-- A schedule that is not there is answered as a failure of the server.
run_manual_missing_test :
    run_manual (λ _ _. ok tt) (err http404) ≡ record { status = 500; sent = [] }
unfolding run_manual
run_manual_missing_test = refl
