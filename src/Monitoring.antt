-- ===== src/Monitoring.antt =====
-- What the workers are doing: `CeleryMonitoring.get_tasks_data` of workflow/monitoring.py. What Celery's
-- inspection returns is a parameter, as is the splitting of a worker's name at "@".
pub mod Counts
pub mod Queues
pub mod Tests
use finmars_workflow.Common.{ℕ, ◌+◌, String, Option, none, some, List, [], ◌∷◌, ◌++◌}
use finmars_workflow.Common.Dict.{Dict, lookup, insert}
use finmars_workflow.Common.Exec.{Result, ok, err, Error, value_error}
use finmars_workflow.Json.{Json}

pub record Stats : Type 0 where
  pub active_tasks : List Json
  pub scheduled_tasks : List Json
  pub pending_tasks : List Json
  pub active_tasks_count : ℕ
  pub scheduled_tasks_count : ℕ
  pub pending_tasks_count : ℕ
  pub total_tasks_count : ℕ

abbrev pub no_tasks : Stats
no_tasks = record {
  active_tasks = [];
  scheduled_tasks = [];
  pending_tasks = [];
  active_tasks_count = 0;
  scheduled_tasks_count = 0;
  pending_tasks_count = 0;
  total_tasks_count = 0;
}

pub data TaskType : Type 0 where
  active scheduled pending : TaskType

-- The body of the innermost loop.
unfoldable pub count_task : TaskType → Json → Stats → Stats
count_task active t s = record s {
  active_tasks = s.active_tasks ++ t ∷ [];
  active_tasks_count = s.active_tasks_count + 1;
  total_tasks_count = s.total_tasks_count + 1;
}
count_task scheduled t s = record s {
  scheduled_tasks = s.scheduled_tasks ++ t ∷ [];
  scheduled_tasks_count = s.scheduled_tasks_count + 1;
  total_tasks_count = s.total_tasks_count + 1;
}
count_task pending t s = record s {
  pending_tasks = s.pending_tasks ++ t ∷ [];
  pending_tasks_count = s.pending_tasks_count + 1;
  total_tasks_count = s.total_tasks_count + 1;
}

unfoldable pub count_tasks : TaskType → List Json → Stats → Stats
count_tasks kind [] s = s
count_tasks kind (t ∷ ts) s = count_tasks kind ts (count_task kind t s)

-- By type of worker, and by its name.
abbrev pub TasksData : Type 0
TasksData = Dict (Dict Stats)

abbrev pub workers_of : Option (Dict Stats) → Dict Stats
workers_of none = []
workers_of (some d) = d

abbrev pub stats_of : Option Stats → Stats
stats_of none = no_tasks
stats_of (some s) = s

unfoldable pub add_worker : TaskType → String → String → List Json → TasksData → TasksData
add_worker kind worker_type worker_name tasks d =
    let workers = workers_of (lookup worker_type d) in
    let stats = count_tasks kind tasks (stats_of (lookup worker_name workers)) in
    insert worker_type (insert worker_name stats workers) d

-- A name that does not split into two is a ValueError.
abbrev pub add_named :
    TaskType
    → List Json
    → TasksData
    → (TasksData → Result TasksData)
    → Option (String × String)
    → Result TasksData
add_named kind tasks d rest none = err value_error
add_named kind tasks d rest (some (worker_type, worker_name)) =
    rest (add_worker kind worker_type worker_name tasks d)

abbrev pub then_on : (TasksData → Result TasksData) → Result TasksData → Result TasksData
then_on f (err e) = err e
then_on f (ok d) = f d

abbrev pub or_nothing : Result TasksData → TasksData
or_nothing (err e) = []
or_nothing (ok d) = d

-- self.insp.active() or {}
abbrev pub replies : Option (Dict (List Json)) → Dict (List Json)
replies none = []
replies (some d) = d

-- What the three inspections return.
pub record Inspection : Type 0 where
  pub active_of : Option (Dict (List Json))
  pub scheduled_of : Option (Dict (List Json))
  pub reserved_of : Option (Dict (List Json))

module _ (split : String → Option (String × String)) where
  unfoldable pub add_workers : TaskType → Dict (List Json) → TasksData → Result TasksData
  add_workers kind [] d = ok d
  add_workers kind ((full_worker_name, tasks) ∷ workers) d =
      add_named kind tasks d (add_workers kind workers) (split full_worker_name)

  abbrev pub collected : Inspection → Result TasksData
  collected i = then_on (add_workers pending (replies i.reserved_of)) (
      then_on (add_workers scheduled (replies i.scheduled_of))
        (add_workers active (replies i.active_of) []))

  -- What is raised is logged, and {} returned.
  unfoldable pub get_tasks_data : Result Inspection → TasksData
  get_tasks_data (err e) = []
  get_tasks_data (ok i) = or_nothing (collected i)
