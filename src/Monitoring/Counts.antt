-- ===== src/Monitoring/Counts.antt =====
-- The counts of a worker's tasks are the lengths of its lists.
use finmars_workflow.Common.{
  ◌+◌, String, ◌≡◌, refl, Option, none, some, List, [], ◌∷◌, ◌++◌, length, arith, All, Bool-cases,
  inl, inr, str_eq,
}
use finmars_workflow.Common.Dict.{Dict, lookup, insert}
use finmars_workflow.Common.Exec.{Result, ok, err}
use finmars_workflow.Json.{Json}
use finmars_workflow.Monitoring.{
  Stats, TaskType, active, scheduled, pending, count_task, count_tasks, TasksData, workers_of,
  stats_of, add_worker, add_named, then_on, or_nothing, replies, Inspection, add_workers, collected,
  get_tasks_data,
}

abbrev pub IsCounted : Stats → Type 0
IsCounted s =
    (s.active_tasks_count ≡ length s.active_tasks)
    × (s.scheduled_tasks_count ≡ length s.scheduled_tasks)
    × (s.pending_tasks_count ≡ length s.pending_tasks)
    × (s.total_tasks_count
        ≡ length s.active_tasks + length s.scheduled_tasks + length s.pending_tasks)

abbrev pub AreCounted : TasksData → Type 0
AreCounted d = All (λ w. All (λ n. IsCounted n.1) w.1) d

length-snoc : (xs : List Json) (x : Json) → length (xs ++ x ∷ []) ≡ length xs + 1
length-snoc [] x = refl
length-snoc (y ∷ xs) x = let rest = length-snoc xs x in omega arith

count_task-IsCounted :
    (kind : TaskType) (t : Json) (s : Stats) → IsCounted s → IsCounted (count_task kind t s)
unfolding count_task
count_task-IsCounted active t s (a, b, c, d) =
    let more = length-snoc s.active_tasks t in (omega arith, b, c, omega arith)
count_task-IsCounted scheduled t s (a, b, c, d) =
    let more = length-snoc s.scheduled_tasks t in (a, omega arith, c, omega arith)
count_task-IsCounted pending t s (a, b, c, d) =
    let more = length-snoc s.pending_tasks t in (a, b, omega arith, omega arith)

count_tasks-IsCounted :
    (kind : TaskType) (ts : List Json) (s : Stats) → IsCounted s → IsCounted (count_tasks kind ts s)
unfolding count_tasks
count_tasks-IsCounted kind [] s h = h
count_tasks-IsCounted kind (t ∷ ts) s h =
    count_tasks-IsCounted kind ts (count_task kind t s) (count_task-IsCounted kind t s h)

module _ {A : Type 0} (P : A → Type 0) where
  abbrev IfThere : Option A → Type 0
  IfThere none = Unit
  IfThere (some a) = P a

  All-lookup : (k : String) (d : Dict A) → All (λ e. P e.1) d → IfThere (lookup k d)
  unfolding lookup
  All-lookup k [] h = tt
  All-lookup k ((j, v) ∷ d) h = elim (Bool-cases (str_eq j k)) [
    | inl e ↦ rw e h.0
    | inr e ↦ rw e (All-lookup k d h.1)
  ]

  All-insert :
      (k : String) (v : A) (d : Dict A) → P v → All (λ e. P e.1) d → All (λ e. P e.1) (insert k v d)
  unfolding insert
  All-insert k v [] pv h = (pv, tt)
  All-insert k v ((j, w) ∷ d) pv h = elim (Bool-cases (str_eq j k)) [
    | inl e ↦ rw e (pv, h.1)
    | inr e ↦ rw e (h.0, All-insert k v d pv h.1)
  ]

abbrev Workers : Dict Stats → Type 0
Workers d = All (λ n. IsCounted n.1) d

workers_of-Workers : (o : Option (Dict Stats)) → IfThere Workers o → Workers (workers_of o)
workers_of-Workers none h = tt
workers_of-Workers (some d) h = h

stats_of-IsCounted : (o : Option Stats) → IfThere IsCounted o → IsCounted (stats_of o)
stats_of-IsCounted none h = (refl, refl, refl, refl)
stats_of-IsCounted (some s) h = h

add_worker-AreCounted :
    (kind : TaskType) (worker_type worker_name : String) (tasks : List Json) (d : TasksData)
    → AreCounted d
    → AreCounted (add_worker kind worker_type worker_name tasks d)
unfolding add_worker
add_worker-AreCounted kind worker_type worker_name tasks d h =
    let there = workers_of (lookup worker_type d) in
    let fine = workers_of-Workers (lookup worker_type d) (All-lookup Workers worker_type d h) in
    let s = stats_of (lookup worker_name there) in
    let counted =
      stats_of-IsCounted (lookup worker_name there) (All-lookup IsCounted worker_name there fine) in
    All-insert Workers worker_type (insert worker_name (count_tasks kind tasks s) there) d
      (All-insert IsCounted worker_name (count_tasks kind tasks s) there
        (count_tasks-IsCounted kind tasks s counted) fine)
      h

abbrev CountedOrError : Result TasksData → Type 0
CountedOrError (ok d) = AreCounted d
CountedOrError (err e) = Unit

module _ (split : String → Option (String × String)) where
  add_workers-CountedOrError :
      (kind : TaskType) (ws : Dict (List Json)) (d : TasksData)
      → AreCounted d
      → CountedOrError (add_workers split kind ws d)
  unfolding add_workers
  add_workers-CountedOrError kind [] d h = h
  add_workers-CountedOrError kind ((full, tasks) ∷ ws) d h =
      go (split full) (add_workers-CountedOrError kind ws)
    where
      go :
          (o : Option (String × String))
          → ((d : TasksData) → AreCounted d → CountedOrError (add_workers split kind ws d))
          → CountedOrError (add_named kind tasks d (add_workers split kind ws) o)
      go none rest = tt
      go (some (worker_type, worker_name)) rest =
          rest (add_worker kind worker_type worker_name tasks d)
            (add_worker-AreCounted kind worker_type worker_name tasks d h)

  then_on-CountedOrError :
      (f : TasksData → Result TasksData) (r : Result TasksData)
      → ((d : TasksData) → AreCounted d → CountedOrError (f d))
      → CountedOrError r
      → CountedOrError (then_on f r)
  then_on-CountedOrError f (err e) k h = tt
  then_on-CountedOrError f (ok d) k h = k d h

  or_nothing-AreCounted : (r : Result TasksData) → CountedOrError r → AreCounted (or_nothing r)
  or_nothing-AreCounted (err e) h = tt
  or_nothing-AreCounted (ok d) h = h

  -- Whatever the workers report, for each worker the three counts are the lengths of its lists of tasks, and
  -- the total is their sum.
  pub get_tasks_data-AreCounted : (r : Result Inspection) → AreCounted (get_tasks_data split r)
  unfolding get_tasks_data
  get_tasks_data-AreCounted (err e) = tt
  get_tasks_data-AreCounted (ok i) = or_nothing-AreCounted (collected split i) (
      then_on-CountedOrError (add_workers split pending (replies i.reserved_of)) _
        (add_workers-CountedOrError pending (replies i.reserved_of))
        (then_on-CountedOrError (add_workers split scheduled (replies i.scheduled_of)) _
          (add_workers-CountedOrError scheduled (replies i.scheduled_of))
          (add_workers-CountedOrError active (replies i.active_of) [] tt)))
