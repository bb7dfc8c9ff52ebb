-- ===== src/Monitoring/Tests.antt =====
-- The theorems on the counts at one worker with two tasks, and on the queues at three.
use finmars_workflow.Common.{◌≡◌, false, true, some, none, List, [], ◌∷◌}
use finmars_workflow.Common.Exec.{ok}
use finmars_workflow.Json.{num, end}
use finmars_workflow.Monitoring.{Inspection, get_tasks_data}
use finmars_workflow.Monitoring.Queues.{
  Queue, queue, no_queue, group_of, stands, get_main_queues_info, get_main_queues_info-stands,
}
use finmars_workflow.Monitoring.Counts.{AreCounted, get_tasks_data-AreCounted}

abbrev two_tasks : Inspection
two_tasks = record {
  active_of = some (("celery@one", num 1 ∷ []) ∷ []);
  scheduled_of = none;
  reserved_of = some (("celery@one", num 2 ∷ []) ∷ []);
}

get_tasks_data-AreCounted_example :
    AreCounted (get_tasks_data (λ _. some ("celery", "one")) (ok two_tasks))
get_tasks_data-AreCounted_example =
    get_tasks_data-AreCounted (λ _. some ("celery", "one")) (ok two_tasks)

abbrev two_queues : List Queue
two_queues = queue (some "workflow") end ∷ queue (some "other") end ∷ no_queue ∷ []

get_main_queues_info-stands_example :
    stands
      (λ _ _. false)
      (λ _ _. false)
      "workflow"
      "workflow"
      (get_main_queues_info (λ _ _. false) (λ _ _. false) (some two_queues))
    ≡ true
unfolding group_of
get_main_queues_info-stands_example =
    get_main_queues_info-stands (λ _ _. false) (λ _ _. false) two_queues "workflow" "workflow"
