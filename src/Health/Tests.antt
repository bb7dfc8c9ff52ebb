-- ===== src/Health/Tests.antt =====
-- Runs of the health check.
use finmars_workflow.Common.{◌≡◌, refl, none, some, [], ◌∷◌}
use finmars_workflow.Health.{
  Limits, TestTable, Writes, reads, database_error, health_view, all_errors,
}

abbrev limits : Limits
limits = record { disk_usage_max = 90; memory_min = 100 }

abbrev one_row : TestTable
one_row = record { rows = (1, "First") ∷ []; next = 2 }

abbrev no_failures : Writes
no_failures = record { on_create = none; on_save = none; on_delete = none }

well_test :
    health_view limits (reads 50) (reads 200000000) no_failures one_row
    ≡ (some 200, record one_row { next = 3 })
unfolding health_view all_errors
well_test = refl

full_disk_test :
    health_view limits (reads 90) (reads 200000000) no_failures one_row
    ≡ (some 500, record one_row { next = 3 })
unfolding health_view all_errors
full_disk_test = refl

-- A save that fails leaves the row that was created.
failed_save_test :
    health_view limits
      (reads 50)
      (reads 200000000)
      (record no_failures { on_save = some database_error })
      one_row
    ≡ (some 500, record { rows = (2, "First") ∷ (1, "First") ∷ []; next = 3 })
unfolding health_view all_errors
failed_save_test = refl
