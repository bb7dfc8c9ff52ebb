-- ===== src/Schedules/Saved.antt =====
-- What a schedule that is saved holds for the scheduler.
use finmars_workflow.Common.{ℕ, ◌≡◌, ◌⊎◌, Option, none, some}
use finmars_workflow.Common.Exec.{Result, ok, err, does_not_exist}
use finmars_workflow.Json.Codec.{Codec}
use finmars_workflow.Schedules.Rows.{Crontab}
use finmars_workflow.Schedules.Stored.{Stored}

-- At most one crontab has the times.
abbrev pub IsOneOrNone : Result Crontab → Type 0
IsOneOrNone r = (r ≡ err does_not_exist) ⊎ ((a : Crontab) × (r ≡ ok a))

abbrev pub id_after : Option ℕ → ℕ → ℕ
id_after none n = n
id_after (some k) n = k
