-- ===== src/Schedules/Calls.antt =====
-- The call of the task `execute` of workflow/tasks/workflows.py that a row of `Schedule`, or an entry of
-- the scheduler, stands for: its arguments and keywords, read as Celery passes them on.
use finmars_workflow.Common.{ℕ, String, Option, none, some}
use finmars_workflow.Json.{Json, null, num, str, arr, obj, cons, get}
use finmars_workflow.Json.Codec.{Codec}
use finmars_workflow.Models.{Context}
use finmars_workflow.Schedules.Rows.{Schedule}

-- What the task `execute` is called with; other keywords are passed over.
pub record Call : Type 0 where
  pub user_code : String
  pub payload : Option Json
  pub context : Option Context
  pub schedule_id : Option ℕ
  pub crontab_id : Option ℕ

abbrev pub not_null : Json → Option Json
not_null null = none
not_null v = some v

abbrev pub as_text : Option Json → Option String
as_text (some (str t)) = some t
as_text _ = none

abbrev pub as_id : Option Json → Option ℕ
as_id (some (num n)) = some n
as_id _ = none

abbrev pub as_context : Option Json → Option Context
as_context (some (obj fs)) = some (record {
  realm_code = as_text (get "realm_code" fs);
  space_code = as_text (get "space_code" fs);
})
as_context _ = none

-- execute(self, user_code, payload, is_manager, *args, **kwargs), called with JSON
unfoldable pub call_with : Json → Json → Option Call
call_with (arr (cons (str code) (cons payload (cons _ _)))) (obj fs) = some (record {
  user_code = code;
  payload = not_null payload;
  context = as_context (get "context" fs);
  schedule_id = as_id (get "schedule_id" fs);
  crontab_id = as_id (get "crontab_id" fs);
})
call_with _ _ = none

abbrev pub call_read : Option Json → Option Json → Option Call
call_read (some args) (some kwargs) = call_with args kwargs
call_read _ _ = none

-- The row as the scheduler sends it.
unfoldable pub call_of : Codec → Schedule → Option Call
call_of c s = call_read (c.loads s.args) (c.loads s.kwargs)
