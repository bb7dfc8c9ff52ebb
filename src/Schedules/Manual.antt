-- ===== src/Schedules/Manual.antt =====
-- `run_manual` of `ScheduleViewSet` in workflow/views.py: a schedule that is run by hand. What `get_object`
-- gives and what the broker does with the message are parameters.
use finmars_workflow.Common.{
  ℕ, String, ◌≡◌, ◌⊎◌, false, Option, none, some, List, [], ◌∷◌, if◌then◌else◌, str_append,
}
use finmars_workflow.Common.Exec.{Result, Error, ok, err, does_not_exist}
use finmars_workflow.Json.{Json, null, bool, num, str, arr, obj, nil, cons, end, field, or_null}
use finmars_workflow.Json.Codec.{Codec}
use finmars_workflow.Schedules.Rows.{Crontab, Schedule}
use finmars_workflow.Schedules.Calls.{call_with, call_of}

-- The status of the answer, and the arguments and keywords that were sent.
pub record Answer : Type 0 where
  pub status : ℕ
  pub sent : List (Json × Json)

abbrev pub manual_args : Schedule → Json
manual_args s = arr (
    cons (str (str_append s.space.space_code (str_append "." s.workflow_user_code)))
      (cons (or_null s.payload) (cons (bool s.is_manager) nil)))

abbrev pub realm_of : Option String → Json
realm_of none = null
realm_of (some realm) = str realm

abbrev pub manual_context : Schedule → Json
manual_context s = obj (
    field "realm_code" (realm_of s.space.realm_code)
      (field "space_code" (str s.space.space_code) end))

abbrev pub id_or_null : Option ℕ → Json
id_or_null none = null
id_or_null (some k) = num k

abbrev pub manual_kwargs : Schedule → Crontab → Json
manual_kwargs s a = obj (
    field "context" (manual_context s)
      (field "crontab_id" (id_or_null a.id) (field "schedule_id" (id_or_null s.id) end)))

-- except Schedule.DoesNotExist, and except Exception
abbrev pub refusal : Error → ℕ
refusal does_not_exist = 404
refusal _ = 500

module _ (broker : Json → Json → Result {0} Unit) where
  abbrev pub accepted : Result {0} Unit → Json → Json → Answer
  accepted (ok tt) args kwargs = record { status = 202; sent = (args, kwargs) ∷ [] }
  accepted (err e) args kwargs = record { status = refusal e; sent = [] }

  -- `schedule.crontab.id` of a schedule without a crontab is an AttributeError.
  abbrev pub send_manual : Schedule → Option Crontab → Answer
  send_manual s none = record { status = 500; sent = [] }
  send_manual s (some a) =
      accepted (broker (manual_args s) (manual_kwargs s a)) (manual_args s) (manual_kwargs s a)

  -- An Http404 of `get_object` is no DoesNotExist.
  unfoldable pub run_manual : Result Schedule → Answer
  run_manual (ok s) =
      if s.enabled then send_manual s s.crontab else record { status = 400; sent = [] }
  run_manual (err e) = record { status = refusal e; sent = [] }

  -- One message was sent, the call of the row.
  abbrev pub IsSent : Codec → Schedule → Answer → Type 0
  IsSent c s answer =
      (args : Json) × (kwargs : Json) × (answer
        ≡ record { status = 202; sent = (args, kwargs) ∷ [] })
      × (call_with args kwargs ≡ call_of c s)

  -- Nothing was sent: the schedule is disabled, or the broker refused the call of the row.
  abbrev pub IsRefused : Codec → Schedule → Answer → Type 0
  IsRefused c s answer =
      (answer.sent ≡ [])
      × ((s.enabled ≡ false)
          ⊎ ((args : Json) × (kwargs : Json) × (e : Error) × (broker args kwargs ≡ err e)
              × (call_with args kwargs ≡ call_of c s)))
