-- ===== src/Client/Polling.antt =====
-- The loops of workflow/finmars.py that ask until a task, a procedure or a workflow has ended.
use finmars_workflow.Common.{
  ℕ, zero, suc, ◌+◌, String, Bool, false, ◌||◌, Option, none, some, ◌==◌, str_eq, str_append,
  if◌then◌else◌,
}
use finmars_workflow.Common.Exec.{
  Exec, Result, ok, err, Error, attribute_error, type_error, key_error, exception, out_of_fuel,
  pure, raise, lift, modify, attempt, ◌>>=◌, ◌>>◌,
}
use finmars_workflow.Json.{Json, null, str, obj, get, truthy}
use finmars_workflow.Client.{Platform, Caller, get_task, get_data_procedure_instance, request_api}

-- time.sleep(seconds)
abbrev pub sleep : ℕ → Caller → Caller
sleep n s = record s { now = s.now + n }

-- result["status"]
abbrev pub status_of : Json → Result Json
status_of (obj fs) = elim (get "status" fs) [ none ↦ err key_error | some v ↦ ok v ]
status_of _ = err type_error

-- in ["progress", "P", "I"]
abbrev pub is_going_on : Json → Bool
is_going_on (str v) = str_eq v "progress" || (str_eq v "P" || str_eq v "I")
is_going_on _ = false

-- A result whose status says that it has ended.
unfoldable pub ended : Json → Exec Caller (Option Json)
ended v = do status ← lift (status_of v); if is_going_on status then pure none else pure (some v)

-- One round for a task: every exception is logged, and the task asked for again.
unfoldable pub try_task : Platform → String → Exec Caller (Option Json)
try_task p id = attempt (do v ← get_task p id; ended v) (λ _. pure none)

-- One round for a procedure, without a `try`.
unfoldable pub try_procedure : Platform → String → Exec Caller (Option Json)
try_procedure p id = do v ← get_data_procedure_instance p id; ended v

abbrev pub exceeded : Error
exceeded = exception "Task exceeded retries %s count"

-- The recursion of `_wait_task_to_complete_recursive` and of `_wait_procedure_to_complete_recursive`
-- around such a round. The first number is fuel.
unfoldable pub wait_recursive : Exec Caller (Option Json) → ℕ → ℕ → ℕ → ℕ → Exec Caller Json
wait_recursive round zero retries interval counter = raise out_of_fuel
wait_recursive round (suc n) retries interval counter =
    if counter == retries then raise exceeded else do
      found ← round
      elim found [
        | some v ↦ pure v
        | none ↦ modify (sleep interval) >> wait_recursive round n retries interval (suc counter)
      ]

unfoldable pub wait_task_to_complete : ℕ → Platform → String → ℕ → ℕ → Exec Caller Json
wait_task_to_complete fuel p id retries interval =
    wait_recursive (try_task p id) fuel retries interval 0

unfoldable pub wait_procedure_to_complete : ℕ → Platform → String → ℕ → ℕ → Exec Caller Json
wait_procedure_to_complete fuel p id retries interval =
    wait_recursive (try_procedure p id) fuel retries interval 0

-- data.get("status"), if it is "success" or "error"
unfoldable pub polled : Json → Exec Caller (Option String)
polled (obj fs) = pure (elim (get "status" fs) [
  | some (str v) ↦ if str_eq v "success" || str_eq v "error" then some v else none
  | _ ↦ none
])
polled v = raise attribute_error

-- The rounds of `range(max_retries)`; an empty answer is logged.
poll_rounds : Platform → String → ℕ → ℕ → Exec Caller (Option String)
poll_rounds p url zero wait_time = pure none
poll_rounds p url (suc n) wait_time = do
  v ← request_api p url "get" null
  status ← (if truthy v then polled v else pure none)
  elim status [
    | some t ↦ pure (some t)
    | none ↦ modify (sleep wait_time) >> poll_rounds p url n wait_time
  ]

unfoldable pub poll_workflow_status : Platform → String → ℕ → ℕ → Exec Caller (Option String)
unfolding poll_rounds
poll_workflow_status p workflow_id max_retries wait_time =
    poll_rounds p (str_append "/workflow/api/workflow/" (str_append workflow_id "/")) max_retries
      wait_time
