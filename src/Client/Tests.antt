-- ===== src/Client/Tests.antt =====
-- The theorems on the client at concrete inputs: a platform whose second answer says that the task has
-- ended, a space with one log, and three days.
use mathlib.Core.List.{Memᴰ}
use finmars_workflow.Common.{
  String, ◌≡◌, ◌<◌, ◌≤◌, ◌↔◌, refl, true, false, none, some, List, [], ◌∷◌, arith, length, ltb,
  if◌then◌else◌, Option,
}
use finmars_workflow.Common.Dict.{Dict, lookup}
use finmars_workflow.Common.Exec.{Result, ok, err, does_not_exist}
use finmars_workflow.Json.{Json, str, obj, arr, field, end, nil, cons, truthy}
use finmars_workflow.Models.{User, Space}
use finmars_workflow.Client.{Platform, Caller, Request, Response}
use finmars_workflow.Client.Polling.{wait_task_to_complete}
use finmars_workflow.Client.Waiting.{IsWithin, IsAnswer, IsEnded, wait_task_to_complete_ends}
use finmars_workflow.Client.Answered.{wait_task_to_complete-Finds}
use finmars_workflow.Client.Files.{
  Backend, Files, read, save_text, append_text, append_text_forgets,
}
use finmars_workflow.Client.Dates.{days_between, days_between_iff}
use finmars_workflow.Client.Vault.{secret_of, HoldsRecord, secret_of_sound}

abbrev status_json : String → Json
status_json t = obj (field "status" (str t) end)

abbrev answer_of : String → Response
answer_of t = record { status_code = 200; text = ""; content = ok (status_json t) }

-- The first answer says that the task goes on, and each later one that it has ended.
abbrev second_time : Platform
second_time = record {
  domain = "host";
  encode = λ c. c.username;
  answer = λ h. ok (if ltb 1 (length h) then answer_of "success" else answer_of "progress");
}

abbrev bot : User
bot = record { id = 1; username = "finmars_bot" }

abbrev main_space : Space
main_space = record { realm_code = some "realm"; space_code = "space" }

abbrev caller : Caller
caller = record { users = bot ∷ []; space = some main_space; now = 100; sent = [] }

wait_task_to_complete_ends_example :
    IsWithin 60 5 caller (wait_task_to_complete 6 second_time "7" 5 60 caller).1
    × IsAnswer (wait_task_to_complete 6 second_time "7" 5 60 caller).0
wait_task_to_complete_ends_example =
    wait_task_to_complete_ends second_time "7" 60 6 5 caller (omega arith)

success-IsEnded : IsEnded (status_json "success")
success-IsEnded = (str "success", refl, refl)

later : (h : List Request) → 1 < length h → second_time.answer h ≡ ok (answer_of "success")
later h past = ground arith

wait_task_to_complete-Finds_example :
    (x : Json) × ((wait_task_to_complete 6 second_time "7" 5 60 caller).0 ≡ ok x) × IsEnded x
unfolding finmars_workflow.Models.Tables.get_one
wait_task_to_complete-Finds_example =
    wait_task_to_complete-Finds second_time "7" 60 bot main_space (answer_of "success")
      (status_json "success") 1 refl refl success-IsEnded later 6 5 caller (refl, refl)
      (omega arith) (omega arith) (omega arith)

abbrev read_dict : Option String → Result String
read_dict none = err does_not_exist
read_dict (some t) = ok t

-- Files in a list, the newest first.
abbrev listed : Backend (Dict String)
listed = record {
  listdir = λ _ _. err does_not_exist;
  read = λ n f. read_dict (lookup n f);
  save = λ n t f. (n, t) ∷ f;
  delete = λ _ f. f;
  exists_ = λ n f. elim (lookup n f) [ none ↦ false | some _ ↦ true ];
}

abbrev log_name : String
log_name = "/.system/log/step.log"

abbrev with_log : Files (Dict String)
with_log = record { space = some main_space; files = (log_name, "old") ∷ [] }

append_text_forgets_example :
    append_text listed log_name "first" with_log ≡ append_text listed log_name "second" with_log
unfolding lookup
append_text_forgets_example = append_text_forgets listed log_name "first" "second" with_log refl

abbrev with_new : Result (Unit {0}) × Files (Dict String)
with_new = save_text listed "a.txt" "new" with_log

days_between_iff_example :
    Memᴰ 12 (days_between (λ _. true) 10 12) ↔ ((10 ≤ 12) × (12 ≤ 12) × (true ≡ true))
days_between_iff_example = days_between_iff (λ _. true) 10 12 12

abbrev secret_record : String → Json
secret_record path = obj (field "user_code" (str path) (field "data" (str "secret") end))

abbrev records : Json
records =
    obj (field "results" (arr (cons (secret_record "other") (cons (secret_record "path") nil))) end)

secret_of_sound_example :
    (truthy (str "secret") ≡ true)
    × HoldsRecord "path"
        (str "secret")
        (cons (secret_record "other") (cons (secret_record "path") nil))
unfolding secret_of finmars_workflow.Client.Vault.pick_all
secret_of_sound_example =
    secret_of_sound "path" records (str "secret")
      (cons (secret_record "other") (cons (secret_record "path") nil)) refl refl
