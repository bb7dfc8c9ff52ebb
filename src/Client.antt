-- ===== src/Client.antt =====
-- The client of the platform, workflow/finmars.py: the calls of its API, the loops that wait for what
-- was started there, the files of the space, and dates. HTTP, the signing of tokens and the storage
-- backend are parameters.
pub mod Polling
pub mod Asking
pub mod Waiting
pub mod Answered
pub mod Files
pub mod Dates
pub mod Vault
pub mod Ascii
pub mod Tests
use finmars_workflow.Common.{
  ℕ, suc, ◌+◌, ◌*◌, String, Bool, true, false, ◌&&◌, Option, none, some, List, [], ◌∷◌, ◌==◌,
  str_eq, str_append, if◌then◌else◌, truthy_str, leb, ltb, find, length,
}
use finmars_workflow.Common.Exec.{
  Exec, Result, ok, err, attribute_error, type_error, exception, pure, raise, lift, gets, modify,
  need, attempt, ◌>>=◌, ◌>>◌,
}
use finmars_workflow.Json.{Json, null, bool, str, obj, field, end, single}
use finmars_workflow.Models.{User, Space}
use finmars_workflow.Models.Tables.{get_one}

pub data Verb : Type 0 where
  as_get as_post as_put as_patch as_delete : Verb

-- `body` is what json.dumps is given, and `bearer` the token of the header.
pub record Request : Type 0 where
  pub verb : Verb
  pub url : String
  pub body : Option Json
  pub bearer : String

-- `content` is what response.json() returns or raises.
pub record Response : Type 0 where
  pub status_code : ℕ
  pub text : String
  pub content : Result Json

pub record Claims : Type 0 where
  pub username : String
  pub realm_code : Option String
  pub space_code : Option String
  pub exp : ℕ
  pub iat : ℕ

-- The settings, jwt.encode with the secret key, and the platform: what it answers to the last of the
-- requests made so far, the newest first, or what `requests` raises.
pub record Platform : Type 0 where
  pub domain : String
  pub encode : Claims → String
  pub answer : List Request → Result Response

-- The tables of the tenant, the clock in seconds, and the requests made, the newest first.
pub record Caller : Type 0 where
  pub users : List User
  pub space : Option Space
  pub now : ℕ
  pub sent : List Request

-- Space.objects.all().first(), of which an attribute is read
abbrev pub get_space : Exec Caller Space
get_space s = need attribute_error s.space s

unfoldable pub get_refresh_token : Platform → ℕ → Exec Caller String
get_refresh_token p ttl_minutes = do
  bot ← (λ s. (get_one (λ u. str_eq u.username "finmars_bot") s.users, s))
  space ← get_space
  now ← gets (λ s. s.now)
  pure (
      p.encode (record {
        username = bot.username;
        realm_code = space.realm_code;
        space_code = space.realm_code;
        exp = now + 60 * ttl_minutes;
        iat = now;
      }))

-- A realm that is None or "" is left out.
unfoldable pub url_of : Platform → Space → String → String
url_of p space path =
    let rest = str_append space.space_code path in
    let host = str_append "https://" (str_append p.domain "/") in
    elim space.realm_code [
      | none ↦ str_append host rest
      | some r ↦
          if str_eq r ""
          then str_append host rest
          else str_append host (str_append r (str_append "/" rest))
    ]

-- requests.get(...), requests.post(...)
unfoldable pub request : Platform → Request → Exec Caller Response
request p r s = let s' = record s { sent = r ∷ s.sent } in (p.answer s'.sent, s')

-- if response.status_code != 200: raise Exception(response.text), and response.json()
abbrev pub checked : Response → Exec Caller Json
checked r = if r.status_code == 200 then lift r.content else raise (exception r.text)

-- One call of the API: the token, the space and the request.
unfoldable pub call_api : Platform → Verb → String → Option Json → Exec Caller Json
call_api p verb path body = do
  token ← get_refresh_token p (60 * 8)
  space ← get_space
  r ← request p (record { verb = verb; url = url_of p space path; body = body; bearer = token })
  checked r

unfoldable pub execute_expression : Platform → String → Exec Caller Json
execute_expression p expression =
    call_api p as_post "/api/v1/utils/expression/"
      (some (obj (field "expression" (str expression) (field "is_eval" (bool true) end))))

-- `refresh` is the function get_access_token itself, which has no attribute access_token.
unfoldable pub execute_expression_procedure : Json → Exec Caller Json
execute_expression_procedure payload = raise attribute_error

unfoldable pub execute_data_procedure : Platform → Json → Exec Caller Json
execute_data_procedure p payload =
    call_api p as_post "/api/v1/procedures/data-procedure/execute/" (some payload)

-- `id` is the text of the id.
unfoldable pub get_data_procedure_instance : Platform → String → Exec Caller Json
get_data_procedure_instance p id =
    call_api p as_get (str_append "/api/v1/procedures/data-procedure-instance/" (str_append id "/"))
      none

unfoldable pub execute_pricing_procedure : Platform → Json → Exec Caller Json
execute_pricing_procedure p payload =
    call_api p as_post "/api/v1/procedures/pricing-procedure/execute/" (some payload)

-- if payload is None: payload = {}
unfoldable pub execute_task : Platform → String → Option Json → Exec Caller Json
execute_task p task_name payload =
    let data_of : Json = elim payload [ none ↦ obj end | some v ↦ v ] in
    call_api p as_post "/api/v1/tasks/task/execute/"
      (some (obj (field "task_name" (str task_name) (field "payload" data_of end))))

unfoldable pub get_task : Platform → String → Exec Caller Json
get_task p id = call_api p as_get (str_append "/api/v1/tasks/task/" (str_append id "/")) none

unfoldable pub execute_transaction_import : Platform → Json → Exec Caller Json
execute_transaction_import p payload =
    call_api p as_post "/api/v1/import/transaction-import/execute/" (some payload)

unfoldable pub execute_simple_import : Platform → Json → Exec Caller Json
execute_simple_import p payload =
    call_api p as_post "/api/v1/import/simple-import/execute/" (some payload)

-- "https://" + get_domain() + "/" + get_realm_code() + "/" + get_space_code()
unfoldable pub get_base_path : Platform → Exec Caller String
get_base_path p = do
  space ← get_space
  realm ← need type_error space.realm_code
  pure (
      str_append "https://"
        (str_append p.domain (str_append "/" (str_append realm (str_append "/" space.space_code)))))

-- response.raise_for_status(), and response.json()
abbrev pub raise_for_status : Response → Exec Caller Json
raise_for_status r =
    if leb 400 r.status_code && ltb r.status_code 600
    then raise (exception r.text)
    else lift r.content

-- What the platform refuses is logged, and None returned.
unfoldable pub update_task_status :
    Platform → String → Json → Json → Json → Exec Caller (Option Json)
update_task_status p platform_task_id status result error = do
  token ← get_refresh_token p (60 * 8)
  base ← get_base_path p
  r ← request p (record {
    verb = as_post;
    url =
        str_append base
          (str_append "/api/v1/tasks/task/" (str_append platform_task_id "/update-status/"));
    body = some (obj (field "status" status (field "result" result (field "error" error end))));
    bearer = token;
  })
  attempt (do v ← raise_for_status r; pure (some v)) (λ _. pure none)

-- method.lower() is one of the five; `data` is None where the caller leaves it out.
abbrev pub verb_of : String → Option Verb
verb_of method =
    if str_eq method "get"
    then some as_get
    else if str_eq method "post"
    then some as_post
    else if str_eq method "put"
    then some as_put
    else if str_eq method "patch"
    then some as_patch
    else if str_eq method "delete"
    then some as_delete
    else none

abbrev pub sends_data : Verb → Bool
sends_data as_get = false
sends_data as_delete = false
sends_data _ = true

abbrev pub accepted : Response → Exec Caller Json
accepted r =
    if r.status_code == 200
    then lift r.content
    else if r.status_code == 201
    then lift r.content
    else if r.status_code == 204
    then pure (single "status" (str "no_content"))
    else raise (exception r.text)

-- `method` is in lower case. With another method the response stays None, which has no status code.
unfoldable pub request_api : Platform → String → String → Json → Exec Caller Json
request_api p path method body = do
  token ← get_refresh_token p (60 * 8)
  space ← get_space
  verb ← need attribute_error (verb_of method)
  r ← request p (record {
    verb = verb;
    url = url_of p space path;
    body = if sends_data verb then some body else none;
    bearer = token;
  })
  accepted r
