-- ===== src/Sessions.antt =====
-- The code that users run in the editor: workflow/user_sessions.py, and the views of workflow/views.py
-- that create a session and run code or a file in it. `exec` with what it prints is a parameter, as are
-- the storage and `json.loads`.
pub mod Tests
use text.Mathlib.Text.{find?}
use finmars_workflow.Common.{
  ℕ, ◌+◌, String, Bool, true, false, Option, none, some, List, [], ◌∷◌, ◌==◌, str_eq, str_append,
  if◌then◌else◌,
}
use finmars_workflow.Common.Dict.{Dict, lookup, insert}
use finmars_workflow.Common.Exec.{
  Exec, Result, ok, err, Error, key_error, type_error, attribute_error, pure, raise, lift, gets,
  modify, need, attempt, system_exit, ◌>>=◌, ◌>>◌,
}
use finmars_workflow.Json.{Json, Fields, null, str, obj, field, end}
use finmars_workflow.Models.{Space}

-- The values of a file's names, and the user's files.
pub record UserSession : Type 0 where
  pub files : Dict (Dict Json)

-- `sessions`, by the id of the user.
abbrev pub Sessions : Type 0
Sessions = List (ℕ × UserSession)

unfoldable pub session_of : ℕ → Sessions → Option UserSession
session_of u [] = none
session_of u ((k, s) ∷ ss) = let rest = session_of u ss in if k == u then some s else rest

-- sessions[user_id] = ...
abbrev pub put_session : ℕ → UserSession → Sessions → Sessions
put_session u s ss = (u, s) ∷ ss

abbrev pub create_session : ℕ → Sessions → Sessions
create_session u ss = put_session u (record { files = [] }) ss

-- An empty context where there is none yet.
abbrev pub get_file_context : String → UserSession → Dict Json
get_file_context path s = elim (lookup path s.files) [ none ↦ [] | some c ↦ c ]

-- A run of `exec(code, context)` with the context of a user's file, which stands in the sessions: the
-- code may change them and all that they hold. What was printed comes back, the traceback of an
-- Exception included, and whether a SystemExit was raised, which `except Exception` does not catch.
pub record Ran : Type 0 where
  pub sessions : Sessions
  pub output : String
  pub exits : Bool

pub record Python : Type 0 where
  pub exec_code : String → ℕ → String → Sessions → Ran

-- if user_id not in sessions: create_session(user_id)
abbrev pub ensured : ℕ → Sessions → Option UserSession → Sessions
ensured u ss none = create_session u ss
ensured u ss (some s) = ss

abbrev pub ensure_session : ℕ → Exec Sessions Unit
ensure_session u = modify (λ ss. ensured u ss (session_of u ss))

module _ (p : Python) where
  -- get_file_context puts an empty context where there is none.
  unfoldable pub execute_code : ℕ → String → String → Exec Sessions String
  execute_code u path code = do
    s ← (λ ss. need key_error (session_of u ss) ss)
    modify (put_session u (record s { files = insert path (get_file_context path s) s.files }))
    ran ← gets (p.exec_code code u path)
    modify (λ _. ran.sessions)
    if ran.exits then raise system_exit else pure ran.output

  -- except Exception: a SystemExit goes on.
  abbrev pub refused : Error → Exec Sessions (ℕ × Option String)
  refused system_exit = raise system_exit
  refused _ = pure (400, none)

  -- The status and the output, or the text of the error.
  unfoldable pub code_execution_view : ℕ → String → String → Exec Sessions (ℕ × Option String)
  code_execution_view u path code = do
    ensure_session u
    attempt (do output ← execute_code u path code; pure (200, some output)) refused

-- What `_execute_code` returns, by what the run leaves in the buffers, whether there is a figure, and what
-- was raised.
pub record Run : Type 0 where
  pub raised : Option String
  pub figure : Option String
  pub output : String
  pub error : String

abbrev answer : String → Json → Json
answer kind content = obj (field "type" (str kind) (field "data" content end))

unfoldable pub answer_of : (String → Option Json) → Run → Json
answer_of loads r = elim r.raised [
  | some traceback ↦ answer "error" (str traceback)
  | none ↦ elim r.figure [
    | some image ↦ answer "image" (str image)
    | none ↦
        if str_eq r.output ""
        then (if str_eq r.error "" then null else answer "error" (str r.error))
        else elim (loads r.output) [
          | some v ↦ answer "json" v
          | none ↦ answer "text" (str r.output)
        ]
  ]
]

-- The code of a file: for a notebook the source of its first cell, which `first_cell` reads.
unfoldable pub code_of : (String → Result String) → String → String → Result String
code_of first_cell path content = elim (find? path ".ipynb") [
  | some _ ↦ first_cell content
  | none ↦ ok content
]

-- data["execution_id"] = ...
abbrev put_field : String → Json → Fields → Fields
put_field k v end = field k v end
put_field k v (field j w fs) =
    let rest = put_field k v fs in if str_eq j k then field j v fs else field j w rest

abbrev pub with_execution_id : String → Json → Result Json
with_execution_id execution_id (obj fs) = ok (obj (put_field "execution_id" (str execution_id) fs))
with_execution_id execution_id _ = err type_error

-- A file of the space is run in a context of its own; the session is only looked up, but the code that is
-- run may change the sessions.
unfoldable pub execute_file :
    (String → Result String)
    → (String → Result String)
    → (String → Dict Json → Exec Sessions Run)
    → (String → Option Json)
    → Option Space
    → String
    → ℕ
    → String
    → Json
    → Exec Sessions Json
execute_file open_file first_cell run loads space execution_id u path content = do
  (λ ss. need key_error (session_of u ss) ss)
  p ← need attribute_error space
  text ← lift (open_file (str_append p.space_code (str_append "/" path)))
  given ← lift (with_execution_id execution_id content)
  code ← lift (code_of first_cell path text)
  ran ← run code (("execution_context", given) ∷ [])
  pure (answer_of loads ran)

-- except Exception
abbrev pub file_refused : Error → Exec Sessions (ℕ × Option Json)
file_refused system_exit = raise system_exit
file_refused _ = pure (400, none)

-- The status and what the file gave.
unfoldable pub file_execution_view :
    (String → Result String)
    → (String → Result String)
    → (String → Dict Json → Exec Sessions Run)
    → (String → Option Json)
    → Option Space
    → String
    → ℕ
    → String
    → Json
    → Exec Sessions (ℕ × Option Json)
file_execution_view open_file first_cell run loads space execution_id u path content = do
  ensure_session u
  attempt
      (do
        output ← execute_file open_file first_cell run loads space execution_id u path content
        pure (200, some output))
      file_refused
