-- ===== src/Tenancy.antt =====
-- Which schema the tables are read from: `set_schema_from_context` of workflow/utils.py,
-- `workflow_prerun` and `cleanup` of workflow/tasks/base.py, and `RealmAndSpaceMiddleware` of
-- workflow/middleware.py. The database connection's `search_path` is a field of the store.
pub mod Laws
pub mod Requests
pub mod Tests
use text.Mathlib.Text.{find?, starts_with}
use finmars_workflow.Common.{
  String, Bool, true, false, not, ◌&&◌, ◌||◌, Option, none, some, List, [], ◌∷◌, str_eq, elem,
  truthy_str, if◌then◌else◌,
}
use finmars_workflow.Common.Exec.{
  Exec, Result, ok, err, exception, index_error, raise, pure, modify, ◌>>=◌, ◌>>◌,
}
use finmars_workflow.Models.{Store, Context}

-- The row of information_schema.schemata.
unfoldable pub schema_exists : String → Store → Bool
schema_exists name s = elem name s.schemas

abbrev pub set_search_path : String → Store → Store
set_search_path path s = record s { search_path = path }

set_schema : String → Exec Store Unit
unfolding schema_exists
set_schema code s =
    if schema_exists code s
    then (ok tt, set_search_path code s)
    else (err (exception "No space_code in database schemas"), s)

set_space_code : Option String → Exec Store Unit
set_space_code none = raise (exception "No space_code in context")
set_space_code (some code) =
    if str_eq code "" then raise (exception "No space_code in context") else set_schema code

unfoldable pub set_schema_from_context : Option Context → Exec Store Unit
unfolding set_schema set_space_code
set_schema_from_context none = raise (exception "No context in kwargs")
set_schema_from_context (some c) = set_space_code c.space_code

-- The schema part of `workflow_prerun`: tasks of Celery and of workflow.tasks are ignored, and a
-- schema that is not there is replaced by public.
prerun_space : Option String → Exec Store Unit
unfolding schema_exists
prerun_space none = raise (exception "No space_code in context")
prerun_space (some code) =
    if str_eq code ""
    then raise (exception "No space_code in context")
    else modify (λ s. set_search_path (if schema_exists code s then code else "public") s)

unfoldable pub is_ignored : String → Bool
is_ignored name = starts_with name "workflow.tasks" || starts_with name "celery."

unfoldable pub prerun_schema : String → Option Context → Exec Store Unit
unfolding prerun_space
prerun_schema name context = if is_ignored name then pure tt else elim context [
  | none ↦ raise (exception "No context in kwargs")
  | some c ↦ prerun_space c.space_code
]

unfoldable pub cleanup : Store → Store
cleanup s = set_search_path "public" s

-- What the middleware leaves on the request.
pub record RequestSpace : Type 0 where
  pub realm_code : Option String
  pub space_code : String

has_realm : String → Bool
has_realm part = elim (find? part "realm") [ none ↦ false | some _ ↦ true ]

middleware_space : String → Store → Store
unfolding schema_exists
middleware_space code s = set_search_path (if schema_exists code s then code else "public") s

-- The parts are request.path_info.split("/"); an index past the end is an IndexError.
unfoldable pub realm_and_space : List String → Exec Store RequestSpace
unfolding has_realm middleware_space
realm_and_space (_ ∷ realm ∷ space ∷ _) s =
    if has_realm realm
    then (ok (record { realm_code = some realm; space_code = space }), middleware_space space s)
    else (ok (record { realm_code = none; space_code = realm }), set_search_path "public" s)
realm_and_space (_ ∷ realm ∷ []) s =
    if has_realm realm
    then (err index_error, s)
    else (ok (record { realm_code = none; space_code = realm }), set_search_path "public" s)
realm_and_space _ s = (err index_error, s)
