-- ===== src/Tenancy/Tests.antt =====
-- The theorems on schemas at concrete requests.
use finmars_workflow.Common.{
  String, ◌≡◌, ◌≢◌, refl, true, false, none, some, [], ◌∷◌, if◌then◌else◌,
}
use finmars_workflow.Common.Exec.{Exec, ok}
use finmars_workflow.Models.{Store, Context, WorkflowStatus}
use finmars_workflow.Tenancy.{
  schema_exists, set_search_path, set_schema_from_context, prerun_schema, realm_and_space,
  RequestSpace,
}
use finmars_workflow.Tenancy.Laws.{
  set_schema_from_context_ok, set_schema_from_context_again, prerun_schema_ok, realm_and_space_ok,
  schema_of,
}
use finmars_workflow.Tenancy.Requests.{Page, handle_request, handle_request_isolated}
use finmars_workflow.Fixtures.{main_context, store_with}

abbrev quiet : Store
quiet = store_with WorkflowStatus.init []

abbrev in_public : Store
in_public = set_search_path "public" quiet

set_schema_from_context_ok_example :
    (c : Context) × (code : String) × (main_context ≡ some c)
    × (c.space_code ≡ some code)
    × (code ≢ "")
    × (schema_exists code in_public ≡ true)
    × (quiet ≡ set_search_path code in_public)
unfolding set_schema_from_context
set_schema_from_context_ok_example = set_schema_from_context_ok main_context in_public quiet refl

set_schema_from_context_again_example :
    set_schema_from_context main_context in_public ≡ (ok tt, set_search_path "space" in_public)
unfolding set_schema_from_context
set_schema_from_context_again_example =
    set_schema_from_context_again main_context in_public quiet in_public refl refl

prerun_schema_ok_example :
    (c : Context) × (code : String) × (main_context ≡ some c)
    × (c.space_code ≡ some code)
    × (code ≢ "")
    × (quiet ≡ set_search_path (if schema_exists code in_public then code else "public") in_public)
unfolding finmars_workflow.Tenancy.is_ignored prerun_schema
prerun_schema_ok_example =
    prerun_schema_ok "workflows.my_task" main_context in_public quiet refl refl

abbrev my_space : RequestSpace
my_space = record { realm_code = some "realm01"; space_code = "space" }

realm_and_space_ok_example : quiet ≡ set_search_path (schema_of my_space in_public) in_public
unfolding realm_and_space
realm_and_space_ok_example =
    realm_and_space_ok ("" ∷ "realm01" ∷ "space" ∷ "workflow" ∷ []) in_public quiet my_space refl

-- An application that answers with the schema that it reads.
abbrev shows_path : RequestSpace → Exec Store Page
shows_path _ s = (ok (record { streaming = false; content = s.search_path; location = none }), s)

abbrev space_page : Page
space_page = record { streaming = false; content = "space"; location = none }

handle_request_isolated_example :
    (handle_request
        (λ t _ _. t)
        shows_path
        ("" ∷ "realm01" ∷ "space" ∷ "workflow" ∷ [])
        false
        (set_search_path "other" quiet)
      ≡ (ok space_page, in_public))
    × (in_public.search_path ≡ "public")
unfolding handle_request realm_and_space
handle_request_isolated_example =
    handle_request_isolated (λ t _ _. t) shows_path "" "realm01" "space" ("workflow" ∷ []) false
      "other" quiet in_public space_page refl
