-- ===== src/Tenancy/Laws.antt =====
-- A task reads and writes in the schema that its context names, or in none.
use finmars_workflow.Common.{
  String, ◌≡◌, ◌≢◌, refl, true, false, Option, none, some, List, [], ◌∷◌, arith, str_eq, eq_iff,
  elem, inl, inr, Option-cases, Bool-cases, if◌then◌else◌,
}
use finmars_workflow.Common.Exec.{ok}
use finmars_workflow.Models.{Store, Context}
use finmars_workflow.Tenancy.{
  schema_exists, set_search_path, set_schema_from_context, is_ignored, prerun_schema,
  realm_and_space, RequestSpace,
}

-- After `set_schema_from_context` succeeds, the context names a schema that exists and is not empty,
-- and the search path is that schema; nothing else has changed.
pub set_schema_from_context_ok :
    (context : Option Context) (s s' : Store)
    → set_schema_from_context context s ≡ (ok tt, s')
    → (c : Context) × (code : String) × (context ≡ some c)
      × (c.space_code ≡ some code)
      × (code ≢ "")
      × (schema_exists code s ≡ true)
      × (s' ≡ set_search_path code s)
unfolding set_schema_from_context
set_schema_from_context_ok none s s' h = ground arith
set_schema_from_context_ok (some c) s s' h = elim (Option-cases c.space_code) [
  | inl missing ↦ ground arith
  | inr (code, given) ↦
      (c, code, refl, given, ground (arith, eq_iff code ""), ground arith, ground arith)
]

-- What one context selects it selects again, in every store with the same schemas.
pub set_schema_from_context_again :
    (context : Option Context) (s s' r : Store)
    → set_schema_from_context context s ≡ (ok tt, s')
    → r.schemas ≡ s.schemas
    → set_schema_from_context context r ≡ (ok tt, set_search_path s'.search_path r)
unfolding set_schema_from_context
set_schema_from_context_again none s s' r h e = ground arith
set_schema_from_context_again (some c) s s' r h e = elim (Option-cases c.space_code) [
  | inl missing ↦ ground arith
  | inr (code, given) ↦ elim (Bool-cases (str_eq code "")) [
    | inl blank ↦ ground (arith, given, blank)
    | inr full ↦ elim (Bool-cases (elem code s.schemas)) [
      | inl there ↦ ground (arith, given, full, there)
      | inr missing ↦ ground (arith, given, full, missing)
    ]
  ]
]

-- When it raises, the search path and the tables are as before.
pub set_schema_from_context_err :
    (context : Option Context) (s : Store)
    → ((set_schema_from_context context s).0 ≢ ok tt)
    → (set_schema_from_context context s).1 ≡ s
unfolding set_schema_from_context
set_schema_from_context_err context s h = ground arith

-- A task outside `workflow.tasks` and Celery's own that starts at all has a context with a space,
-- and runs in the schema of that space if it exists, and in public otherwise.
pub prerun_schema_ok :
    (name : String) (context : Option Context) (s s' : Store)
    → is_ignored name ≡ false
    → prerun_schema name context s ≡ (ok tt, s')
    → (c : Context) × (code : String) × (context ≡ some c)
      × (c.space_code ≡ some code)
      × (code ≢ "")
      × (s' ≡ set_search_path (if schema_exists code s then code else "public") s)
unfolding prerun_schema
prerun_schema_ok name none s s' i h = ground arith
prerun_schema_ok name (some c) s s' i h = elim (Option-cases c.space_code) [
  | inl missing ↦ ground arith
  | inr (code, given) ↦
      (c, code, refl, given, ground (arith, eq_iff code ""), ground (arith, eq_iff code ""))
]

-- The schema of a request: that of its space if the path names a realm and the schema exists, and
-- public otherwise, also for the legacy paths that name no realm.
abbrev pub schema_of : RequestSpace → Store → String
schema_of r s = elim r.realm_code [
  | none ↦ "public"
  | some _ ↦ if schema_exists r.space_code s then r.space_code else "public"
]

-- A request that passes the middleware reads and writes in the schema of its space, or in public if
-- it has none, whatever the path was before; nothing else has changed.
pub realm_and_space_ok :
    (parts : List String) (s s' : Store) (r : RequestSpace)
    → realm_and_space parts s ≡ (ok r, s')
    → s' ≡ set_search_path (schema_of r s) s
unfolding realm_and_space
realm_and_space_ok [] s s' r h = cc
realm_and_space_ok (_ ∷ []) s s' r h = cc
realm_and_space_ok (_ ∷ realm ∷ []) s s' r h = ground arith
realm_and_space_ok (_ ∷ realm ∷ space ∷ _) s s' r h = ground arith
