-- ===== src/System/Register.antt =====
-- The loading of the configurations, `register_workflows` and `load_workflows_for_schema` of
-- workflow/system.py. The tenants' schemas, `str.lower`, the space that a search path reads, and the files
-- that are found below its folder are parameters.
use finmars_workflow.Common.{
  String, ◌≡◌, refl, ap, ◌∙◌, Bool, true, false, Option, none, some, List, [], ◌∷◌, str_eq,
  str_append, elem, if◌then◌else◌, Bool-cases, inl, inr,
}
use finmars_workflow.Common.Dict.{Dict, lookup, insert, lookup-insert}
use finmars_workflow.Common.Exec.{
  Exec, Result, ok, err, exception, pure, raise, modify, for_each, after, ◌>>◌,
}
use finmars_workflow.Models.{Space}
use finmars_workflow.System.{Config}

-- A configuration with the codes that are written into it.
pub record Loaded : Type 0 where
  pub config : Config
  pub realm_code : Option String
  pub space_code : String

-- A file named "workflow.*": its suffix, and what reading it gives: a user code and the configuration, or an
-- exception.
pub record WorkflowFile : Type 0 where
  pub suffix : String
  pub content : Result (String × Config)

pub record Registry : Type 0 where
  pub search_path : String
  pub workflows : Dict Loaded

-- `space_at` is Space.objects.all().first() under a search path.
pub record Tenants : Type 0 where
  pub schemas : List String
  pub lower : String → String
  pub space_at : String → Option Space
  pub files : Space → Result (List WorkflowFile)

abbrev pub is_supported : String → Bool
is_supported suffix = elem suffix (".yaml" ∷ ".yml" ∷ ".json" ∷ [])

abbrev pub code_in : Space → String → String
code_in p user_code = str_append p.space_code (str_append "." user_code)

-- What reading the file gave; an exception is logged.
abbrev pub enter : Space → Result (String × Config) → Dict Loaded → Dict Loaded
enter p (err e) d = d
enter p (ok (user_code, c)) d =
    insert (code_in p user_code)
      (record { config = c; realm_code = p.realm_code; space_code = p.space_code }) d

abbrev pub load_file : Space → WorkflowFile → Dict Loaded → Dict Loaded
load_file p f d = if is_supported f.suffix then enter p f.content d else d

unfoldable pub load_files : Space → List WorkflowFile → Dict Loaded → Dict Loaded
load_files p [] d = d
load_files p (f ∷ fs) d = load_files p fs (load_file p f d)

abbrev pub load_found : Space → Result (List WorkflowFile) → Dict Loaded → Dict Loaded
load_found p (err e) d = d
load_found p (ok fs) d = load_files p fs d

-- Every exception is logged: no space, or no folder.
abbrev pub load_space : Tenants → Registry → Option Space → Registry
load_space t s none = s
load_space t s (some p) = record s { workflows = load_found p (t.files p) s.workflows }

unfoldable pub load_workflows_for_schema : Tenants → Registry → Registry
load_workflows_for_schema t s = load_space t s (t.space_at s.search_path)

-- SET search_path TO ...
abbrev pub set_search_path : String → Registry → Registry
set_search_path schema s = record s { search_path = schema }

unfoldable pub register_schema : Tenants → String → Exec Registry Unit
register_schema t schema =
    if str_eq schema "public"
    then pure tt
    else modify (λ s. load_workflows_for_schema t (set_search_path schema s))

unfoldable pub register_workflows : Tenants → Option String → Exec Registry Unit
register_workflows t none = do
  for_each (register_schema t) t.schemas
  modify (set_search_path "public")
register_workflows t (some code) =
    if str_eq code ""
    then (do for_each (register_schema t) t.schemas; modify (set_search_path "public"))
    else if elem (t.lower code) t.schemas
    then for_each (register_schema t) (code ∷ [])
    else raise (exception "Schema does not exist")

-- What a file gives for a code, if it can be read and is of that code.
abbrev pub read_entry : Space → String → Result (String × Config) → Option Loaded → Option Loaded
read_entry p k (err e) before = before
read_entry p k (ok (user_code, c)) before =
    if str_eq (code_in p user_code) k
    then some (record { config = c; realm_code = p.realm_code; space_code = p.space_code })
    else before

-- What the files of a space give for a code: the last of them that there is, or what was there before.
abbrev pub last_entry : Space → String → List WorkflowFile → Option Loaded → Option Loaded
last_entry p k [] before = before
last_entry p k (f ∷ fs) before =
    last_entry p k fs (if is_supported f.suffix then read_entry p k f.content before else before)

lookup-enter :
    (p : Space) (k : String) (r : Result (String × Config)) (d : Dict Loaded)
    → lookup k (enter p r d) ≡ read_entry p k r (lookup k d)
lookup-enter p k (err e) d = refl
lookup-enter p k (ok (user_code, c)) d = lookup-insert (code_in p user_code) k _ d

lookup-load_file :
    (p : Space) (k : String) (f : WorkflowFile) (d : Dict Loaded)
    → lookup k (load_file p f d)
      ≡ (if is_supported f.suffix then read_entry p k f.content (lookup k d) else lookup k d)
lookup-load_file p k f d = elim (Bool-cases (is_supported f.suffix)) [
  | inl e ↦ rw e (lookup-enter p k f.content d)
  | inr e ↦ rw e refl
]

lookup-load_files :
    (p : Space) (k : String) (fs : List WorkflowFile) (d : Dict Loaded)
    → lookup k (load_files p fs d) ≡ last_entry p k fs (lookup k d)
unfolding load_files
lookup-load_files p k [] d = refl
lookup-load_files p k (f ∷ fs) d =
    lookup-load_files p k fs (load_file p f d) ∙ ap (last_entry p k fs) (lookup-load_file p k f d)

load_workflows_for_schema_lem :
    (t : Tenants) (s : Registry) (p : Space) (fs : List WorkflowFile)
    → t.space_at s.search_path ≡ some p
    → t.files p ≡ ok fs
    → load_workflows_for_schema t s ≡ record s { workflows = load_files p fs s.workflows }
unfolding load_workflows_for_schema
load_workflows_for_schema_lem t s p fs there found =
    ap (load_space t s) there ∙ ap (λ r. record s { workflows = load_found p r s.workflows }) found

-- Registering the workflows of one space, known and not "public", succeeds whatever its files are: each
-- code then has the configuration of the last file that can be read and is of that code, and a code of
-- no such file has the one that it had; the search path is left at the space's schema.
pub register_workflows_one :
    (t : Tenants) (s : Registry) (code : String) (p : Space) (fs : List WorkflowFile)
    → str_eq code "" ≡ false
    → elem (t.lower code) t.schemas ≡ true
    → str_eq code "public" ≡ false
    → t.space_at code ≡ some p
    → t.files p ≡ ok fs
    → (let r = register_workflows t (some code) s in
        (r.0 ≡ ok tt)
        × (r.1.search_path ≡ code)
        × ((k : String) → lookup k r.1.workflows ≡ last_entry p k fs (lookup k s.workflows)))
unfolding register_workflows register_schema
register_workflows_one t s code p fs given known private there found =
    rw
      (
        given,
        known,
        private,
        load_workflows_for_schema_lem t (set_search_path code s) p fs there found,
      )
      (refl, refl, λ k. lookup-load_files p k fs s.workflows)

all_registered :
    (t : Tenants) (schemas : List String) (s : Registry)
    → (for_each (register_schema t) schemas s).0 ≡ ok tt
unfolding register_schema
all_registered t [] s = refl
all_registered t (schema ∷ schemas) s = elim (Bool-cases (str_eq schema "public")) [
  | inl e ↦ rw e (all_registered t schemas s)
  | inr e ↦ rw e (all_registered t schemas (load_workflows_for_schema t (set_search_path schema s)))
]

then_public :
    (r : Result Unit × Registry)
    → r.0 ≡ ok tt
    → (let q = after (λ _. modify (set_search_path "public")) r in
        (q.0 ≡ ok tt) × (q.1.search_path ≡ "public"))
then_public (ok a, s) h = (refl, refl)
then_public (err e, s) h = cc

-- Registering the workflows of all spaces succeeds whatever the schemas and their files are, and leaves
-- the search path at "public".
pub register_workflows_all :
    (t : Tenants) (s : Registry)
    → (register_workflows t none s).0 ≡ ok tt
      × (register_workflows t none s).1.search_path ≡ "public"
unfolding register_workflows
register_workflows_all t s =
    then_public (for_each (register_schema t) t.schemas s) (all_registered t t.schemas s)
