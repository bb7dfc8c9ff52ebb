-- ===== src/System/Sync/Everywhere.antt =====
-- The copying for all spaces, `sync_remote_storage_to_local_storage` of workflow/system.py: for each schema
-- the search path is set, the files of its space are copied, and the path is set back.
use finmars_workflow.Common.{
  String, ◌≡◌, refl, ◌∙◌, false, Option, none, some, List, [], ◌∷◌, ◌++◌, All, str_eq, elem,
  if◌then◌else◌, Bool-cases, inl, inr,
}
use finmars_workflow.Common.Exec.{
  Exec, Result, ok, err, attribute_error, exception, raise, modify, for_each, after, ◌>>◌,
}
use finmars_workflow.Models.{Space}
use finmars_workflow.System.Sync.{
  Dir, Remote, Local, RemovesBelow, workflows_folder, sync_for_schema, starts_with, first_of,
}
use finmars_workflow.System.Sync.Isolated.{Keeps, sync_for_schema-Keeps}

-- The schemas, `str.lower`, and the first space that a search path reads.
pub record Schemas : Type 0 where
  pub names : List String
  pub lower : String → String
  pub space_at : String → Option Space

pub record Mirror : Type 0 where
  pub search_path : String
  pub local : Local

module _ (r : Remote) (patterns : List String) (t : Schemas) where
  abbrev pub at_local : Exec Local Unit → Exec Mirror Unit
  at_local m s = let (q, l) = m s.local in (q, record s { local = l })

  -- Where a schema has no space, None has no `space_code`.
  abbrev pub sync_space : Option Space → Exec Mirror Unit
  sync_space none = raise attribute_error
  sync_space (some p) = at_local (sync_for_schema r patterns p.space_code [])

  unfoldable pub sync_schema : String → Exec Mirror Unit
  sync_schema schema = do
    modify (λ s. record s { search_path = schema })
    sync_space (t.space_at schema)
    modify (λ s. record s { search_path = "public" })

  unfoldable pub sync_remote_storage_to_local_storage : Option String → Exec Mirror Unit
  sync_remote_storage_to_local_storage none = for_each sync_schema t.names
  sync_remote_storage_to_local_storage (some code) =
      if str_eq code ""
      then for_each sync_schema t.names
      else if elem (t.lower code) t.names
      then for_each sync_schema (code ∷ [])
      else raise (exception "Schema does not exist")

  -- A path that is not below the workflows of the space.
  abbrev pub IsOutside : Dir → Option Space → Type 0
  IsOutside p none = Unit
  IsOutside p (some q) = starts_with (workflows_folder q.space_code ++ []) p ≡ false

  after-Keeps :
      (p : Dir) (l : Local) (q : Result Unit × Mirror) (g : Exec Mirror Unit)
      → Keeps p l q.1.local
      → ((s : Mirror) → Keeps p s.local (g s).1.local)
      → Keeps p l (after (λ _. g) q).1.local
  after-Keeps p l (ok tt, s) g h k = k s ∙ h
  after-Keeps p l (err e, s) g h k = h

  sync_space-Keeps :
      RemovesBelow r
      → (p : Dir) (o : Option Space) (s : Mirror) → IsOutside p o
      → Keeps p s.local (sync_space o s).1.local
  unfolding first_of
  sync_space-Keeps below p none s h = refl
  sync_space-Keeps below p (some q) s h =
      sync_for_schema-Keeps r patterns q.space_code [] p s.local below tt h

  sync_schema-Keeps :
      RemovesBelow r
      → (p : Dir) (schema : String) (s : Mirror) → IsOutside p (t.space_at schema)
      → Keeps p s.local (sync_schema schema s).1.local
  unfolding sync_schema
  sync_schema-Keeps below p schema s h =
      after-Keeps p s.local (sync_space (t.space_at schema) (record s { search_path = schema }))
        (modify (λ u. record u { search_path = "public" }))
        (sync_space-Keeps below p (t.space_at schema) (record s { search_path = schema }) h)
        (λ u. refl)

  sync_each-Keeps :
      RemovesBelow r
      → (p : Dir) (schemas : List String) (s : Mirror)
      → All (λ x. IsOutside p (t.space_at x)) schemas
      → Keeps p s.local (for_each sync_schema schemas s).1.local
  sync_each-Keeps below p [] s h = refl
  sync_each-Keeps below p (x ∷ xs) s h =
      after-Keeps p s.local (sync_schema x s) (for_each sync_schema xs)
        (sync_schema-Keeps below p x s h.0) (λ u. sync_each-Keeps below p xs u h.1)

  -- Copying the files of one space changes only local files below that space's workflows, whatever goes
  -- wrong; where the schema is unknown an exception is raised and nothing is changed.
  pub sync_remote_storage_to_local_storage-Keeps :
      RemovesBelow r
      → (p : Dir) (code : String) (s : Mirror) → str_eq code "" ≡ false
      → IsOutside p (t.space_at code)
      → Keeps p s.local (sync_remote_storage_to_local_storage (some code) s).1.local
  unfolding sync_remote_storage_to_local_storage
  sync_remote_storage_to_local_storage-Keeps below p code s named h =
      rw named (elim (Bool-cases (elem (t.lower code) t.names)) [
        | inl e ↦ rw e (sync_each-Keeps below p (code ∷ []) s (h, tt))
        | inr e ↦ rw e refl
      ])
