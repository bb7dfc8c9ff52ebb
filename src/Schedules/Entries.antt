-- ===== src/Schedules/Entries.antt =====
-- `all_as_schedule` of `DatabaseScheduler` in workflow/schedulers.py: the entries of all schemas. The enabled
-- schedules that a search path reads, and the scheduler's `Entry` of one, are parameters.
use finmars_workflow.Common.{
  String, ◌≡◌, refl, ◌∙◌, ap, Bool, true, false, ◌&&◌, ◌||◌, ◌⊎◌, inl, inr, none, some, List, [],
  ◌∷◌, All, any, str_eq, str_append, arith, eq_iff,
}
use finmars_workflow.Common.Dict.{Dict, insert, has, lookup-insert}
use finmars_workflow.Common.Exec.{Exec, Result, ok, err, value_error, pure, lift, gets, ◌>>=◌, ◌>>◌}
use finmars_workflow.Models.{Store}
use finmars_workflow.Tenancy.{set_schema_from_context, set_search_path}
use finmars_workflow.Schedules.Rows.{Schedule}
use finmars_workflow.Schedules.Changes.{IsThere, select_schema}

abbrev pub key_of : String → Schedule → String
key_of schema model = str_append schema (str_append ":" model.name)

module _ {E : Type 0} (entry : Schedule → Result E) (enabled : String → List Schedule) where
  -- A ValueError passes over the schedule.
  abbrev pub put_entry : String → Result E → Dict E → Result (Dict E)
  put_entry key (ok e) d = ok (insert key e d)
  put_entry key (err value_error) d = ok d
  put_entry key (err e) d = err e

  abbrev pub and_then : (Dict E → Result (Dict E)) → Result (Dict E) → Result (Dict E)
  and_then f (ok d) = f d
  and_then f (err e) = err e

  unfoldable pub put_entries : String → List Schedule → Dict E → Result (Dict E)
  put_entries schema [] d = ok d
  put_entries schema (model ∷ models) d =
      and_then (put_entries schema models) (put_entry (key_of schema model) (entry model) d)

  unfoldable pub read_schemas : List String → Dict E → Exec Store (Dict E)
  read_schemas [] d = pure d
  read_schemas (schema ∷ schemas) d = do
    set_schema_from_context (some (record { realm_code = none; space_code = some schema }))
    path ← gets (λ s. s.search_path)
    d' ← lift (put_entries schema (enabled path) d)
    read_schemas schemas d'

  unfoldable pub all_as_schedule : List String → Exec Store (Dict E)
  unfolding read_schemas
  all_as_schedule schemas = read_schemas schemas []

  -- What `Entry` gives is an entry or a ValueError.
  abbrev IsEntry : Result E → Type 0
  IsEntry r = ((e : E) × (r ≡ ok e)) ⊎ (r ≡ err value_error)

  abbrev is_ok : Result E → Bool
  is_ok (ok e) = true
  is_ok (err e) = false

  abbrev names : String → String → Schedule → Bool
  names k schema model = str_eq (key_of schema model) k && is_ok (entry model)

  put_entries_lem :
      (k schema : String) (models : List Schedule) (d : Dict E)
      → ((m : Schedule) → IsEntry (entry m))
      → (d' : Dict E) × (put_entries schema models d ≡ ok d')
        × (has k d' ≡ (has k d || any (names k schema) models))
  unfolding put_entries has
  put_entries_lem k schema [] d h = (d, refl, ground arith)
  put_entries_lem k schema (m ∷ ms) d h = elim (h m) [
    | inl (e, he) ↦
        (let (d', ran, holds) = put_entries_lem k schema ms (insert (key_of schema m) e d) h in
          (
            d',
            ap (λ r. and_then (put_entries schema ms) (put_entry (key_of schema m) r d)) he ∙ ran,
            holds
                ∙ rw he (
                    ground
                      (arith, lookup-insert (key_of schema m) k e d, eq_iff (key_of schema m) k)),
          ))
    | inr he ↦
        (let (d', ran, holds) = put_entries_lem k schema ms d h in
          (
            d',
            ap (λ r. and_then (put_entries schema ms) (put_entry (key_of schema m) r d)) he ∙ ran,
            rw he (holds ∙ ground arith),
          ))
  ]

  read_schemas_lem :
      (k : String) (schemas : List String) (d : Dict E) (s : Store)
      → ((m : Schedule) → IsEntry (entry m))
      → All (IsThere s.schemas) schemas
      → (d' : Dict E) × (path : String) × (read_schemas schemas d s
          ≡ (ok d', set_search_path path s))
        × (has k d' ≡ (has k d || any (λ x. any (names k x) (enabled x)) schemas))
  unfolding read_schemas has
  read_schemas_lem k [] d s h there = (d, s.search_path, refl, ground arith)
  read_schemas_lem k (x ∷ xs) d s h there =
      let (d1, ran1, holds1) = put_entries_lem k x (enabled x) d h in
      let (d', path, ran, holds) = read_schemas_lem k xs d1 (set_search_path x s) h there.1 in
      (d', path, rw (select_schema x s there.0, ran1) ran, holds ∙ ground (arith, holds1))

  -- If every schema can be selected, and `Entry` gives an entry or raises a ValueError for every schedule,
  -- then the call returns a dictionary in which a key stands exactly when it is the schema and the name of
  -- an enabled schedule of one of the schemas that has an entry.
  pub all_as_schedule-has :
      (k : String) (schemas : List String) (s : Store)
      → ((m : Schedule) → IsEntry (entry m))
      → All (IsThere s.schemas) schemas
      → (d : Dict E) × (path : String) × (all_as_schedule schemas s
          ≡ (ok d, set_search_path path s))
        × (has k d ≡ any (λ x. any (names k x) (enabled x)) schemas)
  unfolding all_as_schedule has
  all_as_schedule-has k schemas s h there = read_schemas_lem k schemas [] s h there
