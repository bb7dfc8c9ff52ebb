-- ===== src/Schedules/Changes.antt =====
-- When the scheduler reads its table again.
use finmars_workflow.Common.{
  ℕ, String, ◌≡◌, ◌≢◌, refl, ◌∙◌, true, ◌||◌, Option, none, some, List, [], ◌∷◌, arith, All, any,
  elem, eq_iff,
}
use finmars_workflow.Common.Exec.{ok}
use finmars_workflow.Models.{Store}
use finmars_workflow.Tenancy.{set_schema_from_context, set_search_path, schema_exists}
use finmars_workflow.Schedules.{newer, is_later, scan, schedule_changed}

-- A schema that can be selected.
abbrev pub IsThere : List String → String → Type 0
IsThere schemas x = (x ≢ "") × (elem x schemas ≡ true)

newest : (String → Option ℕ) → List String → Option ℕ → Option ℕ
newest change [] ts = ts
newest change (x ∷ xs) ts = newest change xs (newer ts (change x))

pub select_schema :
    (x : String) (s : Store)
    → IsThere s.schemas x
    → set_schema_from_context (some (record { realm_code = none; space_code = some x })) s
      ≡ (ok tt, set_search_path x s)
unfolding set_schema_from_context schema_exists
select_schema x s (full, there) = ground (arith, full, there, eq_iff x "")

scan_ok :
    (change : String → Option ℕ) (xs : List String) (ts : Option ℕ) (s : Store)
    → All (IsThere s.schemas) xs
    → (path : String) × (scan (λ x. ok (change x)) xs ts s
        ≡ (ok (some (newest change xs ts)), set_search_path path s))
unfolding scan newest
scan_ok change [] ts s h = (s.search_path, refl)
scan_ok change (x ∷ xs) ts s h =
    let (path, rest) = scan_ok change xs (newer ts (change x)) (set_search_path x s) h.1 in
    (path, rw (select_schema x s h.0) rest)

newer-is_later :
    (ts c : Option ℕ) (l : ℕ)
    → is_later (newer ts c) (some l) ≡ (is_later ts (some l) || is_later c (some l))
newer-is_later ts c l = ground arith

newest-is_later :
    (change : String → Option ℕ) (xs : List String) (ts : Option ℕ) (l : ℕ)
    → is_later (newest change xs ts) (some l)
      ≡ (is_later ts (some l) || any (λ x. is_later (change x) (some l)) xs)
unfolding newest
newest-is_later change [] ts l = ground arith
newest-is_later change (x ∷ xs) ts l =
    newest-is_later change xs (newer ts (change x)) l
    ∙ ground (arith, newer-is_later ts (change x) l)

-- If every schema can be selected and read, and a time of change has been kept, then the schedule is
-- said to have changed exactly when the last change of some schema is later than the time kept.
pub schedule_changed_lem :
    (change : String → Option ℕ) (xs : List String) (l : ℕ) (s : Store)
    → All (IsThere s.schemas) xs
    → (ts : Option ℕ) × (path : String) × (schedule_changed (λ x. ok (change x)) xs (some l) s
        ≡ (ok (any (λ x. is_later (change x) (some l)) xs, ts), set_search_path path s))
unfolding schedule_changed
schedule_changed_lem change xs l s h =
    let (path, ran) = scan_ok change xs none s h in
    (newest change xs none, path, rw (ran, newest-is_later change xs none l) refl)
