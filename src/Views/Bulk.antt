-- ===== src/Views/Bulk.antt =====
-- What `bulk_cancel` leaves.
use finmars_workflow.Common.{
  ℕ, ◌≡◌, refl, Bool, true, false, not, ◌&&◌, List, [], ◌∷◌, arith, ap, ◌∙◌, ◌==◌, ==_iff, ==-refl,
  select, any, All, if◌then◌else◌, Bool-cases, inl, inr, some,
}
use finmars_workflow.Common.Exec.{Result, ok, err, after, pure, modify, for_each}
use finmars_workflow.Models.{Env, Workflow, WorkflowStatus, Store}
use finmars_workflow.Models.Tables.{replace_workflow}
use finmars_workflow.Models.Cancel.{cancel, cancel-workflows}
use finmars_workflow.Views.{Response, reply, status_ok, is_cancelable, is_listed, bulk_cancel}

abbrev is_left : List ℕ → Workflow → Bool
is_left ids w = is_listed ids w.id && is_cancelable w.status

-- Every row that is still to be canceled is one of those that the loop has before it.
abbrev Covers : List ℕ → List Workflow → List Workflow → Type 0
Covers ids pending rows =
    All (λ v. is_left ids v ≡ true → any (λ w. w.id == v.id) pending ≡ true) rows

Covers-replace :
    (ids : List ℕ) (w : Workflow) (pending rows : List Workflow)
    → Covers ids (w ∷ pending) rows
    → Covers ids pending (replace_workflow (record w { status = WorkflowStatus.canceled }) rows)
Covers-replace ids w pending [] h = tt
Covers-replace ids w pending (v ∷ rows) h =
    (λ left. ground (arith, h.0), Covers-replace ids w pending rows h.1)

Covers-more :
    (ids : List ℕ) (w : Workflow) (pending rows : List Workflow)
    → Covers ids pending rows
    → Covers ids (if is_left ids w then w ∷ pending else pending) rows
Covers-more ids w pending [] h = tt
Covers-more ids w pending (v ∷ rows) h =
    (λ left. ground (arith, h.0), Covers-more ids w pending rows h.1)

Covers-select : (ids : List ℕ) (rows : List Workflow) → Covers ids (select (is_left ids) rows) rows
Covers-select ids [] = tt
Covers-select ids (w ∷ rows) = (
  λ left. rw (left, ==-refl w.id) refl,
  Covers-more ids w (select (is_left ids) rows) rows (Covers-select ids rows),
)

loop-Covers :
    (env : Env) (ids : List ℕ) (pending : List Workflow) (s : Store)
    → Covers ids pending s.workflows
    → Covers ids [] (for_each (λ w. modify (cancel env w)) pending s).1.workflows
loop-Covers env ids [] s h = h
loop-Covers env ids (w ∷ pending) s h =
    loop-Covers env ids pending (cancel env w s)
      (rw (cancel-workflows env w s) (Covers-replace ids w pending s.workflows h))

none_left :
    (ids : List ℕ) (rows : List Workflow)
    → Covers ids [] rows
    → All (λ w. is_left ids w ≡ false) rows
none_left ids [] h = tt
none_left ids (w ∷ rows) h = (ground (arith, h.0), none_left ids rows h.1)

-- The rows that are not listed.
abbrev pub unlisted : List ℕ → List Workflow → List Workflow
unlisted ids rows = select (λ w. not (is_listed ids w.id)) rows

unlisted-replace :
    (ids : List ℕ) (w : Workflow) (rows : List Workflow)
    → is_listed ids w.id ≡ true
    → unlisted ids (replace_workflow (record w { status = WorkflowStatus.canceled }) rows)
      ≡ unlisted ids rows
unlisted-replace ids w [] h = refl
unlisted-replace ids w (v ∷ rows) h = elim (Bool-cases (v.id == w.id)) [
  | inl same ↦
      let listed : is_listed ids v.id ≡ true = rw ((==_iff v.id w.id).0 same) h in
      rw (same, h, listed) (unlisted-replace ids w rows h)
  | inr other ↦ rw (other, unlisted-replace ids w rows h) refl
]

loop-unlisted :
    (env : Env) (ids : List ℕ) (pending : List Workflow) (s : Store)
    → All (λ w. is_listed ids w.id ≡ true) pending
    → unlisted ids (for_each (λ w. modify (cancel env w)) pending s).1.workflows
      ≡ unlisted ids s.workflows
loop-unlisted env ids [] s h = refl
loop-unlisted env ids (w ∷ pending) s h =
    loop-unlisted env ids pending (cancel env w s) h.1
    ∙ rw (cancel-workflows env w s) (unlisted-replace ids w s.workflows h.0)

select-listed :
    (ids : List ℕ) (rows : List Workflow)
    → All (λ w. is_listed ids w.id ≡ true) (select (is_left ids) rows)
select-listed ids [] = tt
select-listed ids (w ∷ rows) = elim (Bool-cases (is_left ids w)) [
  | inl e ↦ rw e (ground arith, select-listed ids rows)
  | inr e ↦ rw e (select-listed ids rows)
]

then_state : (a : Response) (r : Result Unit × Store) → (after (λ _. pure a) r).1 ≡ r.1
then_state a (ok tt, s) = refl
then_state a (err e, s) = refl

-- After a bulk cancel no listed workflow is new, in progress or paused any more, and the rows of the
-- workflows that are not listed are the same as before.
pub bulk_cancel_lem :
    (env : Env) (ids : List ℕ) (s : Store)
    → All
        (λ w. (is_listed ids w.id && is_cancelable w.status) ≡ false)
        (bulk_cancel env (some ids) s).1.workflows
      × (unlisted ids (bulk_cancel env (some ids) s).1.workflows ≡ unlisted ids s.workflows)
unfolding bulk_cancel
bulk_cancel_lem env ids s =
    let chosen = select (is_left ids) s.workflows in
    let state =
      ap (λ (r : Store). r.workflows)
        (then_state (reply 200 status_ok) (for_each (λ w. modify (cancel env w)) chosen s)) in
    (
      rw state (none_left ids _ (loop-Covers env ids chosen s (Covers-select ids s.workflows))),
      rw state (loop-unlisted env ids chosen s (select-listed ids s.workflows)),
    )
