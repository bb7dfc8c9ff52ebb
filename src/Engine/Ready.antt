-- ===== src/Engine/Ready.antt =====
-- When a node's inputs are ready.
use finmars_workflow.Common.{
  ℕ, String, ◌≡◌, refl, true, some, List, [], ◌∷◌, arith, str_eq, eq_iff, select, All, ◌↔◌,
  Bool-cases, inl, inr, map, sym, ◌∙◌,
}
use mathlib.Core.Bool.{false≢true}
use finmars_workflow.Graph.{Connection}
use finmars_workflow.Models.{Task, is_success}
use finmars_workflow.Models.Tables.{is_of_node}
use finmars_workflow.Engine.{are_inputs_ready, inputs_done}

-- The node has exactly one task in the workflow, and that task has succeeded.
abbrev pub HasSucceeded : ℕ → List Task → String → Type 0
HasSucceeded w ts n =
    (t : Task) × (select (is_of_node w (some n)) ts ≡ t ∷ []) × (is_success t.status ≡ true)

inputs_done-cons :
    (w : ℕ) (ts : List Task) (n : String) (ns : List String)
    → (inputs_done w ts (n ∷ ns) ≡ true) ↔ (HasSucceeded w ts n × (inputs_done w ts ns ≡ true))
unfolding inputs_done
inputs_done-cons w ts n ns = go (select (is_of_node w (some n)) ts) refl
  where
    go :
        (found : List Task)
        → select (is_of_node w (some n)) ts ≡ found
        → (inputs_done w ts (n ∷ ns) ≡ true) ↔ (HasSucceeded w ts n × (inputs_done w ts ns ≡ true))
    go [] e = (λ h. ground arith, λ h. ground arith)
    go (t ∷ []) e = (λ h. ((t, e, ground arith), ground arith), λ h. ground arith)
    go (t ∷ u ∷ _) e = (λ h. ground arith, λ h. ground arith)

inputs_done_iff :
    (w : ℕ) (ts : List Task) (ns : List String)
    → (inputs_done w ts ns ≡ true) ↔ All (HasSucceeded w ts) ns
unfolding inputs_done
inputs_done_iff w ts [] = (λ _. tt, λ _. refl)
inputs_done_iff w ts (n ∷ ns) =
    let (to, from) = inputs_done-cons w ts n ns in
    let (to', from') = inputs_done_iff w ts ns in
    (λ h. ((to h).0, to' (to h).1), λ h. from (h.0, from' h.1))

-- The sources of the connections into a node are the ones that are asked for.
All-sources :
    (P : String → Type 0) (node : String) (cs : List Connection)
    → All P (map (λ c. c.source) (select (λ c. str_eq c.target node) cs))
      ↔ All (λ c. c.target ≡ node → P c.source) cs
All-sources P node [] = (λ _. tt, λ _. tt)
All-sources P node (c ∷ cs) =
    let (to, from) = All-sources P node cs in
    elim (Bool-cases (str_eq c.target node)) [
      | inl e ↦ rw e (λ h. (λ _. h.0, to h.1), λ h. (h.0 ((eq_iff c.target node).0 e), from h.1))
      | inr e ↦ rw e (
        λ h. (λ same. absurd (false≢true (sym e ∙ (eq_iff c.target node).1 same)), to h),
        λ h. from h.1,
      )
    ]

-- A node's inputs are ready exactly when the source of every connection into it has exactly one task
-- in the workflow and that task has succeeded. So the inputs of a node are never ready while one of
-- its predecessors has no task, has one that has not succeeded, or has been run twice.
pub are_inputs_ready_iff :
    (w : ℕ) (node : String) (cs : List Connection) (ts : List Task)
    → (are_inputs_ready w node cs ts ≡ true)
      ↔ All (λ c. c.target ≡ node → HasSucceeded w ts c.source) cs
unfolding are_inputs_ready
are_inputs_ready_iff w node cs ts =
    let (to, from) =
      inputs_done_iff w ts (map (λ c. c.source) (select (λ c. str_eq c.target node) cs)) in
    let (to', from') = All-sources (HasSucceeded w ts) node cs in
    (λ h. to' (to h), λ h. from (from' h))
