-- ===== src/Views/Paused.antt =====
-- Nodes that are handed over while their workflow is paused.
use finmars_workflow.Common.{
  ℕ, String, ◌≡◌, refl, true, Option, some, List, [], ◌∷◌, arith, ap, ◌∙◌, sym, find, ◌==◌, inl,
  inr, Bool-cases,
}
use finmars_workflow.Common.Dict.{Dict, lookup}
use finmars_workflow.Common.Exec.{Exec, Result, ok}
use finmars_workflow.Graph.{Node, Connection}
use finmars_workflow.Models.{Env, Workflow, Store, Context, is_wait}
use finmars_workflow.Models.Tables.{replace_workflow}
use finmars_workflow.Models.Save.{save_workflow, save_workflow_shape, save_workflow_silent}
use finmars_workflow.Tenancy.{set_schema_from_context}
use finmars_workflow.Tenancy.Laws.{set_schema_from_context_ok, set_schema_from_context_again}
use finmars_workflow.Success.Next.{get_workflow_ok}
use finmars_workflow.NextNode.{Signature, process_next_node}
use finmars_workflow.NextNode.Guards.{process_next_node_waits}

-- Writing a row twice is writing it once, the second time.
replace-twice :
    (v w : Workflow) (ws : List Workflow)
    → v.id ≡ w.id
    → replace_workflow w (replace_workflow v ws) ≡ replace_workflow w ws
replace-twice v w [] h = refl
replace-twice v w (u ∷ ws) h = elim (Bool-cases (u.id == v.id)) [
  | inl e ↦ rw e (ground (arith, replace-twice v w ws h))
  | inr e ↦ rw e (ground (arith, replace-twice v w ws h))
]

pub find-replace :
    (k : ℕ) (v w : Workflow) (ws : List Workflow)
    → v.id ≡ k
    → find (λ u. u.id == k) ws ≡ some w
    → find (λ u. u.id == k) (replace_workflow v ws) ≡ some v
find-replace k v w [] h e = cc
find-replace k v w (u ∷ ws) h e = ground (arith, find-replace k v w ws h)

same_schemas :
    (context : Option Context) (s s' : Store)
    → set_schema_from_context context s ≡ (ok tt, s')
    → s'.schemas ≡ s.schemas
same_schemas context s s' h =
    let (_, code, _, _, _, _, e) = set_schema_from_context_ok context s s' h in
    ap (λ (r : Store). r.schemas) e

save_paused :
    (env : Env) (w : Workflow) (s : Store)
    → is_wait w.status ≡ true
    → save_workflow env w s ≡ record s { workflows = replace_workflow w s.workflows }
save_paused env w s h =
    save_workflow_shape env w s
    ∙ ap (λ u. record s { workflows = replace_workflow w s.workflows; updates = u })
        (save_workflow_silent env w s (inr (ground arith)))

-- A paused workflow keeps one node to resume from: when two nodes are handed over while it is paused,
-- as after two branches that run side by side, the store is the same as if only the second had been,
-- and the row holds the second node to resume from.
pub process_next_node_forgets :
    (env : Env) (apply : Signature → Exec Store Unit) (first second : String) (k : ℕ)
    (nodes : Dict Node) (cs : List Connection) (context : Option Context) (s s' : Store)
    (w : Workflow) (node other : Node)
    → set_schema_from_context context s ≡ (ok tt, s')
    → find (λ v. v.id == k) s'.workflows ≡ some w
    → w.id ≡ k
    → lookup first nodes ≡ some node
    → lookup second nodes ≡ some other
    → is_wait w.status ≡ true
    → (process_next_node env apply second k nodes cs context
          (process_next_node env apply first k nodes cs context s).1
        ≡ process_next_node env apply second k nodes cs context s)
      × (find
            (λ v. v.id == k)
            (process_next_node env apply second k nodes cs context
              (process_next_node env apply first k nodes cs context s).1).1.workflows
          ≡ some (record w { current_node_id = some second }))
process_next_node_forgets env apply first second k nodes cs context s s' w node other hs hw hk hf ho
      wait =
    let w1 = record w { current_node_id = some first } in
    let w2 = record w { current_node_id = some second } in
    let s1 = record s' { workflows = replace_workflow w1 s'.workflows } in
    let once =
      process_next_node_waits env apply first k nodes cs context s s' w node hs
        (get_workflow_ok k s' w hw) hf wait in
    let after : (process_next_node env apply first k nodes cs context s).1 ≡ s1 =
      ap (λ (r : Result Unit × Store). r.1) once ∙ save_paused env w1 s' wait in
    let again : set_schema_from_context context s1 ≡ (ok tt, s1) =
      set_schema_from_context_again context s s' s1 hs (same_schemas context s s' hs) in
    let store2 : Store = record s' { workflows = replace_workflow w2 s'.workflows } in
    let alone : process_next_node env apply second k nodes cs context s ≡ (ok tt, store2) =
      process_next_node_waits env apply second k nodes cs context s s' w other hs
        (get_workflow_ok k s' w hw) ho wait
      ∙ ap (λ (r : Store). (ok tt, r)) (save_paused env w2 s' wait) in
    let both : process_next_node env apply second k nodes cs context
          (process_next_node env apply first k nodes cs context s).1
        ≡ process_next_node env apply second k nodes cs context s =
      rw after (
        process_next_node_waits env apply second k nodes cs context s1 s1 w1 other again
          (get_workflow_ok k s1 w1 (find-replace k w1 w s'.workflows hk hw)) ho wait
        ∙ ap (λ (r : Store). (ok tt, r))
            (save_paused env w2 s1 wait
              ∙ ap (λ ws. record s' { workflows = ws }) (replace-twice w1 w2 s'.workflows refl)
              ∙ sym (save_paused env w2 s' wait))
        ∙ sym (
            process_next_node_waits env apply second k nodes cs context s s' w other hs
              (get_workflow_ok k s' w hw) ho wait)) in
    (
      both,
      ap (λ (r : Result Unit × Store). find (λ v. v.id == k) r.1.workflows) (both ∙ alone)
          ∙ find-replace k w2 w s'.workflows hk hw,
    )
