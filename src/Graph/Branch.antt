-- ===== src/Graph/Branch.antt =====
-- The choice that a condition node makes.
use mathlib.Core.Bool.{false≢true}
use finmars_workflow.Common.{
  sym, ◌∙◌, String, ◌≡◌, true, Option, none, some, List, [], ◌∷◌, arith, find, eq_iff,
  if◌then◌else◌, Bool-cases, inl, inr, ◌↔◌,
}
use finmars_workflow.Common.Exec.{ok}
use finmars_workflow.Json.{Json, obj, Fields, get, truthy}
use finmars_workflow.Graph.{Connection, leaves_by, output_of, target_of, get_next_node_by_condition}

-- The target that a walk through the connections finds: that of the first connection which leaves
-- the node by the output, or none where no connection does.
pub data Follows (node output : String) : List Connection → Option String → Type 0 where
  nowhere : Follows node output [] none
  takes :
      {c : Connection} {cs : List Connection}
      → c.source ≡ node
      → c.source_output ≡ output
      → Follows node output (c ∷ cs) (some c.target)
  passes :
      {c : Connection} {cs : List Connection} {r : Option String}
      → ((c.source ≡ node) × (c.source_output ≡ output) → ⊥)
      → Follows node output cs r
      → Follows node output (c ∷ cs) r

leaves_by_iff :
    (node output : String) (c : Connection)
    → (leaves_by node output c ≡ true) ↔ ((c.source ≡ node) × (c.source_output ≡ output))
unfolding leaves_by
leaves_by_iff node output c = ground (arith, eq_iff c.source node, eq_iff c.source_output output)

find-Follows :
    (node output : String) (cs : List Connection)
    → Follows node output cs (target_of (find (leaves_by node output) cs))
find-Follows node output [] = nowhere
find-Follows node output (c ∷ cs) = elim (Bool-cases (leaves_by node output c)) [
  | inl e ↦ let at_c = (leaves_by_iff node output c).0 e in rw e (takes at_c.0 at_c.1)
  | inr e ↦ rw e (
      passes (λ both. false≢true (sym e ∙ (leaves_by_iff node output c).1 both))
        (find-Follows node output cs))
]

-- With a result object that has the key "result", the next node is the target of the first
-- connection that leaves the node by "out_true" or "out_false", as the value under the key is true
-- or not, and there is none exactly where no connection leaves so; no exception is raised.
pub get_next_node_by_condition-Follows :
    (current : String) (fs : Fields) (v : Json) (cs : List Connection)
    → get "result" fs ≡ some v
    → (r : Option String) × (get_next_node_by_condition current (obj fs) cs ≡ ok r)
      × Follows current (if truthy v then "out_true" else "out_false") cs r
unfolding get_next_node_by_condition
get_next_node_by_condition-Follows current fs v cs h = (
  target_of (find (leaves_by current (output_of (truthy v))) cs),
  ground arith,
  elim (Bool-cases (truthy v)) [
    | inl e ↦ rw e (find-Follows current "out_true" cs)
    | inr e ↦ rw e (find-Follows current "out_false" cs)
  ],
)
