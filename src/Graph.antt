-- ===== src/Graph.antt =====
-- The graph of a workflow of version 2: `workflow_template.data["workflow"]`, its adjacency list
-- (workflow/tasks/workflows.py, workflow/models.py and workflow/views.py build it with the same
-- lines), its start nodes, and `get_next_node_by_condition` of workflow/utils.py.
pub mod Adjacency
pub mod Branch
pub mod Tests
use text.Mathlib.Text.{find?}
use finmars_workflow.Common.{
  String, Bool, true, false, not, ◌&&◌, ◌||◌, Option, none, some, List, [], ◌∷◌, ◌++◌, str_eq, any,
  find, select, if◌then◌else◌,
}
use finmars_workflow.Common.Dict.{Dict, lookup, insert, keys}
use finmars_workflow.Common.Exec.{Result, ok, err, key_error, type_error, exception}
use finmars_workflow.Json.{
  Json, null, bool, num, minus, str, arr, obj, Items, nil, cons, get, truthy,
}

-- node["data"]["node"]["type"]
pub data NodeKind : Type 0 where
  source_code condition : NodeKind
  other : String → NodeKind

-- `inputs` are the keys of node["inputs"]; the two optional fields are node["data"]["workflow"]
-- ["user_code"] and node["data"]["source_code"], whose absence is a KeyError where they are read.
pub record Node : Type 0 where
  pub id : String
  pub name : String
  pub kind : NodeKind
  pub user_code : Option String
  pub source : Option String
  pub inputs : List String

pub record Connection : Type 0 where
  pub source : String
  pub source_output : String
  pub target : String
  pub target_input : String

-- {node["id"]: node for node in nodes}: of two nodes with one id the later one is kept
collect : Dict Node → List Node → Dict Node
collect d [] = d
collect d (n ∷ ns) = collect (insert n.id n d) ns

unfoldable pub nodes_by_id : List Node → Dict Node
unfolding collect
nodes_by_id ns = collect [] ns

-- {node_id: [] for node_id in nodes}
no_targets : Dict Node → Dict (List String)
no_targets [] = []
no_targets ((k, _) ∷ d) = (k, []) ∷ no_targets d

-- adjacency_list[connection["source"]].append(connection["target"])
add_target : Connection → Dict (List String) → Result (Dict (List String))
add_target c adj = elim (lookup c.source adj) [
  | none ↦ err key_error
  | some ts ↦ ok (insert c.source (ts ++ c.target ∷ []) adj)
]

add_targets : Dict (List String) → List Connection → Result (Dict (List String))
add_targets adj [] = ok adj
add_targets adj (c ∷ cs) = elim (add_target c adj) [ ok adj' ↦ add_targets adj' cs | err e ↦ err e ]

unfoldable pub adjacency_list : Dict Node → List Connection → Result (Dict (List String))
unfolding no_targets add_target add_targets
adjacency_list nodes cs = add_targets (no_targets nodes) cs

-- [node_id for node_id in nodes if not any(node_id == conn["target"] for conn in connections)]
unfoldable pub start_nodes : Dict Node → List Connection → List String
start_nodes nodes cs = select (λ k. not (any (λ c. str_eq k c.target) cs)) (keys nodes)

-- The truth of `condition_result["result"]`, or what the lines before and at it raise: `in` is a
-- search for a key, an element or a piece of text, and indexing a list or a text by a text raises.
has_text : String → Items → Bool
has_text k nil = false
has_text k (cons (str s) xs) = str_eq s k || has_text k xs
has_text k (cons _ xs) = has_text k xs

unfoldable pub condition_holds : Json → Result Bool
unfolding has_text
condition_holds (obj fs) = elim (get "result" fs) [
  | none ↦ err (exception "Wrong condition_result")
  | some v ↦ ok (truthy v)
]
condition_holds (arr xs) =
    if has_text "result" xs then err type_error else err (exception "Wrong condition_result")
condition_holds (str s) = elim (find? s "result") [
  | none ↦ err (exception "Wrong condition_result")
  | some _ ↦ err type_error
]
condition_holds _ = err type_error

abbrev output_of : Bool → String
output_of true = "out_true"
output_of false = "out_false"

abbrev pub target_of : Option Connection → Option String
target_of none = none
target_of (some c) = some c.target

unfoldable pub leaves_by : String → String → Connection → Bool
leaves_by node output c = str_eq c.source node && str_eq c.source_output output

unfoldable pub get_next_node_by_condition : String → Json → List Connection → Result (Option String)
unfolding condition_holds leaves_by
get_next_node_by_condition current condition_result cs = elim (condition_holds condition_result) [
  | ok b ↦ ok (target_of (find (leaves_by current (output_of b)) cs))
  | err e ↦ err e
]
