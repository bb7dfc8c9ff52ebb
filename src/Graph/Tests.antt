-- ===== src/Graph/Tests.antt =====
-- The diamond's adjacency list and start node, and the theorems on the graph at the diamond.
use finmars_workflow.Common.{
  String, ◌≡◌, refl, true, Option, none, some, List, [], ◌∷◌, str_eq, if◌then◌else◌, select, all,
}
use finmars_workflow.Common.Dict.{lookup, has}
use finmars_workflow.Common.Exec.{ok}
use finmars_workflow.Json.{bool, field, end, obj}
use finmars_workflow.Graph.{nodes_by_id, adjacency_list, start_nodes, get_next_node_by_condition}
use finmars_workflow.Graph.Adjacency.{
  lookup-adjacency_list, adjacency_list-Builds, entry, targets, Builds,
}
use finmars_workflow.Graph.Branch.{get_next_node_by_condition-Follows, Follows}
use finmars_workflow.Fixtures.{diamond_nodes, diamond_wires, diamond_dict, diamond_list}

nodes_by_id_test : nodes_by_id diamond_nodes ≡ diamond_dict
unfolding nodes_by_id finmars_workflow.Common.Dict.insert
nodes_by_id_test = refl

start_nodes_test : start_nodes diamond_dict diamond_wires ≡ "a" ∷ []
unfolding start_nodes
start_nodes_test = refl

lookup-adjacency_list_example :
    lookup "a" diamond_list ≡ entry (lookup "a" diamond_dict) (targets "a" diamond_wires)
unfolding adjacency_list lookup finmars_workflow.Common.Dict.insert
lookup-adjacency_list_example =
    lookup-adjacency_list diamond_dict diamond_wires diamond_list refl "a"

adjacency_list-Builds_example :
    Builds
      (all (λ c. has c.source diamond_dict) diamond_wires)
      (adjacency_list diamond_dict diamond_wires)
adjacency_list-Builds_example = adjacency_list-Builds diamond_dict diamond_wires

get_next_node_by_condition-Follows_example :
    (r : Option String) × (get_next_node_by_condition "a"
        (obj (field "result" (bool true) end))
        diamond_wires
      ≡ ok r)
    × Follows "a" "out_true" diamond_wires r
get_next_node_by_condition-Follows_example =
    get_next_node_by_condition-Follows "a" (field "result" (bool true) end) (bool true)
      diamond_wires refl
