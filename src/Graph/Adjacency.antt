-- ===== src/Graph/Adjacency.antt =====
-- What the adjacency list holds, against the plain description of the targets of a node.
use finmars_workflow.Common.{
  String, ◌≡◌, refl, Bool, true, false, Option, none, some, List, [], ◌∷◌, ◌++◌, arith, str_eq,
  eq_iff, if◌then◌else◌, all, Option-cases, inl, inr,
}
use mathlib.Core.Path.{fun_ext}
use mathlib.Core.List.{append_assoc, append-nil}
use finmars_workflow.Common.Dict.{Dict, lookup, insert, has, lookup-insert, has-insert}
use finmars_workflow.Common.Exec.{Result, ok, err, key_error}
use finmars_workflow.Graph.{Node, Connection, no_targets, add_target, add_targets, adjacency_list}

-- The targets of a node's connections, in the order of the connections.
abbrev pub targets : String → List Connection → List String
targets k [] = []
targets k (c ∷ cs) = let rest = targets k cs in if str_eq c.source k then c.target ∷ rest else rest

abbrev extend : List String → Option (List String) → Option (List String)
extend ts none = none
extend ts (some us) = some (us ++ ts)

-- A node's entry in the list, with nothing for a text that is no node.
abbrev pub entry : Option Node → List String → Option (List String)
entry none ts = none
entry (some _) ts = some ts

lookup-no_targets :
    (k : String) (nodes : Dict Node) → lookup k (no_targets nodes) ≡ entry (lookup k nodes) []
unfolding lookup no_targets
lookup-no_targets k [] = refl
lookup-no_targets k ((j, n) ∷ d) = ground (arith, lookup-no_targets k d)

-- One connection put into the list, and the rest of them.
lookup-add_targets :
    (k : String) (cs : List Connection) (adj adj' : Dict (List String))
    → add_targets adj cs ≡ ok adj'
    → lookup k adj' ≡ extend (targets k cs) (lookup k adj)
unfolding add_targets add_target
lookup-add_targets k [] adj adj' h = elim (Option-cases (lookup k adj)) [
  | inl e ↦ ground arith
  | inr (us, e) ↦ rw (e) (ground (arith, append-nil us))
]
lookup-add_targets k (c ∷ cs) adj adj' h = elim (Option-cases (lookup c.source adj)) [
  | inl missing ↦ ground arith
  | inr (ts, found) ↦
      let ih =
        lookup-add_targets k cs (insert c.source (ts ++ c.target ∷ []) adj) adj' (ground arith) in
      ground (
        arith,
        ih,
        lookup-insert c.source k (ts ++ c.target ∷ []) adj,
        eq_iff c.source k,
        append_assoc ts (c.target ∷ []) (targets k cs),
      )
]

-- Each entry of the list holds the targets of its node in the order of the connections, and a text
-- that is no node has no entry.
pub lookup-adjacency_list :
    (nodes : Dict Node) (cs : List Connection) (adj : Dict (List String))
    → adjacency_list nodes cs ≡ ok adj
    → (k : String) → lookup k adj ≡ entry (lookup k nodes) (targets k cs)
unfolding adjacency_list
lookup-adjacency_list nodes cs adj h k =
    ground (arith, lookup-add_targets k cs (no_targets nodes) adj, lookup-no_targets k nodes)

has-no_targets : (k : String) (nodes : Dict Node) → has k (no_targets nodes) ≡ has k nodes
unfolding has
has-no_targets k nodes = ground (arith, lookup-no_targets k nodes)

all-has-insert :
    (k : String) (ts : List String) (adj : Dict (List String)) (cs : List Connection)
    → has k adj ≡ true
    → all (λ c. has c.source (insert k ts adj)) cs ≡ all (λ c. has c.source adj) cs
all-has-insert k ts adj cs h = rw (fun_ext (λ (c : Connection). has-insert k c.source ts adj h))

all-has-no_targets :
    (nodes : Dict Node) (cs : List Connection)
    → all (λ c. has c.source (no_targets nodes)) cs ≡ all (λ c. has c.source nodes) cs
all-has-no_targets nodes cs = rw (fun_ext (λ (c : Connection). has-no_targets c.source nodes))

-- A list, or the KeyError, by whether every connection starts at a node.
abbrev pub Builds : Bool → Result (Dict (List String)) → Type 0
Builds true r = (adj : Dict (List String)) × (r ≡ ok adj)
Builds false r = r ≡ err key_error

has_of_lookup :
    (k : String) (adj : Dict (List String)) {ts : List String}
    → lookup k adj ≡ some ts
    → has k adj ≡ true
unfolding has
has_of_lookup k adj h = ground arith

lacks_of_lookup : (k : String) (adj : Dict (List String)) → lookup k adj ≡ none → has k adj ≡ false
unfolding has
lacks_of_lookup k adj h = ground arith

add_targets-found :
    (c : Connection) (cs : List Connection) (adj : Dict (List String)) (ts : List String)
    → lookup c.source adj ≡ some ts
    → add_targets adj (c ∷ cs) ≡ add_targets (insert c.source (ts ++ c.target ∷ []) adj) cs
unfolding add_targets add_target
add_targets-found c cs adj ts h = ground arith

add_targets-missing :
    (c : Connection) (cs : List Connection) (adj : Dict (List String))
    → lookup c.source adj ≡ none
    → add_targets adj (c ∷ cs) ≡ err key_error
unfolding add_targets add_target
add_targets-missing c cs adj h = ground arith

add_targets-Builds :
    (cs : List Connection) (adj : Dict (List String))
    → Builds (all (λ c. has c.source adj) cs) (add_targets adj cs)
unfolding add_targets
add_targets-Builds [] adj = (adj, refl)
add_targets-Builds (c ∷ cs) adj = elim (Option-cases (lookup c.source adj)) [
  | inl missing ↦ rw (lacks_of_lookup c.source adj missing) (add_targets-missing c cs adj missing)
  | inr (ts, found) ↦
      let known = has_of_lookup c.source adj found in
      let adj' = insert c.source (ts ++ c.target ∷ []) adj in
      rw (known, add_targets-found c cs adj ts found)
        (rw (all-has-insert c.source (ts ++ c.target ∷ []) adj cs known) at
          (add_targets-Builds cs adj'))
]

-- The adjacency list is built exactly when every connection starts at a node of the graph, and
-- otherwise building it raises KeyError.
pub adjacency_list-Builds :
    (nodes : Dict Node) (cs : List Connection)
    → Builds (all (λ c. has c.source nodes) cs) (adjacency_list nodes cs)
unfolding adjacency_list
adjacency_list-Builds nodes cs =
    rw (← all-has-no_targets nodes cs) (add_targets-Builds cs (no_targets nodes))
