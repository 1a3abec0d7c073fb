-- ===== src/Evidence/Graph/Trace.antt =====
-- `validate_final_claim_traceability` of src/quantforge/evidence/graph.py: from each final claim the
-- edges are followed to validated evidence. The dictionary `reverse` is a function; where it has no
-- key, `get` gives the empty set. The list `frontier` is a stack with its last element first. Python
-- goes through a set in an order of its own, here the order of the list.
use quantforge_ai.Common.{
  ℕ, zero, suc, Bool, false, not, ◌&&◌, ◌||◌, String, List, [], ◌∷◌, none, some, value_error,
  Result, raise_if, ok, if◌then◌else◌, ◌==◌, contains, length, for_each, string_eq,
}
use quantforge_ai.Common.Dictionary.{values}
use quantforge_ai.Domain.Enums.{ValidationStatus, validation_status_eq}
use quantforge_ai.Evidence.Nodes.{NodeType, node_type_eq, EdgeType, GraphNode, GraphEdge}
use quantforge_ai.Evidence.Acyclic.{put}
use quantforge_ai.Evidence.Graph.{ClaimGraph}

abbrev pub is_validated : GraphNode → Bool
is_validated n =
    n.node_type == NodeType.evidence
    && elim n.evidence_validation_status [ none ↦ false | some v ↦ v == ValidationStatus.validated ]

unfoldable pub evidence_ids_of : List GraphNode → List String
evidence_ids_of [] = []
evidence_ids_of (n ∷ ns) =
    if is_validated n then n.node_id ∷ evidence_ids_of ns else evidence_ids_of ns

-- `reverse.setdefault(key, set()).add(value)`
unfoldable pub add_value : String → String → (String → List String) → String → List String
unfolding put
add_value key value d = put key (if contains value (d key) then d key else value ∷ d key) d

-- The body of the loop over the edges
unfoldable pub reverse_edge : GraphEdge → EdgeType → (String → List String) → String → List String
unfolding add_value
reverse_edge e EdgeType.derived_from d = add_value e.source_id e.target_id d
reverse_edge e EdgeType.amends d = d
reverse_edge e _ d = add_value e.target_id e.source_id d

unfoldable pub reverse_edges : List GraphEdge → (String → List String) → String → List String
unfolding reverse_edge
reverse_edges [] d = d
reverse_edges (e ∷ es) d = reverse_edges es (reverse_edge e e.edge_type d)

unfoldable pub no_values : String → List String
no_values _ = []

pub record Search : Type 0 where
  pub frontier : List String
  pub visited : List String
  pub found : Bool

-- The `for` loop over the predecessors of a node
unfoldable pub look_at : List String → Search → List String → Search
look_at evidence_ids s [] = s
look_at evidence_ids s (p ∷ ps) =
    look_at evidence_ids
      (record s { frontier = p ∷ s.frontier; found = contains p evidence_ids || s.found }) ps

-- One round of the `while` loop. With an empty stack the loop has ended, and nothing changes.
unfoldable pub follow : List String → (String → List String) → Search → List String → Search
unfolding look_at
follow evidence_ids reverse s [] = s
follow evidence_ids reverse s (current ∷ rest) =
    if contains current s.visited
    then record s { frontier = rest }
    else look_at evidence_ids (record s { frontier = rest; visited = current ∷ s.visited })
        (reverse current)

unfoldable pub search : ℕ → List String → (String → List String) → Search → Search
unfolding follow
search zero evidence_ids reverse s = s
search (suc fuel) evidence_ids reverse s =
    search fuel evidence_ids reverse (follow evidence_ids reverse s s.frontier)

-- The state in which the `while` loop ends for one claim. Every edge is followed once at most, so one
-- more than the number of edges is enough fuel.
unfoldable pub search_from : ClaimGraph → String → Search
unfolding search evidence_ids_of reverse_edges no_values
search_from g node_id =
    search (suc (length (values g.edges))) (evidence_ids_of (values g.nodes))
      (reverse_edges (values g.edges) no_values)
      (record { frontier = node_id ∷ []; visited = []; found = false })

abbrev pub is_final_claim : GraphNode → Bool
is_final_claim n = n.node_type == NodeType.claim && n.substantive_final_claim

unfoldable pub trace_node : ClaimGraph → GraphNode → Result (Unit {0})
unfolding search_from
trace_node g n =
    if is_final_claim n
    then raise_if (not (search_from g n.node_id).found)
        (value_error "final claim lacks evidence traceability")
    else ok tt

unfoldable pub validate_final_claim_traceability : ClaimGraph → Result (Unit {0})
unfolding trace_node
validate_final_claim_traceability g = for_each (trace_node g) (values g.nodes)
