-- ===== src/Evidence/Graph.antt =====
-- src/quantforge/evidence/graph.py: the claim graph and its snapshot. A method that changes the graph
-- returns the new one.
pub mod Growth
pub mod Snapshot
pub mod Trace
pub mod Arcs
pub mod Search
pub mod Traceable
pub mod Identity
pub mod Matching
use quantforge_ai.Common.{
  ℕ, zero, suc, ◌+◌, Bool, true, false, not, ◌&&◌, ◌||◌, String, List, [], ◌∷◌, ◌++◌, map, Option,
  none, some, is_some, value_error, Result, ok, raise_if, ◌>>=◌, ◌>>◌, if◌then◌else◌, ◌==◌, any,
  contains, is_unique, same_set, length, for_each, string_eq, nat_eq,
}
use quantforge_ai.Common.Dictionary.{Dictionary, keys, values, find, assign, require}
use quantforge_ai.Domain.Enums.{ValidationStatus, EvidenceRelationship, validation_status_eq}
use quantforge_ai.Domain.Evidence.{EvidenceObject}
use quantforge_ai.Domain.Sorted.{sorted_by}
use quantforge_ai.Evidence.Ledger.{EvidenceLedger, snapshot}
use quantforge_ai.Evidence.Nodes.{
  NodeType, node_type_eq, EdgeType, edge_type_eq, GraphNode, GraphEdge, meaning_eq, meaning_of,
  type_specific_fields, validate_edge_types,
}
use quantforge_ai.Evidence.Acyclic.{assert_acyclic}

pub record ClaimGraphSnapshot : Type 0 where
  pub nodes : List GraphNode
  pub edges : List GraphEdge

abbrev pub node_id_of : GraphNode → String
node_id_of n = n.node_id

abbrev pub edge_id_of : GraphEdge → String
edge_id_of e = e.edge_id

-- `{node.node_id: node for node in nodes}`
unfoldable pub by_node_id : Dictionary GraphNode → List GraphNode → Dictionary GraphNode
by_node_id d [] = d
by_node_id d (n ∷ ns) = by_node_id (assign n.node_id n d) ns

abbrev pub has_unknown_end : List String → GraphEdge → Bool
has_unknown_end known e = not (contains e.source_id known) || not (contains e.target_id known)

-- The validator returns the snapshot with its nodes and edges sorted.
unfoldable pub valid_graph : ClaimGraphSnapshot → Result ClaimGraphSnapshot
unfolding by_node_id sorted_by
valid_graph s = do
  let node_ids = map node_id_of s.nodes
  raise_if (not (is_unique node_ids) || not (is_unique (map edge_id_of s.edges)))
      (value_error "claim graph identifiers must be unique")
  raise_if (not (is_unique (map meaning_of s.edges)))
      (value_error "claim graph contains a duplicate semantic edge")
  raise_if (any (has_unknown_end node_ids) s.edges)
      (value_error "claim graph edge has an unknown endpoint")
  validate_edge_types (by_node_id [] s.nodes) s.edges
  assert_acyclic node_ids s.edges
  ok (record { nodes = sorted_by node_id_of s.nodes; edges = sorted_by edge_id_of s.edges })

-- The dictionaries `_nodes` and `_edges`
pub record ClaimGraph : Type 0 where
  pub nodes : Dictionary GraphNode
  pub edges : Dictionary GraphEdge

unfoldable pub empty : ClaimGraph
empty = record { nodes = []; edges = [] }

unfoldable pub add_node : ClaimGraph → GraphNode → Result ClaimGraph
unfolding assign
add_node g n = do
  raise_if (contains n.node_id (keys g.nodes)) (value_error "claim graph node already exists")
  ok (record g { nodes = assign n.node_id n g.nodes })

unfoldable pub add_edge : ClaimGraph → GraphEdge → Result ClaimGraph
unfolding assign
add_edge g e = do
  raise_if (contains e.edge_id (keys g.edges)) (value_error "claim graph edge already exists")
  raise_if (has_unknown_end (keys g.nodes) e)
      (value_error "claim graph edge endpoint does not exist")
  let prospective = values g.edges ++ e ∷ []
  raise_if (any (λ (other : GraphEdge). meaning_of other == meaning_of e) (values g.edges))
      (value_error "claim graph semantic edge already exists")
  validate_edge_types g.nodes prospective
  assert_acyclic (keys g.nodes) prospective
  ok (record g { edges = assign e.edge_id e g.edges })

unfoldable pub snapshot_of_graph : ClaimGraph → Result ClaimGraphSnapshot
snapshot_of_graph g = valid_graph (record { nodes = values g.nodes; edges = values g.edges })

unfoldable pub add_nodes : ClaimGraph → List GraphNode → Result ClaimGraph
add_nodes g [] = ok g
add_nodes g (n ∷ ns) = add_node g n >>= λ g'. add_nodes g' ns

unfoldable pub add_edges : ClaimGraph → List GraphEdge → Result ClaimGraph
add_edges g [] = ok g
add_edges g (e ∷ es) = add_edge g e >>= λ g'. add_edges g' es

unfoldable pub from_snapshot : ClaimGraphSnapshot → Result ClaimGraph
unfolding add_nodes add_edges empty
from_snapshot s = add_nodes empty s.nodes >>= λ g. add_edges g s.edges
