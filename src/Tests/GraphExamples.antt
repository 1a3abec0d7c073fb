-- ===== src/Tests/GraphExamples.antt =====
-- The theorems on the claim graph, at a small graph, and runs of its code.
use quantforge_ai.Common.{
  ◌≡◌, ◌↔◌, refl, Bool, true, false, String, [], ◌∷◌, none, some, ok, err, ◌>>=◌, value_error,
  key_error, String-discrete, ◌==◌, any, contains, is_unique, is_subset, same_set, for_each,
  string_eq,
}
use quantforge_ai.Common.Dictionary.{keys, values, find, assign, require}
use quantforge_ai.Domain.Enums.{ValidationStatus-discrete}
use quantforge_ai.Domain.Text.{codes}
use quantforge_ai.Domain.Sorted.{is_before, insert, sorted_by, sorted}
use quantforge_ai.Evidence.Ledger.{lookup, get, unique_and_bound, snapshot}
use quantforge_ai.Evidence.Nodes.{
  NodeType, NodeType-discrete, EdgeType, EdgeType-discrete, GraphNode, GraphEdge, Meaning-discrete,
  type_specific_fields, joins, validate_edge_type, validate_edge_types,
}
use quantforge_ai.Evidence.Acyclic.{
  put, no_arcs, count_edge, count_edges, sources, reversed, release, release_all, visit, turn,
  sweep, begin, sweep_all, assert_acyclic,
}
use quantforge_ai.Evidence.Acyclic.Degrees.{AreKnown}
use quantforge_ai.Evidence.Acyclic.Paths.{HasNoCycle}
use quantforge_ai.Evidence.Acyclic.Correct.{assert_acyclic_iff}
use quantforge_ai.Evidence.Graph.{
  ClaimGraph, node_id_of, edge_id_of, by_node_id, valid_graph, empty, add_node, add_edge, add_nodes,
  add_edges, snapshot_of_graph, from_snapshot,
}
use quantforge_ai.Evidence.Graph.Growth.{
  Grown, from_new, with_node, with_edge, IsGraph, Grown-IsGraph,
}
use quantforge_ai.Evidence.Graph.Snapshot.{Grown-snapshot}
use quantforge_ai.Evidence.Graph.Trace.{
  evidence_ids_of, add_value, reverse_edge, reverse_edges, no_values, look_at, follow, search,
  search_from, trace_node, validate_final_claim_traceability,
}
use quantforge_ai.Evidence.Graph.Traceable.{AllTraceable, validate_final_claim_traceability_iff}
use quantforge_ai.Evidence.Graph.Identity.{
  by_evidence_id, graph_evidence_ids, same_identity, same_relationship, validate_against_ledger,
}
use quantforge_ai.Evidence.Graph.Matching.{MatchesLedger, validate_against_ledger-MatchesLedger}
use quantforge_ai.Tests.Samples.{evidence}
use quantforge_ai.Tests.CaseExamples.{ledger, ledger-IsBound}

abbrev claim_node : String → Bool → GraphNode
claim_node name is_final = record {
  node_id = name;
  node_type = NodeType.claim;
  substantive_final_claim = is_final;
  evidence_sha256 = none;
  evidence_validation_status = none;
}

abbrev evidence_node : GraphNode
evidence_node = record {
  node_id = "evidence_1";
  node_type = NodeType.evidence;
  substantive_final_claim = false;
  evidence_sha256 = some evidence.content_sha256;
  evidence_validation_status = some evidence.validation_status;
}

abbrev supporting : GraphEdge
supporting = record {
  edge_id = "edge_2";
  source_id = "evidence_1";
  target_id = "claim_1";
  edge_type = EdgeType.supports;
}

abbrev derived : String → String → String → GraphEdge
derived name source target = record {
  edge_id = name;
  source_id = source;
  target_id = target;
  edge_type = EdgeType.derived_from;
}

abbrev with_claim : ClaimGraph
with_claim = record { nodes = ("claim_1", claim_node "claim_1" false) ∷ []; edges = [] }

abbrev with_claims : ClaimGraph
with_claims = record {
  nodes = ("claim_1", claim_node "claim_1" false) ∷ ("claim_2", claim_node "claim_2" true) ∷ [];
  edges = [];
}

abbrev with_nodes : ClaimGraph
with_nodes = record {
  nodes =
      ("claim_1", claim_node "claim_1" false)
      ∷ ("claim_2", claim_node "claim_2" true)
      ∷ ("evidence_1", evidence_node)
      ∷ [];
  edges = [];
}

abbrev with_support : ClaimGraph
with_support = record with_nodes { edges = ("edge_2", supporting) ∷ [] }

abbrev whole : ClaimGraph
whole = record with_nodes {
  edges = ("edge_2", supporting) ∷ ("edge_1", derived "edge_1" "claim_2" "claim_1") ∷ [];
}

-- How the code runs on the graph
record GraphRuns : Type 0 where
  node_1 : add_node empty (claim_node "claim_1" false) ≡ ok with_claim
  node_2 : add_node with_claim (claim_node "claim_2" true) ≡ ok with_claims
  node_3 : add_node with_claims evidence_node ≡ ok with_nodes
  twice :
      add_node with_claims (claim_node "claim_1" true)
      ≡ err (value_error "claim graph node already exists")
  edge_1 : add_edge with_nodes supporting ≡ ok with_support
  edge_2 : add_edge with_support (derived "edge_1" "claim_2" "claim_1") ≡ ok whole
  cycle :
      add_edge whole (derived "edge_3" "claim_1" "claim_2")
      ≡ err (value_error "claim graph cycles are prohibited")
  same_meaning :
      add_edge whole (derived "edge_3" "claim_2" "claim_1")
      ≡ err (value_error "claim graph semantic edge already exists")
  wrong_type :
      add_edge with_nodes (derived "edge_3" "claim_2" "evidence_1")
      ≡ err (value_error "claim graph edge violates the node-type contract")
  missing :
      add_edge with_nodes (derived "edge_3" "claim_2" "claim_3")
      ≡ err (value_error "claim graph edge endpoint does not exist")
  traced : validate_final_claim_traceability whole ≡ ok tt
  untraced :
      validate_final_claim_traceability with_support
      ≡ err (value_error "final claim lacks evidence traceability")
  matched : validate_against_ledger whole ledger ≡ ok tt
  unmatched :
      validate_against_ledger with_claims ledger
      ≡ err (value_error "claim graph evidence inventory does not match the ledger")
  restored :
      (snapshot_of_graph whole >>= from_snapshot >>= snapshot_of_graph) ≡ snapshot_of_graph whole
  unknown_key : assert_acyclic ("claim_1" ∷ []) (supporting ∷ []) ≡ err (key_error "")
  well_formed : type_specific_fields evidence_node ≡ ok tt

graph_runs : GraphRuns
unfolding ◌==◌ String-discrete any contains is_unique is_subset same_set for_each find assign
    require ValidationStatus-discrete codes is_before insert sorted_by sorted lookup get
    unique_and_bound snapshot NodeType-discrete EdgeType-discrete Meaning-discrete
    type_specific_fields joins validate_edge_type validate_edge_types put no_arcs count_edge
    count_edges sources reversed release release_all visit turn sweep begin sweep_all assert_acyclic
    by_node_id valid_graph empty add_node add_edge add_nodes add_edges snapshot_of_graph
    from_snapshot evidence_ids_of add_value reverse_edge reverse_edges no_values look_at follow
    search search_from trace_node validate_final_claim_traceability by_evidence_id
    graph_evidence_ids same_identity same_relationship validate_against_ledger
graph_runs = record {
  node_1 = refl;
  node_2 = refl;
  node_3 = refl;
  twice = refl;
  edge_1 = refl;
  edge_2 = refl;
  cycle = refl;
  same_meaning = refl;
  wrong_type = refl;
  missing = refl;
  traced = refl;
  untraced = refl;
  matched = refl;
  unmatched = refl;
  restored = refl;
  unknown_key = refl;
  well_formed = refl;
}

with_nodes-Grown : Grown with_nodes
with_nodes-Grown =
    with_node _ (with_node _ (with_node _ (from_new refl) graph_runs.node_1) graph_runs.node_2)
      graph_runs.node_3

grown : Grown whole
grown = with_edge _ (with_edge _ with_nodes-Grown graph_runs.edge_1) graph_runs.edge_2

distinct_ids : is_unique (keys whole.nodes) ≡ true
unfolding ◌==◌ String-discrete is_unique contains
distinct_ids = refl

assert_acyclic_iff_example :
    (assert_acyclic (keys whole.nodes) (values whole.edges) ≡ ok tt)
    ↔ (AreKnown (keys whole.nodes) (values whole.edges) × HasNoCycle (values whole.edges))
assert_acyclic_iff_example = assert_acyclic_iff (keys whole.nodes) (values whole.edges) distinct_ids

Grown-IsGraph_example : IsGraph whole
Grown-IsGraph_example = Grown-IsGraph grown

Grown-snapshot_example :
    snapshot_of_graph whole
    ≡ ok (record {
      nodes = sorted_by node_id_of (values whole.nodes);
      edges = sorted_by edge_id_of (values whole.edges);
    })
Grown-snapshot_example = Grown-snapshot whole grown

validate_final_claim_traceability_iff_example :
    (validate_final_claim_traceability whole ≡ ok tt) ↔ AllTraceable whole (values whole.nodes)
validate_final_claim_traceability_iff_example = validate_final_claim_traceability_iff whole

validate_against_ledger-MatchesLedger_example : MatchesLedger whole ledger
validate_against_ledger-MatchesLedger_example =
    validate_against_ledger-MatchesLedger whole ledger ledger-IsBound graph_runs.matched
