-- ===== src/Evidence/Graph/Snapshot.antt =====
-- The snapshots of the claim graphs of src/quantforge/evidence/graph.py.
use quantforge_ai.Common.{
  ◌≡◌, ◌∙◌, sym, ap, subst, true, false, [], ◌∷◌, ◌++◌, map, ok, any, any_of_All, contains,
  is_unique, is_unique_middle, All-map, string_eq, arith,
}
use mathlib.Core.List.{append_assoc, append-nil, head-eq_of_cons-eq, tail-eq_of_cons-eq}
use quantforge_ai.Common.Dictionary.{Dictionary, keys, values, assign, assign_new, keys_of_append}
use quantforge_ai.Domain.Sorted.{sorted_by}
use quantforge_ai.Evidence.Nodes.{GraphNode, GraphEdge, meaning_eq, validate_edge_types}
use quantforge_ai.Evidence.Acyclic.{assert_acyclic}
use quantforge_ai.Evidence.Acyclic.Degrees.{IsKnown}
use quantforge_ai.Evidence.Acyclic.Correct.{assert_acyclic_iff}
use quantforge_ai.Evidence.Graph.{
  ClaimGraph, node_id_of, edge_id_of, by_node_id, has_unknown_end, valid_graph, snapshot_of_graph,
}
use quantforge_ai.Evidence.Graph.Growth.{Grown, Grown-IsGraph}

-- The dictionary that the validator builds from the values is the graph's own.
by_node_id_all :
    (front back : Dictionary GraphNode)
    → map node_id_of (values back) ≡ keys back
    → is_unique (keys (front ++ back)) ≡ true
    → by_node_id front (values back) ≡ front ++ back
unfolding by_node_id
by_node_id_all front [] k u = sym (append-nil front)
by_node_id_all front ((key, n) ∷ back) k u =
    let same_key : n.node_id ≡ key = head-eq_of_cons-eq k in
    let fresh : contains n.node_id (keys front) ≡ false = rw same_key (
      is_unique_middle (keys front) key (keys back)
        (subst (λ ks. is_unique ks ≡ true) (keys_of_append front ((key, n) ∷ back)) u)) in
    let extended : assign n.node_id n front ≡ front ++ (key, n) ∷ [] =
      assign_new n.node_id n front fresh ∙ ap (λ x. front ++ (x, n) ∷ []) same_key in
    let regroup = append_assoc front ((key, n) ∷ []) back in
    ap (λ d. by_node_id d (values back)) extended
    ∙ by_node_id_all (front ++ (key, n) ∷ []) back (tail-eq_of_cons-eq k) (rw regroup u)
    ∙ regroup

-- A graph that was built has a snapshot: its nodes and edges, sorted by their identifiers.
pub Grown-snapshot :
    (g : ClaimGraph)
    → Grown g
    → snapshot_of_graph g
      ≡ ok (record {
        nodes = sorted_by node_id_of (values g.nodes);
        edges = sorted_by edge_id_of (values g.edges);
      })
unfolding snapshot_of_graph valid_graph
Grown-snapshot g grown =
    let h = Grown-IsGraph grown in
    let ids_unique : is_unique (map node_id_of (values g.nodes)) ≡ true =
      rw h.node_keys h.distinct_nodes in
    let edges_unique : is_unique (map edge_id_of (values g.edges)) ≡ true =
      rw h.edge_keys h.distinct_edges in
    let ends : any (has_unknown_end (map node_id_of (values g.nodes))) (values g.edges) ≡ false =
      rw h.node_keys (
        any_of_All _ (values g.edges) (
          All-map (λ (e : GraphEdge) (k : IsKnown (keys g.nodes) e). ground (arith, k))
            (values g.edges) h.known)) in
    let same = by_node_id_all [] g.nodes h.node_keys h.distinct_nodes in
    let acyclic : assert_acyclic (map node_id_of (values g.nodes)) (values g.edges) ≡ ok tt =
      rw h.node_keys (
        (assert_acyclic_iff (keys g.nodes) (values g.edges) h.distinct_nodes).1
          (h.known, h.acyclic)) in
    ground (
      arith,
      ids_unique,
      edges_unique,
      h.distinct_meanings,
      ends,
      ap (λ d. validate_edge_types d (values g.edges)) same,
      h.typed,
      acyclic,
    )
