-- ===== src/Evidence/Graph/Traceable.antt =====
-- What `validate_final_claim_traceability` of src/quantforge/evidence/graph.py accepts.
use quantforge_ai.Common.{
  suc, ◌≡◌, ◌↔◌, ◌∙◌, refl, sym, ap, inl, inr, Bool, true, ◌&&◌, String, List, [], ◌∷◌, ok,
  >>-eq-ok, ◌==◌, any, contains, length, for_each, All, Bool-cases, string_eq, arith,
}
use quantforge_ai.Common.Dictionary.{values}
use quantforge_ai.Evidence.Nodes.{GraphNode, GraphEdge}
use quantforge_ai.Evidence.Acyclic.Paths.{Trail, one, more}
use quantforge_ai.Evidence.Graph.{ClaimGraph}
use quantforge_ai.Evidence.Graph.Trace.{
  Search, is_validated, evidence_ids_of, search_from, is_final_claim, trace_node,
  validate_final_claim_traceability,
}
use quantforge_ai.Evidence.Graph.Arcs.{traces, unused-le}
use quantforge_ai.Evidence.Graph.Search.{Finished, start-Traced, search-Traced}

-- Some node with this identifier holds validated evidence.
abbrev pub holds_evidence : List GraphNode → String → Bool
holds_evidence nodes x = any (λ (n : GraphNode). x == n.node_id && is_validated n) nodes

contains-evidence_ids_of :
    (nodes : List GraphNode) (x : String)
    → contains x (evidence_ids_of nodes) ≡ holds_evidence nodes x
unfolding evidence_ids_of contains any
contains-evidence_ids_of [] x = refl
contains-evidence_ids_of (n ∷ ns) x = ground (arith, contains-evidence_ids_of ns x)

-- The edges lead from the node to validated evidence.
abbrev pub IsTraceable : ClaimGraph → String → Type 0
IsTraceable g node_id =
    (x : String) × (holds_evidence (values g.nodes) x ≡ true)
    × Trail (traces (values g.edges)) node_id x

module _ (ev : List String) (edges : List GraphEdge) (start : String) (s : Search)
    (done : Finished ev edges start s) where
  visited_next :
      (u w : String)
      → contains u s.visited ≡ true
      → traces edges u w ≡ true
      → contains w s.visited ≡ true
  unfolding contains
  visited_next u w m a = ground (arith, done.0.closed u w m a, ap (contains w) done.1)

  -- With an empty stack, a path stays among the visited nodes, and its end was noticed.
  noticed_at_end :
      (u x : String)
      → contains u s.visited ≡ true
      → Trail (traces edges) u x
      → contains x ev ≡ true
      → s.found ≡ true
  noticed_at_end u x m (one a) good = done.0.noticed u x m a good
  noticed_at_end u x m (more {u = _} {v = w} {w = _} a path) good =
      noticed_at_end w x (visited_next u w m a) path good

  start_visited : contains start s.visited ≡ true
  unfolding contains
  start_visited = ground (arith, done.0.origin, ap (contains start) done.1)

search_from-Finished :
    (g : ClaimGraph) (node_id : String)
    → Finished (evidence_ids_of (values g.nodes)) (values g.edges) node_id (search_from g node_id)
unfolding search_from
search_from-Finished g node_id =
    let edges = values g.edges in
    search-Traced (evidence_ids_of (values g.nodes)) edges node_id (suc (length edges)) _
      (omega (arith, unused-le edges []))
      (start-Traced (evidence_ids_of (values g.nodes)) edges node_id)

search_from_lem :
    (g : ClaimGraph) (node_id : String)
    → ((search_from g node_id).found ≡ true) ↔ IsTraceable g node_id
search_from_lem g node_id =
    let done = search_from-Finished g node_id in
    let nodes = values g.nodes in
    (
      λ found.
          let (x, good, path) = done.0.justified found in
          (x, sym (contains-evidence_ids_of nodes x) ∙ good, path),
      λ (x, good, path).
          noticed_at_end (evidence_ids_of nodes) (values g.edges) node_id (search_from g node_id)
            done node_id x
            (start_visited (evidence_ids_of nodes) (values g.edges) node_id (search_from g node_id)
              done)
            path (contains-evidence_ids_of nodes x ∙ good),
    )

abbrev pub AllTraceable : ClaimGraph → List GraphNode → Type 0
AllTraceable g = All (λ (n : GraphNode). is_final_claim n ≡ true → IsTraceable g n.node_id)

trace_nodes_iff :
    (g : ClaimGraph) (ns : List GraphNode)
    → (for_each (trace_node g) ns ≡ ok tt) ↔ AllTraceable g ns
unfolding for_each trace_node
trace_nodes_iff g [] = (λ _. tt, λ _. refl)
trace_nodes_iff g (n ∷ ns) =
    let (found, traceable) = search_from_lem g n.node_id in
    let (to, from) = trace_nodes_iff g ns in
    (
      λ r.
          let (first, rest) = >>-eq-ok (trace_node g n) _ r in
          (λ final. found (ground (arith, first, final)), to rest),
      λ (first, rest). elim (Bool-cases (is_final_claim n)) [
        | inl final ↦ ground (arith, final, traceable (first final), from rest)
        | inr other ↦ ground (arith, other, from rest)
      ],
    )

-- The validation returns exactly if from every substantive final claim the edges lead to an evidence node that
-- is validated: from a claim to what supports, contradicts or qualifies it, and to the claims that it is
-- derived from. The search ends within its fuel for every graph.
pub validate_final_claim_traceability_iff :
    (g : ClaimGraph)
    → (validate_final_claim_traceability g ≡ ok tt) ↔ AllTraceable g (values g.nodes)
unfolding validate_final_claim_traceability
validate_final_claim_traceability_iff g = trace_nodes_iff g (values g.nodes)
