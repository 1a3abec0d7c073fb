-- ===== src/Evidence/Graph/Identity.antt =====
-- `validate_against_ledger` of src/quantforge/evidence/graph.py: the evidence of the graph is that of
-- the ledger.
use quantforge_ai.Common.{
  Bool, true, false, not, ◌||◌, String, List, [], ◌∷◌, Option, none, some, value_error, Result, ok,
  raise_if, ◌>>=◌, ◌>>◌, if◌then◌else◌, ◌==◌, same_set, for_each, string_eq,
}
use quantforge_ai.Common.Dictionary.{Dictionary, keys, values, find, assign, require}
use quantforge_ai.Domain.Enums.{ValidationStatus, EvidenceRelationship, validation_status_eq}
use quantforge_ai.Domain.Evidence.{EvidenceObject}
use quantforge_ai.Evidence.Ledger.{EvidenceLedger, EvidenceLedgerSnapshot, snapshot}
use quantforge_ai.Evidence.Nodes.{NodeType, node_type_eq, EdgeType, GraphNode, GraphEdge}
use quantforge_ai.Evidence.Graph.{ClaimGraph}

-- `edge.edge_type.value == relationship`, for the texts of the two enumerations
abbrev pub same_value : EdgeType → EvidenceRelationship → Bool
same_value EdgeType.supports EvidenceRelationship.supports = true
same_value EdgeType.contradicts EvidenceRelationship.contradicts = true
same_value EdgeType.qualifies EvidenceRelationship.qualifies = true
same_value _ _ = false

-- `{item.evidence_id: item for item in items}`
unfoldable pub by_evidence_id :
    Dictionary EvidenceObject → List EvidenceObject → Dictionary EvidenceObject
by_evidence_id d [] = d
by_evidence_id d (e ∷ es) = by_evidence_id (assign e.evidence_id e d) es

-- The set `graph_evidence_ids`
unfoldable pub graph_evidence_ids : List GraphNode → List String
graph_evidence_ids [] = []
graph_evidence_ids (n ∷ ns) =
    if n.node_type == NodeType.evidence
    then n.node_id ∷ graph_evidence_ids ns
    else graph_evidence_ids ns

abbrev pub has_text : Option String → String → Bool
has_text none t = false
has_text (some s) t = s == t

abbrev pub has_status : Option ValidationStatus → ValidationStatus → Bool
has_status none v = false
has_status (some u) v = u == v

-- The body of the loop over the identifiers
unfoldable pub same_identity : ClaimGraph → Dictionary EvidenceObject → String → Result (Unit {0})
same_identity g by_id node_id = require node_id g.nodes >>= λ (n : GraphNode).
    require node_id by_id >>= λ (e : EvidenceObject).
    raise_if
      (not (has_text n.evidence_sha256 e.content_sha256)
        || not (has_status n.evidence_validation_status e.validation_status))
      (value_error "claim graph evidence identity does not match the ledger")

abbrev pub relation_agrees : EdgeType → Option EvidenceObject → Result (Unit {0})
relation_agrees t none = ok tt
relation_agrees t (some e) =
    raise_if (not (same_value t e.relationship))
      (value_error "claim graph relationship does not match evidence")

-- The body of the loop over the edges
unfoldable pub same_relationship : Dictionary EvidenceObject → GraphEdge → Result (Unit {0})
same_relationship by_id e = relation_agrees e.edge_type (find e.source_id by_id)

unfoldable pub validate_against_ledger : ClaimGraph → EvidenceLedger → Result (Unit {0})
unfolding by_evidence_id graph_evidence_ids same_identity same_relationship
validate_against_ledger g l = snapshot l >>= λ (s : EvidenceLedgerSnapshot).
    let by_id = by_evidence_id [] s.evidence in
    let ids = graph_evidence_ids (values g.nodes) in
    raise_if (not (same_set ids (keys by_id)))
      (value_error "claim graph evidence inventory does not match the ledger")
    >> for_each (same_identity g by_id) ids
    >> for_each (same_relationship by_id) (values g.edges)
