-- ===== src/Evidence/Nodes.antt =====
-- The nodes and edges of src/quantforge/evidence/graph.py, and which edges may join which nodes.
use quantforge_ai.Common.{
  Bool, not, ◌&&◌, ◌||◌, String, List, Option, value_error, Result, raise_if, ◌>>=◌, ◌>>◌, ◌==◌, Eq,
  is_some, is_none, for_each, string_eq, bool_eq, String-discrete,
}
use quantforge_ai.Common.Dictionary.{Dictionary, require}
use quantforge_ai.Domain.Enums.{ValidationStatus}

pub data NodeType : Type 0 where
  claim evidence amendment : NodeType

unfoldable pub NodeType-discrete : Discrete NodeType
NodeType-discrete = hlevel

instance abbrev pub node_type_eq : Eq NodeType
node_type_eq = record { dec = NodeType-discrete }

pub data EdgeType : Type 0 where
  supports contradicts qualifies derived_from amends : EdgeType

unfoldable pub EdgeType-discrete : Discrete EdgeType
EdgeType-discrete = hlevel

instance abbrev pub edge_type_eq : Eq EdgeType
edge_type_eq = record { dec = EdgeType-discrete }

pub record GraphNode : Type 0 where
  pub node_id : String
  pub node_type : NodeType
  pub substantive_final_claim : Bool
  pub evidence_sha256 : Option String
  pub evidence_validation_status : Option ValidationStatus

unfoldable pub type_specific_fields : GraphNode → Result (Unit {0})
type_specific_fields n = do
  raise_if
      (n.node_type == NodeType.evidence
        && (is_none n.evidence_sha256 || is_none n.evidence_validation_status))
      (value_error "evidence graph nodes require content and validation identity")
  raise_if
      (not (n.node_type == NodeType.evidence)
        && (is_some n.evidence_sha256 || is_some n.evidence_validation_status))
      (value_error "only evidence graph nodes may carry evidence identity")
  raise_if (not (n.node_type == NodeType.claim) && n.substantive_final_claim)
      (value_error "only claim nodes may be substantive final claims")

pub record GraphEdge : Type 0 where
  pub edge_id : String
  pub source_id : String
  pub target_id : String
  pub edge_type : EdgeType

-- `(edge.source_id, edge.target_id, edge.edge_type)`
pub record Meaning : Type 0 where
  pub from_id : String
  pub to_id : String
  pub kind : EdgeType

unfoldable pub Meaning-discrete : Discrete Meaning
Meaning-discrete = hlevel (String-discrete, EdgeType-discrete)

instance abbrev pub meaning_eq : Eq Meaning
meaning_eq = record { dec = Meaning-discrete }

abbrev pub meaning_of : GraphEdge → Meaning
meaning_of e = record { from_id = e.source_id; to_id = e.target_id; kind = e.edge_type }

-- The test `valid` of `_validate_edge_types`
unfoldable pub joins : EdgeType → NodeType → NodeType → Bool
joins EdgeType.derived_from source target = source == NodeType.claim && target == NodeType.claim
joins EdgeType.amends source target =
    source == NodeType.amendment && (target == NodeType.amendment || target == NodeType.claim)
joins _ source target = source == NodeType.evidence && target == NodeType.claim

-- The body of the loop of `_validate_edge_types`
unfoldable pub validate_edge_type : Dictionary GraphNode → GraphEdge → Result (Unit {0})
validate_edge_type nodes e = require e.source_id nodes >>= λ (source : GraphNode).
    require e.target_id nodes >>= λ (target : GraphNode).
    raise_if
      (not (joins e.edge_type source.node_type target.node_type) || e.source_id == e.target_id)
      (value_error "claim graph edge violates the node-type contract")

unfoldable pub validate_edge_types : Dictionary GraphNode → List GraphEdge → Result (Unit {0})
unfolding validate_edge_type
validate_edge_types nodes = for_each (validate_edge_type nodes)
