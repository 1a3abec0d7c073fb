-- ===== src/Evidence/Graph/Matching.antt =====
-- What `validate_against_ledger` of src/quantforge/evidence/graph.py says of a graph and a ledger.
use quantforge_ai.Common.{
  ◌≡◌, ◌∙◌, refl, sym, ap, subst, true, false, String, List, [], ◌∷◌, ◌++◌, map, Option, none, some,
  Result, ok, raise_if-eq-ok, >>-eq-ok, >>=-eq-ok, ok-injective, ==→≡, contains, is_unique,
  is_unique_middle, same_set, for_each, All, string_eq, arith,
}
use mathlib.Core.List.{append_assoc, append-nil, map-append}
use quantforge_ai.Common.Dictionary.{
  Dictionary, keys, values, find, assign, assign_new, or_key_error, require,
}
use quantforge_ai.Domain.Enums.{ValidationStatus, validation_status_eq}
use quantforge_ai.Domain.Evidence.{EvidenceObject}
use quantforge_ai.Evidence.Ledger.{
  EvidenceLedger, id_of, EvidenceLedgerSnapshot, unique_and_bound, snapshot, snapshot_of, get,
  found, lookup,
}
use quantforge_ai.Evidence.Ledger.Binding.{IsBound, entry}
use quantforge_ai.Evidence.Nodes.{GraphNode, GraphEdge}
use quantforge_ai.Evidence.Graph.{ClaimGraph}
use quantforge_ai.Evidence.Graph.Identity.{
  same_value, relation_agrees, by_evidence_id, graph_evidence_ids, has_text, has_status,
  same_identity, same_relationship, validate_against_ledger,
}

keys-entries : (es : List EvidenceObject) → keys (map entry es) ≡ map id_of es
keys-entries [] = refl
keys-entries (e ∷ es) = ap (λ ks. e.evidence_id ∷ ks) (keys-entries es)

find-lookup : (key : String) (d : Dictionary EvidenceObject) → find key d ≡ lookup key d
unfolding find lookup
find-lookup key [] = refl
find-lookup key ((k, e) ∷ d) = ground (arith, find-lookup key d)

by_evidence_id_all :
    (front back : List EvidenceObject)
    → is_unique (map id_of (front ++ back)) ≡ true
    → by_evidence_id (map entry front) back ≡ map entry (front ++ back)
unfolding by_evidence_id
by_evidence_id_all front [] u = ap (map entry) (sym (append-nil front))
by_evidence_id_all front (e ∷ back) u =
    let fresh : contains e.evidence_id (keys (map entry front)) ≡ false = rw keys-entries (
      is_unique_middle (map id_of front) e.evidence_id (map id_of back)
        (subst (λ ks. is_unique ks ≡ true) (map-append id_of front (e ∷ back)) u)) in
    let extended : assign e.evidence_id e (map entry front) ≡ map entry (front ++ e ∷ []) =
      assign_new e.evidence_id e (map entry front) fresh ∙ sym (map-append entry front (e ∷ [])) in
    let regroup = append_assoc front (e ∷ []) back in
    ap (λ d. by_evidence_id d back) extended
    ∙ by_evidence_id_all (front ++ e ∷ []) back (rw regroup u)
    ∙ ap (map entry) regroup

-- The node holds the content and the status of the ledger's evidence with its identifier.
pub record HoldsEvidence (g : ClaimGraph) (l : EvidenceLedger) (node_id : String) : Type 0 where
  pub node : GraphNode
  pub evidence : EvidenceObject
  pub in_graph : find node_id g.nodes ≡ some node
  pub in_ledger : get l node_id ≡ ok evidence
  pub same_content : node.evidence_sha256 ≡ some evidence.content_sha256
  pub same_status : node.evidence_validation_status ≡ some evidence.validation_status

or_key_error-eq-ok : {A : Type 0} (o : Option A) (a : A) → or_key_error o ≡ ok a → o ≡ some a
or_key_error-eq-ok none a r = cc
or_key_error-eq-ok (some b) a r = cc

has_text-eq-true : (o : Option String) (t : String) → has_text o t ≡ true → o ≡ some t
has_text-eq-true none t h = cc
has_text-eq-true (some s) t h = ap some (==→≡ s t h)

has_status-eq-true :
    (o : Option ValidationStatus) (v : ValidationStatus) → has_status o v ≡ true → o ≡ some v
has_status-eq-true none v h = cc
has_status-eq-true (some u) v h = ap some (==→≡ u v h)

same_identity-HoldsEvidence :
    (g : ClaimGraph) (l : EvidenceLedger) (node_id : String)
    → same_identity g l.by_id node_id ≡ ok tt
    → HoldsEvidence g l node_id
unfolding same_identity require get
same_identity-HoldsEvidence g l node_id r =
    let (n, rn, r1) = >>=-eq-ok (require node_id g.nodes) _ r in
    let (e, re, r2) = >>=-eq-ok (require node_id l.by_id) _ r1 in
    let checks = raise_if-eq-ok _ _ r2 in
    record {
      node = n;
      evidence = e;
      in_graph = or_key_error-eq-ok _ n rn;
      in_ledger = ap found (sym (find-lookup node_id l.by_id) ∙ or_key_error-eq-ok _ e re);
      same_content = has_text-eq-true n.evidence_sha256 e.content_sha256 (ground (arith, checks));
      same_status =
          has_status-eq-true n.evidence_validation_status e.validation_status
            (ground (arith, checks));
    }

for_each-All :
    {A : Type 0} (P : A → Type 0) (f : A → Result (Unit {0})) (xs : List A)
    → ((x : A) → f x ≡ ok tt → P x)
    → for_each f xs ≡ ok tt
    → All P xs
unfolding for_each
for_each-All P f [] k r = tt
for_each-All P f (x ∷ xs) k r =
    let (first, rest) = >>-eq-ok (f x) _ r in (k x first, for_each-All P f xs k rest)

-- An edge from evidence of the ledger has the relationship of that evidence.
abbrev pub KeepsRelationship : EvidenceLedger → GraphEdge → Type 0
KeepsRelationship l edge =
    (e : EvidenceObject)
    → get l edge.source_id ≡ ok e
    → same_value edge.edge_type e.relationship ≡ true

found-eq-ok : (o : Option EvidenceObject) (e : EvidenceObject) → found o ≡ ok e → o ≡ some e
found-eq-ok none e r = cc
found-eq-ok (some d) e r = cc

same_relationship-KeepsRelationship :
    (l : EvidenceLedger) (edge : GraphEdge)
    → same_relationship l.by_id edge ≡ ok tt
    → KeepsRelationship l edge
unfolding same_relationship get
same_relationship-KeepsRelationship l edge r e g =
    let there = find-lookup edge.source_id l.by_id ∙ found-eq-ok _ e g in
    ground
      (arith, raise_if-eq-ok _ _ (subst (λ o. relation_agrees edge.edge_type o ≡ ok tt) there r))

-- The evidence nodes of the graph are just the evidence of the ledger, by identifier, content and
-- status, and the edges from them say what the ledger says.
pub record MatchesLedger (g : ClaimGraph) (l : EvidenceLedger) : Type 0 where
  pub same_inventory : same_set (graph_evidence_ids (values g.nodes)) (map id_of l.items) ≡ true
  pub nodes_hold : All (HoldsEvidence g l) (graph_evidence_ids (values g.nodes))
  pub edges_keep : All (KeepsRelationship l) (values g.edges)

-- A graph that passes the validation against a well-formed ledger has just the evidence of the ledger:
-- the same identifiers, each with the ledger's content hash and validation status, and each edge from an
-- evidence node has the relationship that the ledger records for it.
pub validate_against_ledger-MatchesLedger :
    (g : ClaimGraph) (l : EvidenceLedger)
    → IsBound l
    → validate_against_ledger g l ≡ ok tt
    → MatchesLedger g l
unfolding validate_against_ledger snapshot
validate_against_ledger-MatchesLedger g l bound r =
    let (s, taken, r1) = >>=-eq-ok (snapshot l) _ r in
    let (_, last) = >>-eq-ok (unique_and_bound (snapshot_of l)) _ taken in
    let same_items : s.evidence ≡ l.items =
      ap (λ (x : EvidenceLedgerSnapshot). x.evidence) (sym (ok-injective last)) in
    let by_id : by_evidence_id [] s.evidence ≡ l.by_id =
      ap (by_evidence_id []) same_items
      ∙ by_evidence_id_all [] l.items bound.unique
      ∙ sym bound.indexed in
    let same_keys : keys (by_evidence_id [] s.evidence) ≡ map id_of l.items =
      ap keys (by_id ∙ bound.indexed) ∙ keys-entries l.items in
    let (r2, relationships) = >>-eq-ok _ (for_each _ _) r1 in
    let (inventory, identities) = >>-eq-ok _ (for_each _ _) r2 in
    record {
      same_inventory =
          subst (λ ks. same_set (graph_evidence_ids (values g.nodes)) ks ≡ true) same_keys
            (ground (arith, raise_if-eq-ok _ _ inventory));
      nodes_hold = for_each-All (HoldsEvidence g l) _ _ (same_identity-HoldsEvidence g l) (
          subst (λ d. for_each (same_identity g d) (graph_evidence_ids (values g.nodes)) ≡ ok tt)
            by_id identities);
      edges_keep = for_each-All (KeepsRelationship l) _ _ (same_relationship-KeepsRelationship l) (
          subst (λ d. for_each (same_relationship d) (values g.edges) ≡ ok tt) by_id relationships);
    }
