-- ===== src/Evidence/Graph/Growth.antt =====
-- Claim graphs that are built by `add_node` and `add_edge` of src/quantforge/evidence/graph.py.
use quantforge_ai.Common.{
  ◌≡◌, ◌∙◌, refl, sym, ap, subst, true, false, String, List, [], ◌∷◌, ◌++◌, map, some, ok, raise_if,
  raise_if-eq-ok, >>=-eq-ok, >>-eq-ok, ok-injective, ◌==◌, ==→≡, ≡→==, any, contains,
  contains-append, is_unique, is_unique-append, for_each, All-map, All-append, string_eq, arith,
}
use mathlib.Core.List.{map-append}
use quantforge_ai.Common.Dictionary.{
  Dictionary, keys, values, find, require, assign_new, keys-append, values-append,
}
use quantforge_ai.Evidence.Nodes.{
  GraphNode, GraphEdge, meaning_eq, meaning_of, validate_edge_type, validate_edge_types,
  node_type_eq,
}
use quantforge_ai.Evidence.Acyclic.{assert_acyclic}
use quantforge_ai.Evidence.Acyclic.Degrees.{IsKnown, AreKnown}
use quantforge_ai.Evidence.Acyclic.Paths.{HasNoCycle, no_edges-HasNoCycle}
use quantforge_ai.Evidence.Acyclic.Correct.{assert_acyclic_iff}
use quantforge_ai.Evidence.Graph.{
  ClaimGraph, node_id_of, edge_id_of, has_unknown_end, empty, add_node, add_edge,
}

-- The graphs that a caller can build
pub data Grown : ClaimGraph → Type 0 where
  from_new : {g : ClaimGraph} → g ≡ empty → Grown g
  with_node : {g g' : ClaimGraph} (n : GraphNode) → Grown g → add_node g n ≡ ok g' → Grown g'
  with_edge : {g g' : ClaimGraph} (e : GraphEdge) → Grown g → add_edge g e ≡ ok g' → Grown g'

pub record IsGraph (g : ClaimGraph) : Type 0 where
  pub node_keys : map node_id_of (values g.nodes) ≡ keys g.nodes
  pub edge_keys : map edge_id_of (values g.edges) ≡ keys g.edges
  pub distinct_nodes : is_unique (keys g.nodes) ≡ true
  pub distinct_edges : is_unique (keys g.edges) ≡ true
  pub distinct_meanings : is_unique (map meaning_of (values g.edges)) ≡ true
  pub known : AreKnown (keys g.nodes) (values g.edges)
  pub typed : validate_edge_types g.nodes (values g.edges) ≡ ok tt
  pub acyclic : HasNoCycle (values g.edges)

empty-IsGraph : IsGraph empty
unfolding empty validate_edge_types for_each is_unique assert_acyclic
empty-IsGraph = record {
  node_keys = refl;
  edge_keys = refl;
  distinct_nodes = refl;
  distinct_edges = refl;
  distinct_meanings = refl;
  known = tt;
  typed = refl;
  acyclic = no_edges-HasNoCycle;
}

contains-meaning :
    (e : GraphEdge) (es : List GraphEdge)
    → any (λ (other : GraphEdge). meaning_of other == meaning_of e) es
      ≡ contains (meaning_of e) (map meaning_of es)
unfolding any contains
contains-meaning e [] = refl
contains-meaning e (d ∷ es) = ground (
  arith,
  contains-meaning e es,
  ==→≡ (meaning_of d) (meaning_of e),
  ≡→== (meaning_of d) (meaning_of e),
  ==→≡ (meaning_of e) (meaning_of d),
  ≡→== (meaning_of e) (meaning_of d),
)

find-append :
    {A : Type 0} (key k : String) (a b : A) (d : Dictionary A)
    → find key d ≡ some b
    → find key (d ++ (k, a) ∷ []) ≡ some b
unfolding find
find-append key k a b [] h = cc
find-append key k a b ((j, c) ∷ d) h = ground (arith, h, find-append key k a b d)

require-append :
    {A : Type 0} (key k : String) (a b : A) (d : Dictionary A)
    → require key d ≡ ok b
    → require key (d ++ (k, a) ∷ []) ≡ ok b
unfolding require
require-append key k a b d h = ground (arith, h, find-append key k a b d)

typed-append :
    (k : String) (n : GraphNode) (d : Dictionary GraphNode) (e : GraphEdge)
    → validate_edge_type d e ≡ ok tt
    → validate_edge_type (d ++ (k, n) ∷ []) e ≡ ok tt
unfolding validate_edge_type
typed-append k n d e h =
    let (s, hs, h1) = >>=-eq-ok (require e.source_id d) _ h in
    let (t, ht, h2) = >>=-eq-ok (require e.target_id d) _ h1 in
    ground (arith, require-append e.source_id k n s d hs, require-append e.target_id k n t d ht, h2)

typed-append_all :
    (k : String) (n : GraphNode) (d : Dictionary GraphNode) (es : List GraphEdge)
    → validate_edge_types d es ≡ ok tt
    → validate_edge_types (d ++ (k, n) ∷ []) es ≡ ok tt
unfolding validate_edge_types for_each
typed-append_all k n d [] h = refl
typed-append_all k n d (e ∷ es) h =
    let (h1, h2) = >>-eq-ok (validate_edge_type d e) _ h in
    ground (arith, typed-append k n d e h1, typed-append_all k n d es h2)

AreKnown-append :
    (k : String) (ids : List String) (es : List GraphEdge)
    → AreKnown ids es
    → AreKnown (ids ++ k ∷ []) es
AreKnown-append k ids es h =
    All-map
      (λ (e : GraphEdge) (b : IsKnown ids e). (
        ground (arith, b, contains-append e.source_id ids (k ∷ [])),
        ground (arith, b, contains-append e.target_id ids (k ∷ [])),
      ))
      es h

AreKnown-one :
    (ids : List String) (es : List GraphEdge) (e : GraphEdge)
    → AreKnown ids es
    → has_unknown_end ids e ≡ false
    → AreKnown ids (es ++ e ∷ [])
AreKnown-one ids es e h k = All-append _ es (e ∷ []) h ((ground arith, ground arith), tt)

-- What an accepted node says of the graph, and the graph that follows
add_node-eq-ok :
    (g g' : ClaimGraph) (n : GraphNode)
    → add_node g n ≡ ok g'
    → (contains n.node_id (keys g.nodes) ≡ false)
      × (record g { nodes = g.nodes ++ (n.node_id, n) ∷ [] } ≡ g')
unfolding add_node
add_node-eq-ok g g' n r =
    let (fresh, last) = >>-eq-ok (raise_if (contains n.node_id (keys g.nodes)) _) _ r in
    let new = raise_if-eq-ok _ _ fresh in
    (
      new,
      subst (λ d. record g { nodes = d } ≡ g') (assign_new n.node_id n g.nodes new)
          (ok-injective last),
    )

-- The same for an edge
record Added (g g' : ClaimGraph) (e : GraphEdge) : Type 0 where
  fresh : contains e.edge_id (keys g.edges) ≡ false
  known : has_unknown_end (keys g.nodes) e ≡ false
  meaning : any (λ (other : GraphEdge). meaning_of other == meaning_of e) (values g.edges) ≡ false
  typed : validate_edge_types g.nodes (values g.edges ++ e ∷ []) ≡ ok tt
  acyclic : assert_acyclic (keys g.nodes) (values g.edges ++ e ∷ []) ≡ ok tt
  result : record g { edges = g.edges ++ (e.edge_id, e) ∷ [] } ≡ g'

add_edge-eq-ok : (g g' : ClaimGraph) (e : GraphEdge) → add_edge g e ≡ ok g' → Added g g' e
unfolding add_edge
add_edge-eq-ok g g' e r =
    let (a, r1) = >>-eq-ok (raise_if (contains e.edge_id (keys g.edges)) _) _ r in
    let (b, r2) = >>-eq-ok (raise_if (has_unknown_end (keys g.nodes) e) _) _ r1 in
    let (c, r3) = >>-eq-ok (raise_if (any _ (values g.edges)) _) _ r2 in
    let (d, r4) = >>-eq-ok (validate_edge_types g.nodes _) _ r3 in
    let (f, last) = >>-eq-ok (assert_acyclic (keys g.nodes) _) _ r4 in
    let new = raise_if-eq-ok _ _ a in
    record {
      fresh = new;
      known = raise_if-eq-ok _ _ b;
      meaning = raise_if-eq-ok _ _ c;
      typed = d;
      acyclic = f;
      result =
          subst (λ x. record g { edges = x } ≡ g') (assign_new e.edge_id e g.edges new)
            (ok-injective last);
    }

add_node-IsGraph :
    (g g' : ClaimGraph) (n : GraphNode) → IsGraph g → add_node g n ≡ ok g' → IsGraph g'
add_node-IsGraph g g' n h r =
    let (new, result) = add_node-eq-ok g g' n r in
    let key = n.node_id in
    subst IsGraph result (record {
      node_keys =
          ap (map node_id_of) (values-append g.nodes key n)
          ∙ rw map-append (ap (λ ks. ks ++ key ∷ []) h.node_keys)
          ∙ sym (keys-append g.nodes key n);
      edge_keys = h.edge_keys;
      distinct_nodes =
          rw (keys-append g.nodes key n) (is_unique-append (keys g.nodes) key h.distinct_nodes new);
      distinct_edges = h.distinct_edges;
      distinct_meanings = h.distinct_meanings;
      known =
          rw (keys-append g.nodes key n)
            (AreKnown-append key (keys g.nodes) (values g.edges) h.known);
      typed = typed-append_all key n g.nodes (values g.edges) h.typed;
      acyclic = h.acyclic;
    })

add_edge-IsGraph :
    (g g' : ClaimGraph) (e : GraphEdge) → IsGraph g → add_edge g e ≡ ok g' → IsGraph g'
add_edge-IsGraph g g' e h r =
    let added = add_edge-eq-ok g g' e r in
    let key = e.edge_id in
    let all_edges = values-append g.edges key e in
    subst IsGraph added.result (record {
      node_keys = h.node_keys;
      edge_keys =
          ap (map edge_id_of) all_edges
          ∙ rw map-append (ap (λ ks. ks ++ key ∷ []) h.edge_keys)
          ∙ sym (keys-append g.edges key e);
      distinct_nodes = h.distinct_nodes;
      distinct_edges =
          rw (keys-append g.edges key e)
            (is_unique-append (keys g.edges) key h.distinct_edges added.fresh);
      distinct_meanings =
          rw (all_edges, map-append)
            (is_unique-append (map meaning_of (values g.edges)) (meaning_of e) h.distinct_meanings
              (sym (contains-meaning e (values g.edges)) ∙ added.meaning));
      known = rw all_edges (AreKnown-one (keys g.nodes) (values g.edges) e h.known added.known);
      typed = rw all_edges added.typed;
      acyclic =
          rw all_edges (((assert_acyclic_iff (keys g.nodes) _ h.distinct_nodes).0 added.acyclic).1);
    })

-- Every graph that a caller can build is well formed: the dictionaries are keyed by the identifiers
-- of their values, identifiers and meanings are not repeated, all edges join known nodes of the types that their own
-- types allow, and there is no cycle.
pub Grown-IsGraph : {g : ClaimGraph} → Grown g → IsGraph g
Grown-IsGraph (from_new is_empty) = subst IsGraph (sym is_empty) empty-IsGraph
Grown-IsGraph (with_node {g = g} {g' = g'} n before r) =
    add_node-IsGraph g g' n (Grown-IsGraph before) r
Grown-IsGraph (with_edge {g = g} {g' = g'} e before r) =
    add_edge-IsGraph g g' e (Grown-IsGraph before) r
