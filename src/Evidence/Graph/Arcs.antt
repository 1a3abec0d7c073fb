-- ===== src/Evidence/Graph/Arcs.antt =====
-- The dictionary `reverse` that `validate_final_claim_traceability` of src/quantforge/evidence/graph.py
-- builds from the edges.
use quantforge_ai.Common.{
  ℕ, ◌+◌, ◌≤◌, ◌≡◌, refl, Bool, false, not, ◌&&◌, ◌||◌, String, List, [], ◌∷◌, if◌then◌else◌, ◌==◌,
  ==→≡, ≡→==, any, contains, length, string_eq, arith,
}
use quantforge_ai.Common.Counting.{count, count-le, count-split}
use quantforge_ai.Evidence.Nodes.{EdgeType, GraphEdge}
use quantforge_ai.Evidence.Acyclic.{put}
use quantforge_ai.Evidence.Graph.Trace.{add_value, reverse_edge, reverse_edges, no_values}

-- The search goes from a claim to the evidence that an edge brings to it, and to what it is derived from.
abbrev pub leaves : EdgeType → GraphEdge → String → Bool
leaves EdgeType.derived_from e u = e.source_id == u
leaves EdgeType.amends e u = false
leaves _ e u = e.target_id == u

abbrev pub reaches : EdgeType → GraphEdge → String → Bool
reaches EdgeType.derived_from e v = e.target_id == v
reaches _ e v = e.source_id == v

-- Some edge takes the search from the first node to the second.
unfoldable pub traces : List GraphEdge → String → String → Bool
traces es u v = any (λ (e : GraphEdge). leaves e.edge_type e u && reaches e.edge_type e v) es

contains-add_value :
    (key value u v : String) (d : String → List String)
    → contains v (add_value key value d u) ≡ (((key == u) && (value == v)) || contains v (d u))
unfolding add_value put contains
contains-add_value key value u v d = ground (
  arith,
  ==→≡ u key,
  ≡→== u key,
  ==→≡ key u,
  ≡→== key u,
  ==→≡ v value,
  ≡→== v value,
  ==→≡ value v,
  ≡→== value v,
)

length-add_value :
    (key value u : String) (d : String → List String)
    → length (add_value key value d u) ≤ length (d u) + (if key == u then 1 else 0)
unfolding add_value put
length-add_value key value u d = ground (arith, ==→≡ u key, ≡→== u key, ==→≡ key u, ≡→== key u)

contains-reverse_edge :
    (e : GraphEdge) (t : EdgeType) (d : String → List String) (u v : String)
    → contains v (reverse_edge e t d u) ≡ ((leaves t e u && reaches t e v) || contains v (d u))
unfolding reverse_edge
contains-reverse_edge e EdgeType.supports d u v = contains-add_value e.target_id e.source_id u v d
contains-reverse_edge e EdgeType.contradicts d u v =
    contains-add_value e.target_id e.source_id u v d
contains-reverse_edge e EdgeType.qualifies d u v = contains-add_value e.target_id e.source_id u v d
contains-reverse_edge e EdgeType.derived_from d u v =
    contains-add_value e.source_id e.target_id u v d
contains-reverse_edge e EdgeType.amends d u v = refl

length-reverse_edge :
    (e : GraphEdge) (t : EdgeType) (d : String → List String) (u : String)
    → length (reverse_edge e t d u) ≤ length (d u) + (if leaves t e u then 1 else 0)
unfolding reverse_edge
length-reverse_edge e EdgeType.supports d u = length-add_value e.target_id e.source_id u d
length-reverse_edge e EdgeType.contradicts d u = length-add_value e.target_id e.source_id u d
length-reverse_edge e EdgeType.qualifies d u = length-add_value e.target_id e.source_id u d
length-reverse_edge e EdgeType.derived_from d u = length-add_value e.source_id e.target_id u d
length-reverse_edge e EdgeType.amends d u = omega arith

contains-reverse_edges :
    (es : List GraphEdge) (d : String → List String) (u v : String)
    → contains v (reverse_edges es d u) ≡ (traces es u v || contains v (d u))
unfolding reverse_edges traces any
contains-reverse_edges [] d u v = refl
contains-reverse_edges (e ∷ es) d u v = ground (
  arith,
  contains-reverse_edges es (reverse_edge e e.edge_type d) u v,
  contains-reverse_edge e e.edge_type d u v,
)

-- The number of edges that leave a node
unfoldable pub out : List GraphEdge → String → ℕ
out es u = count (λ (e : GraphEdge). leaves e.edge_type e u) es

length-reverse_edges :
    (es : List GraphEdge) (d : String → List String) (u : String)
    → length (reverse_edges es d u) ≤ length (d u) + out es u
unfolding reverse_edges out count
length-reverse_edges [] d u = omega arith
length-reverse_edges (e ∷ es) d u = ground (
  arith,
  length-reverse_edges es (reverse_edge e e.edge_type d) u,
  length-reverse_edge e e.edge_type d u,
)

pub contains-reverse :
    (es : List GraphEdge) (u v : String) → contains v (reverse_edges es no_values u) ≡ traces es u v
unfolding no_values contains
contains-reverse es u v = ground (arith, contains-reverse_edges es no_values u v)

pub length-reverse :
    (es : List GraphEdge) (u : String) → length (reverse_edges es no_values u) ≤ out es u
unfolding no_values
length-reverse es u = omega (arith, length-reverse_edges es no_values u)

abbrev is_open : List String → EdgeType → GraphEdge → Bool
is_open visited EdgeType.derived_from e = not (contains e.source_id visited)
is_open visited EdgeType.amends e = false
is_open visited _ e = not (contains e.target_id visited)

-- The number of edges that the search has not followed
unfoldable pub unused : List GraphEdge → List String → ℕ
unused es visited = count (λ (e : GraphEdge). is_open visited e.edge_type e) es

is_open-cons :
    (n : String) (visited : List String) (t : EdgeType) (e : GraphEdge)
    → contains n visited ≡ false
    → (is_open visited t e ≡ (is_open (n ∷ visited) t e || leaves t e n))
      × ((is_open (n ∷ visited) t e && leaves t e n) ≡ false)
unfolding contains
is_open-cons n visited EdgeType.supports e new =
    (ground (arith, new, ==→≡ e.target_id n), ground (arith))
is_open-cons n visited EdgeType.contradicts e new =
    (ground (arith, new, ==→≡ e.target_id n), ground (arith))
is_open-cons n visited EdgeType.qualifies e new =
    (ground (arith, new, ==→≡ e.target_id n), ground (arith))
is_open-cons n visited EdgeType.derived_from e new =
    (ground (arith, new, ==→≡ e.source_id n), ground (arith))
is_open-cons n visited EdgeType.amends e new = (refl, refl)

-- Following the edges of a node uses them.
pub unused-cons :
    (es : List GraphEdge) (n : String) (visited : List String)
    → contains n visited ≡ false
    → unused es visited ≡ unused es (n ∷ visited) + out es n
unfolding unused out
unused-cons es n visited new =
    count-split _ _ _ es (λ (e : GraphEdge). (is_open-cons n visited e.edge_type e new).0)
      (λ (e : GraphEdge). (is_open-cons n visited e.edge_type e new).1)

pub unused-le : (es : List GraphEdge) (visited : List String) → unused es visited ≤ length es
unfolding unused
unused-le es visited = count-le _ es
