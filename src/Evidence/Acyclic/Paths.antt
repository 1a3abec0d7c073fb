-- ===== src/Evidence/Acyclic/Paths.antt =====
-- Paths along the edges of a claim graph, of which src/quantforge/evidence/graph.py tests that none returns
-- to its start.
use quantforge_ai.Common.{Bool, true, ◌&&◌, ◌≡◌, String, List, [], ◌==◌, any, string_eq}
use quantforge_ai.Evidence.Nodes.{GraphEdge}

-- Some edge leads from the first node to the second.
unfoldable pub has_arc : List GraphEdge → String → String → Bool
has_arc edges u v = any (λ (e : GraphEdge). e.source_id == u && e.target_id == v) edges

-- The relation of the arcs of a function, and of several in a row
pub data Trail (arc : String → String → Bool) : String → String → Type 0 where
  one : {u v : String} → arc u v ≡ true → Trail arc u v
  more : {u v w : String} → arc u v ≡ true → Trail arc v w → Trail arc u w

abbrev pub IsAcyclic : (String → String → Bool) → Type 0
IsAcyclic arc = (v : String) → ¬ Trail arc v v

-- No edges of the graph lead from a node back to it.
abbrev pub HasNoCycle : List GraphEdge → Type 0
HasNoCycle edges = IsAcyclic (has_arc edges)

pub no_edges-HasNoCycle : HasNoCycle []
unfolding has_arc any
no_edges-HasNoCycle v (one arc) = cc
no_edges-HasNoCycle v (more {u = _} {v = w} {w = _} arc path) = cc
