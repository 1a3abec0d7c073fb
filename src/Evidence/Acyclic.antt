-- ===== src/Evidence/Acyclic.antt =====
-- `_assert_acyclic` of src/quantforge/evidence/graph.py: the nodes that no edge points to are
-- visited one by one and their edges are taken away. The dictionaries `successors` and `indegree`, whose
-- keys are the nodes from the start, are functions; a missing key is tested on the list of the nodes.
-- The list `ready` is a stack with its last element first.
pub mod Degrees
pub mod Stacks
pub mod Visits
pub mod Rounds
pub mod Paths
pub mod Correct
use quantforge_ai.Common.{
  ℕ, zero, suc, ◌-◌, Bool, not, ◌&&◌, ◌||◌, String, List, [], ◌∷◌, ◌++◌, value_error, key_error,
  Result, err, ok, raise_if, ◌>>=◌, if◌then◌else◌, ◌==◌, eqb, length, contains, string_eq,
}
use quantforge_ai.Domain.Sorted.{sorted}
use quantforge_ai.Evidence.Nodes.{GraphEdge}

-- `d[key] = value` on a dictionary that has the key
unfoldable pub put {ℓ} : {Value : Type ℓ} → String → Value → (String → Value) → String → Value
put key value d other = if other == key then value else d other

pub record Arcs : Type 0 where
  pub successors : String → List String
  pub indegree : String → ℕ

unfoldable pub no_arcs : Arcs
no_arcs = record { successors = λ _. []; indegree = λ _. 0 }

abbrev pub add_arc : Arcs → String → String → Arcs
add_arc a source target = record {
  successors = put source (target ∷ a.successors source) a.successors;
  indegree = put target (suc (a.indegree target)) a.indegree;
}

-- The body of the first loop. `indegree` is read after `successors` is written.
unfoldable pub count_edge : List String → GraphEdge → Arcs → Result Arcs
count_edge node_ids e a =
    if not (contains e.source_id node_ids)
    then err (key_error "")
    else (if contains e.target_id (a.successors e.source_id)
        then ok a
        else (if contains e.target_id node_ids
            then ok (add_arc a e.source_id e.target_id)
            else err (key_error "")))

unfoldable pub count_edges : List String → List GraphEdge → Arcs → Result Arcs
count_edges node_ids [] a = ok a
count_edges node_ids (e ∷ es) a = count_edge node_ids e a >>= count_edges node_ids es

-- The nodes of `node_ids` of which the degree is 0
unfoldable pub sources : (String → ℕ) → List String → List String
sources indegree [] = []
sources indegree (n ∷ ns) =
    if eqb (indegree n) 0 then n ∷ sources indegree ns else sources indegree ns

unfoldable pub reversed : List String → List String
reversed [] = []
reversed (n ∷ ns) = reversed ns ++ n ∷ []

pub record Sweep : Type 0 where
  pub ready : List String
  pub indegree : String → ℕ
  pub visited : ℕ

-- One successor: its degree becomes 0 if it was 1. (In Python a degree of 0 would become negative.)
unfoldable pub release : Sweep → String → Sweep
unfolding put
release s n = record s {
  ready = if eqb (s.indegree n) 1 then n ∷ s.ready else s.ready;
  indegree = put n (s.indegree n - 1) s.indegree;
}

unfoldable pub release_all : Sweep → List String → Sweep
release_all s [] = s
release_all s (n ∷ ns) = release_all (release s n) ns

-- The body of the `while` loop, for a stack that is not empty
unfoldable pub visit : (String → List String) → Sweep → String → List String → Sweep
unfolding release_all release sorted
visit successors s n rest =
    release_all (record s { ready = rest; visited = suc s.visited }) (sorted (successors n))

-- One round of the `while` loop. With an empty stack the loop has ended, and nothing changes.
unfoldable pub turn : (String → List String) → Sweep → List String → Sweep
unfolding visit
turn successors s [] = s
turn successors s (n ∷ rest) = visit successors s n rest

-- The `while` loop. Each node is visited once, so as much fuel as nodes is enough.
unfoldable pub sweep : ℕ → (String → List String) → Sweep → Sweep
unfolding turn
sweep zero successors s = s
sweep (suc fuel) successors s = sweep fuel successors (turn successors s s.ready)

unfoldable pub begin : List String → Arcs → Sweep
unfolding sources reversed sorted
begin node_ids a = record {
  ready = reversed (sorted (sources a.indegree node_ids));
  indegree = a.indegree;
  visited = 0;
}

-- The state in which the `while` loop ends
unfoldable pub sweep_all : List String → Arcs → Sweep
unfolding begin sweep
sweep_all node_ids a = sweep (length node_ids) a.successors (begin node_ids a)

unfoldable pub assert_acyclic : List String → List GraphEdge → Result (Unit {0})
unfolding count_edges count_edge no_arcs sweep_all
assert_acyclic node_ids edges = do
  a ← count_edges node_ids edges no_arcs
  raise_if (not (eqb (sweep_all node_ids a).visited (length node_ids)))
      (value_error "claim graph cycles are prohibited")
