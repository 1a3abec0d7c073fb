-- ===== src/Evidence/Acyclic/Correct.antt =====
-- `_assert_acyclic` of src/quantforge/evidence/graph.py refuses just the graphs with a cycle.
use quantforge_ai.Common.{
  ℕ, zero, suc, ◌+◌, ◌<◌, ◌≡◌, ◌↔◌, refl, sym, ap, subst, inl, inr, Bool, true, false, not, ◌&&◌,
  String, List, [], ◌∷◌, ok, raise_if-eq-ok, >>=-eq-ok, eqb, length, Bool-cases, ◌==◌, ==→≡,
  contains, is_unique, string_eq, arith,
}
use quantforge_ai.Common.Counting.{contains-cons_self, count-some, is_subset_lem, length_of_subset}
use quantforge_ai.Evidence.Nodes.{GraphEdge}
use quantforge_ai.Evidence.Acyclic.{Arcs, Sweep, no_arcs, count_edges, sweep_all, assert_acyclic}
use quantforge_ai.Evidence.Acyclic.Degrees.{
  IsCounted, AreKnown, count_edges-IsCounted, count_edges-total,
}
use quantforge_ai.Evidence.Acyclic.Visits.{left, IsOrdered, Holds}
use quantforge_ai.Evidence.Acyclic.Rounds.{size-le, sweep_all-Holds}
use quantforge_ai.Evidence.Acyclic.Paths.{Trail, one, more, IsAcyclic, HasNoCycle}

abbrev arc_of : Arcs → String → String → Bool
arc_of a u v = contains v (a.successors u)

module _ (ids : List String) (unique : is_unique ids ≡ true) (a : Arcs)
    (counted : IsCounted ids a) where
  abbrev Ordered : List String → Type 0
  Ordered = IsOrdered ids unique a counted

  -- The predecessors of visited nodes are visited.
  before :
      (done : List String) (u v : String)
      → Ordered done
      → contains v done ≡ true
      → contains v (a.successors u) ≡ true
      → contains u done ≡ true
  unfolding contains
  before [] u v o m arc = cc
  before (n ∷ done) u v (o, os) m arc = elim (Bool-cases (v == n)) [
    | inl same ↦ ground (
      arith,
      o u (counted.from_known u v arc)
          (subst (λ x. contains x (a.successors u) ≡ true) (==→≡ v n same) arc),
    )
    | inr other ↦ ground (arith, before done u v os (ground (arith, m, other)) arc)
  ]

  before_last :
      (n : String) (done : List String) (u : String)
      → Ordered (n ∷ done)
      → Trail (arc_of a) u n
      → contains u done ≡ true
  before_last n done u (o, os) (one arc) = o u (counted.from_known u n arc) arc
  before_last n done u (o, os) (more {u = _} {v = w} {w = _} arc path) =
      before done u w os (before_last n done w (o, os) path) arc

  no_cycle :
      (done : List String) (v : String)
      → Ordered done
      → is_unique done ≡ true
      → contains v done ≡ true
      → ¬ Trail (arc_of a) v v
  unfolding contains is_unique
  no_cycle [] v o u m path = cc
  no_cycle (n ∷ done) v o u m path = elim (Bool-cases (v == n)) [
    | inl same ↦
        let again =
          before_last n done n o (subst (λ x. Trail (arc_of a) x x) (==→≡ v n same) path) in
        ground (arith, again, u)
    | inr other ↦ no_cycle done v o.1 (ground arith) (ground (arith, m, other)) path
  ]

  module _ (done : List String) (s : Sweep) (h : Holds ids unique a counted done [] s)
      (ends : s.ready ≡ []) where
    ready_empty : (v : String) → contains v s.ready ≡ false
    unfolding contains
    ready_empty v = ap (contains v) ends

    -- A node that is not visited has a predecessor that is not visited.
    stuck :
        (v : String)
        → contains v ids ≡ true
        → contains v done ≡ false
        → (u : String) × (contains u ids ≡ true)
          × (contains u done ≡ false)
          × (contains v (a.successors u) ≡ true)
    unfolding left contains
    stuck v known new =
        let (u, u_known, both) =
          count-some (λ u. contains v (a.successors u) && not (contains u done)) ids
            (ground (arith, h.at_zero v known, h.degree v, ready_empty v, new)) in
        (u, u_known, ground arith, ground arith)

    -- Nodes that are not visited, where the first leads to all the others
    record IsWalk (head : String) (rest : List String) : Type 0 where
      distinct : is_unique (head ∷ rest) ≡ true
      inside : (v : String) → contains v (head ∷ rest) ≡ true → contains v ids ≡ true
      new : contains head done ≡ false
      leads : (v : String) → contains v rest ≡ true → Trail (arc_of a) head v

    -- A predecessor among the nodes of the walk closes a cycle.
    closed :
        (head : String) (rest : List String)
        → IsWalk head rest
        → (u : String) → contains head (a.successors u) ≡ true
        → contains u (head ∷ rest) ≡ true
        → Trail (arc_of a) u u
    unfolding contains
    closed head rest w u arc back = elim (Bool-cases (u == head)) [
      | inl same ↦
          one (subst (λ x. contains x (a.successors u) ≡ true) (sym (==→≡ u head same)) arc)
      | inr other ↦ more arc (w.leads u (ground (arith, back, other)))
    ]

    -- Any other one makes it longer.
    extend :
        (head : String) (rest : List String)
        → IsWalk head rest
        → (u : String) → contains u ids ≡ true
        → contains u done ≡ false
        → contains head (a.successors u) ≡ true
        → contains u (head ∷ rest) ≡ false
        → IsWalk u (head ∷ rest)
    unfolding contains is_unique
    extend head rest w u known fresh arc new = record {
      distinct = ground (arith, w.distinct, new);
      inside = λ v m. ground (arith, w.inside v, m, known, ==→≡ v u);
      new = fresh;
      leads = λ v m. elim (Bool-cases (v == head)) [
        | inl same ↦
            one (subst (λ x. contains x (a.successors u) ≡ true) (sym (==→≡ v head same)) arc)
        | inr other ↦ more arc (w.leads v (ground (arith, m, other)))
      ];
    }

    walk :
        (fuel : ℕ) (head : String) (rest : List String)
        → length ids < suc (length rest) + fuel
        → IsWalk head rest
        → ¬ IsAcyclic (arc_of a)
    walk zero head rest enough w acyclic =
        let short =
          length_of_subset (head ∷ rest) ids w.distinct
            (is_subset_lem (head ∷ rest) ids w.inside) in
        omega (arith, short, enough)
    walk (suc fuel) head rest enough w acyclic =
        let (u, known, fresh, arc) =
          stuck head (w.inside head (contains-cons_self head rest)) w.new in
        elim (Bool-cases (contains u (head ∷ rest))) [
          | inl back ↦ acyclic u (closed head rest w u arc back)
          | inr new ↦
              walk fuel u (head ∷ rest) (omega arith) (extend head rest w u known fresh arc new)
                acyclic
        ]

    complete : IsAcyclic (arc_of a) → (v : String) → contains v ids ≡ true → contains v done ≡ true
    unfolding contains is_unique
    complete acyclic v known = elim (Bool-cases (contains v done)) [
      | inl m ↦ m
      | inr new ↦
          let start : IsWalk v [] = record {
            distinct = refl;
            inside = λ x m. ground (arith, m, known, ==→≡ x v);
            new = new;
            leads = λ x m. cc;
          } in
          absurd (walk (length ids) v [] (omega arith) start acyclic)
    ]

  Trail-start : (u v : String) → Trail (arc_of a) u v → contains u ids ≡ true
  Trail-start u v (one arc) = counted.from_known u v arc
  Trail-start u v (more {u = _} {v = w} {w = _} arc path) = counted.from_known u w arc

  visited_all :
      (done : List String) (s : Sweep) (v : String)
      → Holds ids unique a counted done [] s
      → length done ≡ length ids
      → contains v ids ≡ true
      → contains v done ≡ true
  unfolding contains is_unique
  visited_all done s v h same known = elim (Bool-cases (contains v done)) [
    | inl m ↦ m
    | inr new ↦
        let short =
          length_of_subset (v ∷ done) ids (ground (arith, h.once, new)) (
            is_subset_lem (v ∷ done) ids (λ x m. ground (arith, m, known, h.inside x, ==→≡ x v))) in
        ground (arith, short, same)
  ]

  -- All nodes are visited exactly if no path returns to its start.
  all_visited : (eqb (sweep_all ids a).visited (length ids) ≡ true) ↔ IsAcyclic (arc_of a)
  all_visited =
      let (done, h, ends) = sweep_all-Holds ids unique a counted in
      (
        λ all_seen v path.
            no_cycle done v h.ordered h.once
              (visited_all done _ v h (ground (arith, all_seen, h.size)) (Trail-start v v path))
              path,
        λ acyclic.
            let long =
              length_of_subset ids done unique
                (is_subset_lem ids done (complete done _ h ends acyclic)) in
            ground (arith, h.size, long, size-le ids unique a counted done _ h),
      )

-- `_assert_acyclic` returns exactly if the ends of all edges are nodes and no path along the edges
-- returns to the node where it starts, provided that the nodes are listed once each.
pub assert_acyclic_iff :
    (node_ids : List String) (edges : List GraphEdge)
    → is_unique node_ids ≡ true
    → (assert_acyclic node_ids edges ≡ ok tt) ↔ (AreKnown node_ids edges × HasNoCycle edges)
unfolding assert_acyclic
assert_acyclic_iff node_ids edges unique = (
  λ r.
      let (a, counts, checks) = >>=-eq-ok (count_edges node_ids edges no_arcs) _ r in
      let (counted, known, arcs) = count_edges-IsCounted node_ids edges a unique counts in
      (
        known,
        subst IsAcyclic (λ i u v. arcs u v i)
            ((all_visited node_ids unique a counted).0 (ground (arith, raise_if-eq-ok _ _ checks))),
      ),
  λ (known, acyclic).
      let (a, counts) = count_edges-total node_ids unique edges no_arcs known in
      let (counted, _, arcs) = count_edges-IsCounted node_ids edges a unique counts in
      let all_seen =
        (all_visited node_ids unique a counted).1
          (subst IsAcyclic (λ i u v. sym (arcs u v) i) acyclic) in
      ground (arith, counts, all_seen),
)
