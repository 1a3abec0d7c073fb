-- ===== src/Evidence/Acyclic/Visits.antt =====
-- The `while` loop of `_assert_acyclic` (src/quantforge/evidence/graph.py): what stays true while nodes are
-- visited.
use quantforge_ai.Common.{
  ℕ, suc, ◌+◌, ◌-◌, ◌≡◌, refl, ap, subst, inl, inr, Bool, true, false, not, ◌&&◌, ◌||◌, String,
  List, [], ◌∷◌, if◌then◌else◌, eqb, length, Bool-cases, ◌==◌, ==→≡, ≡→==, contains, is_unique,
  string_eq, arith,
}
use quantforge_ai.Common.Counting.{count, count-agree, count-flip, count_zero-none}
use quantforge_ai.Domain.Sorted.{sorted, contains-sorted, is_unique-sorted}
use quantforge_ai.Evidence.Acyclic.{Arcs, Sweep, sources, release, release_all, visit, begin}
use quantforge_ai.Evidence.Acyclic.Degrees.{IsCounted, put_same, put_other}
use quantforge_ai.Evidence.Acyclic.Stacks.{
  contains-reversed, is_unique-reversed, contains-sources, is_unique-sources,
}

abbrev bit : Bool → ℕ
bit b = if b then 1 else 0

module _ (ids : List String) (unique : is_unique ids ≡ true) (a : Arcs)
    (counted : IsCounted ids a) where
  -- The number of predecessors of `v` that are not visited
  unfoldable pub left : List String → String → ℕ
  left done v = count (λ u. contains v (a.successors u) && not (contains u done)) ids

  -- Every node was visited after all its predecessors. The last visited comes first.
  abbrev pub IsOrdered : List String → Type 0
  IsOrdered [] = Unit
  IsOrdered (n ∷ done) =
      ((u : String)
        → contains u ids ≡ true
        → contains n (a.successors u) ≡ true
        → contains u done ≡ true)
      × IsOrdered done

  -- The state with the visited nodes, while the edges from the last one to `pending` are still counted
  pub record Holds (done : List String) (pending : List String) (s : Sweep) : Type 0 where
    pub size : s.visited ≡ length done
    pub once : is_unique done ≡ true
    pub distinct : is_unique s.ready ≡ true
    pub apart : (v : String) → contains v s.ready ≡ true → contains v done ≡ false
    pub inside :
        (v : String) → (contains v done || contains v s.ready) ≡ true → contains v ids ≡ true
    pub degree : (v : String) → s.indegree v ≡ left done v + bit (contains v pending)
    pub at_zero :
        (v : String)
        → contains v ids ≡ true
        → eqb (s.indegree v) 0 ≡ (contains v done || contains v s.ready)
    pub ordered : IsOrdered done

  pub begin-Holds : Holds [] [] (begin ids a)
  unfolding begin left contains is_unique
  begin-Holds = record {
    size = refl;
    once = refl;
    distinct = is_unique-reversed _ (is_unique-sorted _ (is_unique-sources a.indegree ids unique));
    apart = λ v _. refl;
    inside = λ v m. ground (
      arith,
      m,
      contains-reversed v (sorted (sources a.indegree ids)),
      contains-sorted v (sources a.indegree ids),
      contains-sources a.indegree v ids,
    );
    degree = λ v. ground (
      arith,
      counted.degree v,
      count-agree (λ u. contains v (a.successors u)) (λ u. contains v (a.successors u) && true) ids
          (λ x _. ground arith),
    );
    at_zero = λ v k. ground (
      arith,
      k,
      contains-reversed v (sorted (sources a.indegree ids)),
      contains-sorted v (sources a.indegree ids),
      contains-sources a.indegree v ids,
    );
    ordered = tt;
  }

  -- Visiting a node takes its edges from the count.
  left-cons :
      (n : String) (done : List String) (v : String)
      → contains n ids ≡ true
      → contains n done ≡ false
      → left done v ≡ left (n ∷ done) v + bit (contains v (a.successors n))
  unfolding left contains
  left-cons n done v known new = elim (Bool-cases (contains v (a.successors n))) [
    | inl arc ↦ ground (
      arith,
      arc,
      count-flip (λ u. contains v (a.successors u) && not (contains u done))
          (λ u. contains v (a.successors u) && not ((u == n) || contains u done)) n ids unique known
          (ground arith) (ground (arith, ≡→== n n refl)) (λ x other. ground (arith, other)),
    )
    | inr no_arc ↦ ground (
      arith,
      no_arc,
      count-agree (λ u. contains v (a.successors u) && not (contains u done))
          (λ u. contains v (a.successors u) && not ((u == n) || contains u done)) ids
          (λ x _. ground (arith, no_arc, ==→≡ x n)),
    )
  ]

  left_zero :
      (n : String) (done : List String) (u : String)
      → left done n ≡ 0
      → contains u ids ≡ true
      → contains n (a.successors u) ≡ true
      → contains u done ≡ true
  unfolding left
  left_zero n done u zero_left known arc = ground (
    arith,
    arc,
    count_zero-none (λ x. contains n (a.successors x) && not (contains x done)) ids u zero_left
        known,
  )

  module _ (n : String) (rest done : List String) (s : Sweep) (e : s.ready ≡ n ∷ rest)
      (h : Holds done [] s) where
    in_ready : (v : String) → contains v s.ready ≡ ((v == n) || contains v rest)
    unfolding contains
    in_ready v = ap (contains v) e

    top_known : contains n ids ≡ true
    top_known = ground (arith, h.inside n, in_ready n, ≡→== n n refl)

    top_new : contains n done ≡ false
    top_new = ground (arith, h.apart n, in_ready n, ≡→== n n refl)

    top_degree : left done n ≡ 0
    unfolding contains
    top_degree = ground (arith, h.at_zero n top_known, h.degree n, in_ready n, ≡→== n n refl)

    rest_distinct : (contains n rest ≡ false) × (is_unique rest ≡ true)
    unfolding is_unique
    rest_distinct =
        let u = subst (λ r. is_unique r ≡ true) e h.distinct in (ground arith, ground arith)

    pop-Holds :
        Holds
          (n ∷ done)
          (sorted (a.successors n))
          (record s { ready = rest; visited = suc s.visited })
    unfolding contains is_unique
    pop-Holds = record {
      size = ap suc h.size;
      once = ground (arith, top_new, h.once);
      distinct = rest_distinct.1;
      apart = λ v m. ground (arith, m, in_ready v, h.apart v, rest_distinct.0, ==→≡ v n);
      inside = λ v m. ground (arith, m, in_ready v, h.inside v);
      degree = λ v. ground (
        arith,
        h.degree v,
        left-cons n done v top_known top_new,
        contains-sorted v (a.successors n),
      );
      at_zero = λ v k. ground (arith, h.at_zero v k, in_ready v);
      ordered = (λ u k arc. left_zero n done u top_degree k arc, h.ordered);
    }

  release-Holds :
      (v : String) (pending done : List String) (s : Sweep)
      → contains v ids ≡ true
      → is_unique (v ∷ pending) ≡ true
      → Holds done (v ∷ pending) s
      → Holds done pending (release s v)
  unfolding release contains is_unique
  release-Holds v pending done s known u h =
      let degree_v : s.indegree v ≡ suc (left done v) = ground (arith, h.degree v, ≡→== v v refl) in
      record {
        size = h.size;
        once = h.once;
        distinct = ground (arith, h.distinct, h.at_zero v known, degree_v);
        apart = λ w m. ground (arith, m, h.apart w, h.at_zero v known, degree_v, ==→≡ w v);
        inside = λ w m. ground (arith, m, h.inside w, known, ==→≡ w v);
        degree = λ w. ground (
          arith,
          put_same v (s.indegree v - 1) s.indegree w,
          put_other v (s.indegree v - 1) s.indegree w,
          h.degree w,
          degree_v,
          ==→≡ w v,
          Bool-cases (w == v),
        );
        at_zero = λ w k. ground (
          arith,
          k,
          put_same v (s.indegree v - 1) s.indegree w,
          put_other v (s.indegree v - 1) s.indegree w,
          h.at_zero w k,
          degree_v,
          ==→≡ w v,
          Bool-cases (w == v),
        );
        ordered = h.ordered;
      }

  release_all-Holds :
      (pending done : List String) (s : Sweep)
      → ((v : String) → contains v pending ≡ true → contains v ids ≡ true)
      → is_unique pending ≡ true
      → Holds done pending s
      → Holds done [] (release_all s pending)
  unfolding release_all is_unique contains
  release_all-Holds [] done s k u h = h
  release_all-Holds (v ∷ pending) done s k u h =
      release_all-Holds pending done (release s v) (λ w m. k w (ground arith)) (ground arith)
        (release-Holds v pending done s (k v (ground (arith, ≡→== v v refl))) u h)

  -- A visit keeps the invariant and adds the node.
  pub visit-Holds :
      (n : String) (rest done : List String) (s : Sweep)
      → s.ready ≡ n ∷ rest
      → Holds done [] s
      → Holds (n ∷ done) [] (visit a.successors s n rest)
  unfolding visit
  visit-Holds n rest done s e h =
      release_all-Holds (sorted (a.successors n)) (n ∷ done) _
        (λ v m. counted.to_known n v (ground (arith, m, contains-sorted v (a.successors n))))
        (is_unique-sorted _ (counted.once n)) (pop-Holds n rest done s e h)
