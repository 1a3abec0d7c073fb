-- ===== src/Evaluation/Scoring/Hits.antt =====
-- The expected findings that `score_case` (src/quantforge/evaluation/scoring.py) detects are of kinds that
-- were reported.
use quantforge_ai.Common.{
  suc, ◌+◌, ◌≡◌, ◌∙◌, refl, sym, ap, inl, inr, Bool, true, not, ◌&&◌, ◌||◌, List, [], ◌∷◌, map,
  if◌then◌else◌, ◌==◌, ==→≡, ≡→==, any, contains, is_some, is_unique, is_subset, All, length,
  Bool-cases, string_eq, arith,
}
use quantforge_ai.Evaluation.Kinds.{
  FindingClassification, FindingClassification-discrete, classification_eq, DefectKind,
  defect_kind_eq,
}
use quantforge_ai.Evaluation.Benchmark.{FindingExpectation, ScoringRubric}
use quantforge_ai.Evaluation.Response.{EvaluationFinding}
use quantforge_ai.Evaluation.Scoring.{
  filter, first, Tally, int, has_kind, has_class, tally_one, tally_all, is_supported,
}

any-first :
    {A : Type 0} (p q : A → Bool) (xs : List A)
    → is_some (first p (filter q xs)) ≡ any (λ x. q x && p x) xs
unfolding first filter any
any-first p q [] = refl
any-first p q (x ∷ xs) = ground (arith, any-first p q xs)

-- A classification that counts as a supported finding
abbrev pub counts : FindingClassification → Bool
counts c =
    not (
      c == FindingClassification.unsupported_speculation
      || c == FindingClassification.clean_control)

abbrev pub kinds : List EvaluationFinding → List DefectKind
kinds = map (λ (f : EvaluationFinding). f.defect_kind)

contains-kinds :
    (k : DefectKind) (c : FindingClassification) (findings : List EvaluationFinding)
    → counts c ≡ true
    → any (λ f. has_kind k f && has_class c f) findings ≡ true
    → contains k (kinds (filter is_supported findings)) ≡ true
unfolding any contains filter
contains-kinds k c [] supported h = cc
contains-kinds k c (f ∷ fs) supported h = elim (Bool-cases (has_kind k f && has_class c f)) [
  | inl both ↦
      let same_kind = ==→≡ f.defect_kind k (ground arith) in
      let same_class = ==→≡ f.classification c (ground arith) in
      let supported_f : is_supported f ≡ true = rw same_class supported in
      ground (arith, supported_f, ≡→== k f.defect_kind (sym same_kind))
  | inr other ↦
      let later : contains k (kinds (filter is_supported fs)) ≡ true =
        contains-kinds k c fs supported (ground (arith, h, other)) in
      ground (arith, later)
]

-- The expected finding was detected, exactly or as a concern.
abbrev pub hit : List EvaluationFinding → FindingExpectation → Bool
hit findings e =
    is_some (first (has_class e.classification) (filter (has_kind e.defect_kind) findings))
    || is_some (
        first (has_class FindingClassification.reasonable_concern)
          (filter (has_kind e.defect_kind) findings))

unfoldable pub hits : List EvaluationFinding → List FindingExpectation → List DefectKind
hits findings [] = []
hits findings (e ∷ es) =
    if hit findings e then e.defect_kind ∷ hits findings es else hits findings es

hits_one :
    (rubric : ScoringRubric) (findings : List EvaluationFinding) (e : FindingExpectation)
    (t : Tally)
    → (tally_one rubric findings e t).exact + (tally_one rubric findings e t).partial
      ≡ t.exact + t.partial + int (hit findings e)
unfolding tally_one
hits_one rubric findings e t = ground arith

pub length-hits :
    (rubric : ScoringRubric) (findings : List EvaluationFinding) (es : List FindingExpectation)
    (t : Tally)
    → (tally_all rubric findings es t).exact + (tally_all rubric findings es t).partial
      ≡ t.exact + t.partial + length (hits findings es)
unfolding tally_all hits
length-hits rubric findings [] t = omega arith
length-hits rubric findings (e ∷ es) t = ground (
  arith,
  length-hits rubric findings es (tally_one rubric findings e t),
  hits_one rubric findings e t,
)

abbrev pub expected_kinds : List FindingExpectation → List DefectKind
expected_kinds = map (λ (e : FindingExpectation). e.defect_kind)

contains-hits :
    (k : DefectKind) (findings : List EvaluationFinding) (es : List FindingExpectation)
    → contains k (hits findings es) ≡ true
    → contains k (expected_kinds es) ≡ true
unfolding hits contains
contains-hits k findings [] h = cc
contains-hits k findings (e ∷ es) h = ground (arith, contains-hits k findings es)

pub is_unique-hits :
    (findings : List EvaluationFinding) (es : List FindingExpectation)
    → is_unique (expected_kinds es) ≡ true
    → is_unique (hits findings es) ≡ true
unfolding hits is_unique
is_unique-hits findings [] u = refl
is_unique-hits findings (e ∷ es) u =
    ground (arith, is_unique-hits findings es, contains-hits e.defect_kind findings es)

abbrev pub AllCount : List FindingExpectation → Type 0
AllCount = All (λ (e : FindingExpectation). counts e.classification ≡ true)

concern_counts : counts FindingClassification.reasonable_concern ≡ true
unfolding ◌==◌ FindingClassification-discrete
concern_counts = refl

hit_reported :
    (findings : List EvaluationFinding) (e : FindingExpectation)
    → counts e.classification ≡ true
    → hit findings e ≡ true
    → contains e.defect_kind (kinds (filter is_supported findings)) ≡ true
hit_reported findings e supported h =
    elim (Bool-cases
      (is_some (first (has_class e.classification) (filter (has_kind e.defect_kind) findings)))) [
        | inl exact ↦
            contains-kinds e.defect_kind e.classification findings supported (
              sym (any-first (has_class e.classification) (has_kind e.defect_kind) findings)
              ∙ exact)
        | inr other ↦
            contains-kinds e.defect_kind FindingClassification.reasonable_concern findings
              concern_counts
              (sym (
                  any-first (has_class FindingClassification.reasonable_concern)
                    (has_kind e.defect_kind) findings)
                ∙ ground (arith, h, other))
      ]

pub is_subset-hits :
    (findings : List EvaluationFinding) (es : List FindingExpectation)
    → AllCount es
    → is_subset (hits findings es) (kinds (filter is_supported findings)) ≡ true
unfolding hits is_subset
is_subset-hits findings [] h = refl
is_subset-hits findings (e ∷ es) h =
    ground (arith, is_subset-hits findings es h.1, hit_reported findings e h.0)

pub length-kinds : (fs : List EvaluationFinding) → length (kinds fs) ≡ length fs
length-kinds [] = refl
length-kinds (f ∷ fs) = ap suc (length-kinds fs)
