-- ===== src/Evaluation/Metrics/Rates.antt =====
-- Sums and counts over one list of cases with their results and scores, for the metrics of
-- src/quantforge/evaluation/scoring.py.
use quantforge_ai.Common.{
  ℕ, ◌≤◌, ◌≡◌, ◌∙◌, refl, ap, Result, ◌>>=◌, Bool, true, false, List, [], ◌∷◌, map, All, any, ok,
  ≡→==, arith,
}
use quantforge_ai.Common.Counting.{count}
use quantforge_ai.Evaluation.Score.{DecimalContext, quotient, ratio_is_exact, option_decimal_eq}
use quantforge_ai.Evaluation.Metrics.{metric, ratio, total}

-- A ratio that does not exceed one passes the validator of its value.
pub ratio-eq-ok : (d : DecimalContext) (n m : ℕ) → n ≤ m → ratio d n m ≡ ok (metric d n m)
unfolding ratio ratio_is_exact
ratio-eq-ok d n m h = ground (arith, h, ≡→== (quotient d n m) (quotient d n m) refl)

module _ {X A B : Type 0} (p : X → A) (q : X → B) where
  pub total-le :
      (f : A → ℕ) (g : B → ℕ) (xs : List X)
      → All (λ x. f (p x) ≤ g (q x)) xs
      → total f (map p xs) ≤ total g (map q xs)
  unfolding total
  total-le f g [] h = omega arith
  total-le f g (x ∷ xs) (here, there) = omega (arith, here, total-le f g xs there)

  pub count-le_of_map :
      (f : A → Bool) (g : B → Bool) (xs : List X)
      → All (λ x. f (p x) ≡ true → g (q x) ≡ true) xs
      → count f (map p xs) ≤ count g (map q xs)
  unfolding count
  count-le_of_map f g [] h = omega arith
  count-le_of_map f g (x ∷ xs) (here, there) = ground (arith, here, count-le_of_map f g xs there)

  pub none_of_map :
      (f : A → Bool) (xs : List X) → All (λ x. f (p x) ≡ false) xs → any f (map p xs) ≡ false
  unfolding any
  none_of_map f [] h = refl
  none_of_map f (x ∷ xs) (here, there) = ground (arith, here, none_of_map f xs there)

  pub same_maps :
      {C : Type 0} (f : A → C) (g : B → C) (xs : List X)
      → All (λ x. g (q x) ≡ f (p x)) xs
      → map g (map q xs) ≡ map f (map p xs)
  same_maps f g [] h = refl
  same_maps f g (x ∷ xs) (here, there) = (λ i. here i ∷ same_maps f g xs there i)

-- A statement that returns, before statements that return what satisfies `P`
pub bind_returns :
    {Value Next : Type 0} (P : Next → Type 0) (first : Result Value) (rest : Value → Result Next)
    (v : Value)
    → first ≡ ok v
    → (n : Next) × (rest v ≡ ok n) × P n
    → (n : Next) × ((first >>= rest) ≡ ok n) × P n
bind_returns P first rest v e (n, r, h) = (n, ap (λ (f : Result _). f >>= rest) e ∙ r, h)
