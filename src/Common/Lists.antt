-- ===== src/Common/Lists.antt =====
-- Python's `any`, `all`, `in`, `len` and the sets that the program builds from sequences.
use Prim.Native.Nat.{ℕ, zero, suc, ◌+◌}
use mathlib.Core.Path.{◌≡◌, refl}
use mathlib.Core.Logic.{◌⊎◌, inl, inr}
use mathlib.Core.Bool.{Bool, true, false, not, ◌&&◌, ◌||◌}
use mathlib.Core.Option.{Option, none, some}
use mathlib.Core.List.{List, [], ◌∷◌, ◌++◌}
use native.Mathlib.Omega.{arith}
use quantforge_ai.Common.Tests.{Eq, ◌==◌, ==→≡, ≡→==, ltb}

module _ {ℓ} {A : Type ℓ} where
  abbrev pub length : List A → ℕ
  length [] = 0
  length (x ∷ xs) = suc (length xs)

  abbrev pub is_empty : List A → Bool
  is_empty [] = true
  is_empty (_ ∷ _) = false

  unfoldable pub any : (A → Bool) → List A → Bool
  any p [] = false
  any p (x ∷ xs) = p x || any p xs

  unfoldable pub all : (A → Bool) → List A → Bool
  all p [] = true
  all p (x ∷ xs) = p x && all p xs

  abbrev pub is_some : Option A → Bool
  is_some none = false
  is_some (some _) = true

  abbrev pub is_none : Option A → Bool
  is_none none = true
  is_none (some _) = false

  abbrev pub last? : List A → Option A
  last? [] = none
  last? (x ∷ []) = some x
  last? (x ∷ y ∷ xs) = last? (y ∷ xs)

  abbrev pub take : ℕ → List A → List A
  take zero xs = []
  take (suc n) [] = []
  take (suc n) (x ∷ xs) = x ∷ take n xs

  abbrev pub drop : ℕ → List A → List A
  drop zero xs = xs
  drop (suc n) [] = []
  drop (suc n) (x ∷ xs) = drop n xs

  abbrev pub replicate : ℕ → A → List A
  replicate zero a = []
  replicate (suc n) a = a ∷ replicate n a

  -- The statement that every element satisfies `P`.
  -- The predicate holds of each element.
  abbrev pub All {κ} : (Holds : A → Type κ) → List A → Type κ
  All Holds [] = Unit
  All Holds (x ∷ rest) = Holds x × All Holds rest

  pub All-append {κ} :
      (Holds : A → Type κ) (front back : List A)
      → All Holds front
      → All Holds back
      → All Holds (front ++ back)
  All-append Holds [] back tt later = later
  All-append Holds (x ∷ front) back (here, there) later =
      (here, All-append Holds front back there later)

  pub All-map {κ μ} :
      {P : A → Type κ} {Q : A → Type μ}
      → ((x : A) → P x → Q x)
      → (xs : List A) → All P xs
      → All Q xs
  All-map f [] h = tt
  All-map f (x ∷ xs) h = (f x h.0, All-map f xs h.1)

  -- To split on a computed list and keep the equation.
  pub List-cases : (xs : List A) → (xs ≡ []) ⊎ ((first : A) × (rest : List A) × (xs ≡ first ∷ rest))
  List-cases [] = inl refl
  List-cases (first ∷ rest) = inr (first, rest, refl)

  pub length-append : (xs ys : List A) → length (xs ++ ys) ≡ length xs + length ys
  length-append [] ys = omega arith
  length-append (x ∷ xs) ys = omega (arith, length-append xs ys)

  pub last?-append : (xs : List A) (y : A) → last? (xs ++ y ∷ []) ≡ some y
  last?-append [] y = refl
  last?-append (x ∷ []) y = refl
  last?-append (x ∷ z ∷ xs) y = last?-append (z ∷ xs) y

  pub all-eq-true : (p : A → Bool) (xs : List A) → all p xs ≡ true → All (λ x. p x ≡ true) xs
  unfolding all
  all-eq-true p [] h = tt
  all-eq-true p (x ∷ xs) h = (ground arith, all-eq-true p xs (ground arith))

  pub any-eq-false : (p : A → Bool) (xs : List A) → any p xs ≡ false → All (λ x. p x ≡ false) xs
  unfolding any
  any-eq-false p [] h = tt
  any-eq-false p (x ∷ xs) h = (ground arith, any-eq-false p xs (ground arith))

  pub any_of_All : (p : A → Bool) (xs : List A) → All (λ x. p x ≡ false) xs → any p xs ≡ false
  unfolding any
  any_of_All p [] h = refl
  any_of_All p (x ∷ xs) h = ground (arith, any_of_All p xs h.1)

module _ {ℓ} {A : Type ℓ} ⦃e : Eq A⦄ where
  -- `a in xs`
  unfoldable pub contains : A → List A → Bool
  contains a [] = false
  contains a (x ∷ xs) = (a == x) || contains a xs

  -- `len(xs) == len(set(xs))`
  unfoldable pub is_unique : List A → Bool
  unfolding contains
  is_unique [] = true
  is_unique (x ∷ xs) = not (contains x xs) && is_unique xs

  -- `set(xs).issubset(ys)`
  unfoldable pub is_subset : List A → List A → Bool
  unfolding contains
  is_subset [] ys = true
  is_subset (x ∷ xs) ys = contains x ys && is_subset xs ys

  -- `set(xs) == set(ys)`
  unfoldable pub same_set : List A → List A → Bool
  unfolding is_subset
  same_set xs ys = is_subset xs ys && is_subset ys xs

  pub contains-append :
      (a : A) (xs ys : List A) → contains a (xs ++ ys) ≡ (contains a xs || contains a ys)
  unfolding contains
  contains-append a [] ys = refl
  contains-append a (x ∷ xs) ys = ground (arith, contains-append a xs ys)

  pub is_unique-append :
      (xs : List A) (y : A)
      → is_unique xs ≡ true
      → contains y xs ≡ false
      → is_unique (xs ++ y ∷ []) ≡ true
  unfolding is_unique
  is_unique-append [] y h k = refl
  is_unique-append (x ∷ xs) y h k =
      ground (arith, is_unique-append xs y, contains-append x xs (y ∷ []), ==→≡ x y, ≡→== y x)

  pub is_unique_middle :
      (xs : List A) (y : A) (ys : List A)
      → is_unique (xs ++ (y ∷ ys)) ≡ true
      → contains y xs ≡ false
  unfolding is_unique
  is_unique_middle [] y ys h = refl
  is_unique_middle (x ∷ xs) y ys h =
      ground (arith, is_unique_middle xs y ys, contains-append x xs (y ∷ ys), ==→≡ y x, ≡→== x y)

  pub is_subset_weaken :
      (xs ys : List A) (y : A) → is_subset xs ys ≡ true → is_subset xs (y ∷ ys) ≡ true
  unfolding is_subset
  is_subset_weaken [] ys y h = refl
  is_subset_weaken (x ∷ xs) ys y h = ground (arith, is_subset_weaken xs ys y)

  pub is_subset_refl : (xs : List A) → is_subset xs xs ≡ true
  unfolding is_subset
  is_subset_refl [] = refl
  is_subset_refl (x ∷ xs) =
      ground (arith, ≡→== x x refl, is_subset_weaken xs xs x (is_subset_refl xs))

-- `all(not later < earlier for earlier, later in pairwise(xs))`, from the first element on.
unfoldable pub is_monotonic : ℕ → List ℕ → Bool
is_monotonic t [] = true
is_monotonic t (u ∷ us) = not (ltb u t) && is_monotonic u us
