-- ===== src/Common/Tests.antt =====
-- Boolean tests on native numbers, the conditional, and Python's `==` as a decidable equality.
use Prim.Native.Nat.{ℕ, compare, Ordering}
use Prim.Native.String.{String}
use mathlib.Core.Path.{◌≡◌, refl}
use mathlib.Core.Logic.{◌⊎◌, inl, inr}
use mathlib.Core.Bool.{Bool, true, false, false≢true}
use native.Mathlib.Decide.{ℕ_discrete}
use text.Mathlib.Text.{◌==◌ as str_eq}
use text.Mathlib.TextEquality.{eq_iff}

abbrev pub ltb : ℕ → ℕ → Bool
ltb a b = elim (compare a b) [ Ordering.lt ↦ true | _ ↦ false ]

abbrev pub leb : ℕ → ℕ → Bool
leb a b = elim (compare a b) [ Ordering.gt ↦ false | _ ↦ true ]

abbrev pub eqb : ℕ → ℕ → Bool
eqb a b = elim (compare a b) [ Ordering.eq ↦ true | _ ↦ false ]

infix 1 if◌then◌else◌
abbrev pub if◌then◌else◌ {ℓ} : {A : Type ℓ} → Bool → A → A → A
if true then x else y = x
if false then x else y = y

-- To split on a computed value and keep the equation.
pub Bool-cases : (b : Bool) → (b ≡ true) ⊎ (b ≡ false)
Bool-cases true = inl refl
Bool-cases false = inr refl

-- The types that the program compares by `==`.
pub record Eq {ℓ} (A : Type ℓ) : Type ℓ where
  pub dec : Discrete A

abbrev pub is_yes {ℓ} : {A : Type ℓ} → Dec A → Bool
is_yes (yes _) = true
is_yes (no _) = false

infix 50 ◌==◌
unfoldable pub ◌==◌ {ℓ} : {A : Type ℓ} ⦃e : Eq A⦄ → A → A → Bool
◌==◌ ⦃e⦄ a b = is_yes (e.dec a b)

module _ {ℓ} {A : Type ℓ} ⦃e : Eq A⦄ where
  pub ==→≡ : (a b : A) → (a == b) ≡ true → a ≡ b
  unfolding ◌==◌
  ==→≡ a b h =
      elim (e.dec a b) as (λ d. is_yes d ≡ true → a ≡ b) [ yes p ↦ λ _. p | no _ ↦ λ q. cc ] h

  pub ≡→== : (a b : A) → a ≡ b → (a == b) ≡ true
  unfolding ◌==◌
  ≡→== a b h = elim (e.dec a b) as (λ d. is_yes d ≡ true) [ yes _ ↦ refl | no q ↦ absurd (q h) ]

-- The library's test of two texts as a decision.
abbrev decide_string :
    (a b : String) (c : Bool) → (c ≡ true → a ≡ b) → (a ≡ b → c ≡ true) → Dec (a ≡ b)
decide_string a b true f g = yes (f refl)
decide_string a b false f g = no (λ p. false≢true (g p))

unfoldable pub String-discrete : Discrete String
String-discrete a b = decide_string a b (str_eq a b) (eq_iff a b).0 (eq_iff a b).1

instance abbrev pub string_eq : Eq String
string_eq = record { dec = String-discrete }

instance abbrev pub nat_eq : Eq ℕ
nat_eq = record { dec = ℕ_discrete }

instance abbrev pub bool_eq : Eq Bool
bool_eq = record { dec = hlevel }
