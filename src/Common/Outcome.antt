-- ===== src/Common/Outcome.antt =====
-- Fallible code: what a Python function returns or raises.
use Prim.Native.String.{String}
use mathlib.Core.Path.{◌≡◌, refl}
use mathlib.Core.Logic.{◌⊎◌, inl, inr}
use mathlib.Core.Bool.{Bool, true, false}
use mathlib.Core.Option.{Option, none, some}
use mathlib.Core.List.{List, [], ◌∷◌}

-- The exception classes that the modelled code raises, each with the text of its `raise`
-- (without the values that an f-string puts in).
pub data Error : Type 0 where
  value_error : String → Error
  permission_error : String → Error
  type_error : String → Error
  -- a missing key of a dictionary
  key_error : String → Error

-- What a call does: it raises, or it returns a value.
pub data Result {ℓ} (Value : Type ℓ) : Type ℓ where
  err : Error → Result Value
  ok : Value → Result Value

-- `if b: raise e`
abbrev pub raise_if : Bool → Error → Result (Unit {0})
raise_if true e = err e
raise_if false e = ok tt

-- One statement after another: what follows runs on the value, and an exception skips it.
infixl 5 ◌>>=◌ ◌>>◌
abbrev pub ◌>>=◌ {ℓ κ} :
    {Value : Type ℓ} {Next : Type κ} → Result Value → (Value → Result Next) → Result Next
err raised >>= rest = err raised
ok value >>= rest = rest value

-- The same after a statement of which the value is not used
abbrev pub ◌>>◌ {ℓ} : {Next : Type ℓ} → Result (Unit {0}) → Result Next → Result Next
check >> rest = check >>= λ (_ : Unit {0}). rest

abbrev pub is_ok {ℓ} : {A : Type ℓ} → Result A → Bool
is_ok (ok _) = true
is_ok (err _) = false

-- `for x in xs: f(x)`, where `f` returns nothing and may raise.
unfoldable pub for_each {ℓ} : {A : Type ℓ} → (A → Result (Unit {0})) → List A → Result (Unit {0})
for_each f [] = ok tt
for_each f (x ∷ xs) = f x >> for_each f xs

-- `if o is not None: f(o)`
abbrev pub for_some {ℓ} : {A : Type ℓ} → (A → Result (Unit {0})) → Option A → Result (Unit {0})
for_some f none = ok tt
for_some f (some a) = f a

-- To split on what a call does and keep the equation.
pub Result-cases {ℓ} :
    {Value : Type ℓ} (call : Result Value)
    → ((raised : Error) × (call ≡ err raised)) ⊎ ((value : Value) × (call ≡ ok value))
Result-cases (err raised) = inl (raised, refl)
Result-cases (ok value) = inr (value, refl)

-- A sequence returns only if both statements do. The first value is given back.
pub >>=-eq-ok {ℓ κ} :
    {Value : Type ℓ} {Next : Type κ} (first : Result Value) (rest : Value → Result Next)
    {last : Next}
    → (first >>= rest) ≡ ok last
    → (value : Value) × (first ≡ ok value) × (rest value ≡ ok last)
>>=-eq-ok (err raised) rest returns = cc
>>=-eq-ok (ok value) rest returns = (value, refl, returns)

pub >>-eq-ok {ℓ} :
    {Next : Type ℓ} (check : Result (Unit {0})) (rest : Result Next) {last : Next}
    → (check >> rest) ≡ ok last
    → (check ≡ ok tt) × (rest ≡ ok last)
>>-eq-ok (err raised) rest returns = cc
>>-eq-ok (ok tt) rest returns = (refl, returns)

pub ok-injective {ℓ} : {A : Type ℓ} {a b : A} → ok a ≡ ok b → a ≡ b
ok-injective h = cc

pub some-injective {ℓ} : {A : Type ℓ} {a b : A} → some a ≡ some b → a ≡ b
some-injective h = cc

pub raise_if-eq-ok : (b : Bool) (e : Error) → raise_if b e ≡ ok tt → b ≡ false
raise_if-eq-ok true e h = cc
raise_if-eq-ok false e h = refl
