-- ===== src/Domain/Decimal.antt =====
-- Python's `Decimal` as far as src/quantforge/domain/models.py compares it, and the models `Rate`
-- and `Money`. A finite value is (-1)^negative * coefficient * 10^exponent. Python's `==` compares values and `canonical_decimal` has
-- one text for each value, so the record stands for the value, in lowest terms. The values that are
-- not finite are refused by `canonical_decimal` before a model holds them, and are left out.
use quantforge_ai.Common.{
  ℕ, ◌*◌, ◌^◌, Bool, not, ◌&&◌, ◌||◌, String, value_error, Result, raise_if, ltb, leb, ℕ_discrete,
  String-discrete,
}
use quantforge_ai.Domain.Enums.{MeasureUnit, MeasureUnit-discrete}

-- `up n` is n, and `down n` is -n.
pub data Exponent : Type 0 where
  up : ℕ → Exponent
  down : ℕ → Exponent

unfoldable pub Exponent-discrete : Discrete Exponent
Exponent-discrete = hlevel ℕ_discrete

pub record Decimal : Type 0 where
  pub negative : Bool
  pub coefficient : ℕ
  pub exponent : Exponent

unfoldable pub Decimal-discrete : Discrete Decimal
Decimal-discrete = hlevel (ℕ_discrete, Exponent-discrete)

-- `value.is_zero()`
unfoldable pub is_zero : Decimal → Bool
is_zero d = leb d.coefficient 0

-- `value < 0`
unfoldable pub is_negative : Decimal → Bool
unfolding is_zero
is_negative d = d.negative && not (is_zero d)

-- A value c * 10^e exceeds a whole bound.
abbrev scaled_exceeds : ℕ → Exponent → ℕ → Bool
scaled_exceeds c (up n) bound = ltb bound (c * 10 ^ n)
scaled_exceeds c (down n) bound = ltb (bound * 10 ^ n) c

-- `value > bound`, for a whole bound
unfoldable pub exceeds : Decimal → ℕ → Bool
exceeds d bound = not d.negative && scaled_exceeds d.coefficient d.exponent bound

pub record Rate : Type 0 where
  pub value : Decimal
  pub unit : MeasureUnit

unfoldable pub Rate-discrete : Discrete Rate
Rate-discrete = hlevel (Decimal-discrete, MeasureUnit-discrete)

-- The table `upper` of `valid_cost_rate`. The other units are not values of the field.
abbrev pub upper : MeasureUnit → ℕ
upper MeasureUnit.basis_points = 1000000
upper MeasureUnit.fraction = 1
upper MeasureUnit.percent = 100
upper _ = 0

unfoldable pub valid_cost_rate : Rate → Result (Unit {0})
valid_cost_rate r =
    raise_if (is_negative r.value || exceeds r.value (upper r.unit))
      (value_error "execution cost rate is outside its supported range")

pub record Money : Type 0 where
  pub amount : Decimal
  pub currency : String

unfoldable pub Money-discrete : Discrete Money
Money-discrete = hlevel (Decimal-discrete, String-discrete)

unfoldable pub positive_amount : Money → Result (Unit {0})
positive_amount m =
    raise_if (not (exceeds m.amount 0)) (value_error "starting capital must be positive")
