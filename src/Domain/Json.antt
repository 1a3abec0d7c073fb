-- ===== src/Domain/Json.antt =====
-- `JsonValue` of src/quantforge/domain/models.py. An object's items stand in the order of insertion.
use quantforge_ai.Common.{ℕ, Bool, String, ℕ_discrete, String-discrete}
use quantforge_ai.Domain.Decimal.{Decimal, Decimal-discrete}

mutual
  pub data JsonValue : Type 0 where
    text : String → JsonValue
    integer : (negative : Bool) → (magnitude : ℕ) → JsonValue
    boolean : Bool → JsonValue
    null : JsonValue
    decimal : Decimal → JsonValue
    array : JsonItems → JsonValue
    object : JsonFields → JsonValue

  pub data JsonItems : Type 0 where
    nil : JsonItems
    cons : JsonValue → JsonItems → JsonItems

  pub data JsonFields : Type 0 where
    end : JsonFields
    field : String → JsonValue → JsonFields → JsonFields

unfoldable pub JsonFields-discrete : Discrete JsonFields
JsonFields-discrete = hlevel (ℕ_discrete, String-discrete, Decimal-discrete)
