-- ===== src/Domain.antt =====
-- The schemas of src/quantforge/domain/models.py: the enumerations, the models as records in the
-- order of the source, and the `model_validator` of each model that has one. A field
-- `schema_version: Literal["1.0"]` has one value and is left out. Timestamps are instants in UTC
-- (microseconds), which is what `_aware_utc` leaves of a timezone-aware `datetime`.
pub mod Sorted
pub mod Enums
pub mod Decimal
pub mod Json
pub mod Proposal
pub mod Reviews
pub mod Text
pub mod Constitution
pub mod Evidence
pub mod Platform
pub mod Validate
pub mod Locked
pub mod Case
pub mod Visibility
pub mod Catch
pub mod CatchCase
pub mod Governance
pub mod Amendments
pub mod Lineage
pub mod Facts
pub mod Factories
