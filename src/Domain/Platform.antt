-- ===== src/Domain/Platform.antt =====
-- What the validators take from outside the repository: `date.fromisoformat`, `str.casefold`, and
-- `canonical_sha256` of a model. `canonical_sha256` is SHA-256 (hashlib) of the JSON text (json) of
-- the dumped model (pydantic); it is one function on the values of each type, and the theorems
-- that need more of it, that two values with one digest are equal, say so.
use quantforge_ai.Common.{ℕ, String, Option}
use quantforge_ai.Domain.Json.{JsonFields}
use quantforge_ai.Domain.Proposal.{ExperimentProposal}
use quantforge_ai.Domain.Constitution.{ConstitutionBody, AmendmentBody}

pub record Platform : Type 0 where
  -- the ordinal of an ISO calendar date; `none` where `date.fromisoformat` raises
  pub from_iso_format : String → Option ℕ
  pub casefold : String → String
  pub sha_proposal : ExperimentProposal → String
  pub sha_constitution : ConstitutionBody → String
  pub sha_amendment : AmendmentBody → String
  pub sha_content : JsonFields → String
