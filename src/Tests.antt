-- ===== src/Tests.antt =====
-- Examples: the theorems at concrete inputs.
pub mod Samples
pub mod History
pub mod Runs
pub mod LogExamples
pub mod CaseExamples
pub mod GraphExamples
pub mod EngineExamples
pub mod EvaluationExamples
