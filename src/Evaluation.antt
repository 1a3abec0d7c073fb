-- ===== src/Evaluation.antt =====
-- src/quantforge/evaluation: the benchmark cases, what an architecture answers, and how the answers are
-- scored.
pub mod Kinds
pub mod Benchmark
pub mod Response
pub mod Score
pub mod Scoring
pub mod Metrics
