-- ===== src/Evidence.antt =====
-- src/quantforge/evidence: the append-only ledger and the claim graph.
pub mod Ledger
pub mod Catch
pub mod Nodes
pub mod Acyclic
pub mod Graph
pub mod Bundle
