-- ===== src/Workflow.antt =====
-- src/quantforge/workflow: the table of legal transitions (rules.py).
pub mod Rules
pub mod Authority
