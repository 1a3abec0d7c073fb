-- ===== src/Audit.antt =====
-- src/quantforge/audit/log.py: the hash-chained audit log of one case, and the reconstruction of the case
-- from it.
pub mod Event
pub mod Verify
pub mod Chain
pub mod Succession
pub mod Tamper
pub mod Policy
pub mod Citations
pub mod Agreement
pub mod Replay
pub mod Held
pub mod Log
pub mod Catch
pub mod Extend
pub mod Append
pub mod Governed
pub mod History
