-- ===== src/Pipeline.antt =====
-- pipeline.py, in the parts that its children name.
pub mod Policy
pub mod State
pub mod Quiet
pub mod Review
pub mod Rerun
pub mod Paper
pub mod AuditGate
pub mod Run
