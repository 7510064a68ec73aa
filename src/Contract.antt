-- ===== src/Contract.antt =====
-- v2/src/footballai_v2/contracts/v1/analysis_run.py: the contract of one analysis attempt.
pub mod Text
pub mod Json
pub mod References
pub mod Stage
pub mod Run
pub mod Transitions
pub mod Operations
pub mod Retry
