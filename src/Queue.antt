-- ===== src/Queue.antt =====
-- v2/src/footballai_v2/execution: the job records and the queue on a file tree.
pub mod Jobs
pub mod Files
pub mod Local
pub mod Records
pub mod Conservation
pub mod Recovery
pub mod Service
pub mod Invariant
pub mod Claims
pub mod Drained
pub mod Single
pub mod Settling
pub mod Handover
pub mod Presence
pub mod Finality
