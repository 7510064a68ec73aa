-- ===== src/Execution.antt =====
-- v2/src/footballai_v2/execution: the worker that turns a claimed job into a finished attempt.
pub mod Action
pub mod Pipeline
pub mod Stages
pub mod Publication
pub mod Executor
pub mod Triple
pub mod Keeps
pub mod Rounds
pub mod Ending
pub mod Completion
pub mod Early
pub mod Gate
pub mod Worker
pub mod Turns
