-- ===== src/Tests.antt =====
-- Concrete inputs, tests by evaluation, and the theorems at inputs that meet their hypotheses.
pub mod Samples
pub mod Contract
pub mod Repository
pub mod Policy
pub mod Queue
pub mod Bus
pub mod Storage
pub mod Uploads
pub mod Execution
pub mod Worker
pub mod Recovery
pub mod LocalStore
pub mod Coordinator
