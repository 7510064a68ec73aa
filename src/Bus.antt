-- ===== src/Bus.antt =====
-- v2/src/footballai_v2/execution/queue: the Service Bus queue and the renewal of its locks.
pub mod Broker
pub mod Delivery
pub mod Settlement
pub mod Renewal
pub mod Lifetime
