-- ===== src/Gateway.antt =====
-- icd_gateway: the receiver-side sessions and the queue of model inputs.
pub mod Registry
pub mod ModelQueue
pub mod Guards
