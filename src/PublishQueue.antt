-- ===== src/PublishQueue.antt =====
-- The persistent MQTT output queue: packages/uns-core/src/uns-mqtt/publish-queue.ts, its store
-- publish-queue-store.ts and its contract publish-queue-contract.ts.
pub mod Records
pub mod Store
pub mod Queue
pub mod Delivery
pub mod Order
pub mod Invariant
pub mod Sending
pub mod Machine
pub mod Admission
mod Tests
