-- ===== src/System.antt =====
-- The composition of apps/event-edge and apps/cloud-api: the edge's outbox is sent to the cloud.
pub mod Record
pub mod Delivery
mod Tests
