-- ===== src/Cloud.antt =====
-- apps/cloud-api: the platform's cloud service, by component.
pub mod Payments
pub mod Sync
pub mod Adjustments
