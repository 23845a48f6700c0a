-- ===== src/Edge.antt =====
-- apps/event-edge: the event's local server, by component.
pub mod Rows
pub mod Db
mod Fixture
pub mod DeviceSync
pub mod Forwarder
pub mod Ledger
pub mod Sale
pub mod Transfer
pub mod Count
