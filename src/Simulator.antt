-- ===== src/Simulator.antt =====
-- packages/simulator: the event simulation that is run before a release, by component.
pub mod Sync
