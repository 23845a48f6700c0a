-- ===== src/Domain.antt =====
-- packages/domain: the framework-independent rules on money, payments and stock.
pub mod Payment
pub mod Movement
pub mod Transitions
pub mod Numbers
pub mod Replenishment
pub mod Velocity
mod Tests
