-- ===== src/Lib.antt =====
-- Event Commerce OS: the event-native commerce platform's core, as a verification library.
--
-- Base: Boolean tests, lists, integers, results, maps and sorting, as the code uses them.
-- Domain (packages/domain/src): the payment attempt's state machine (Payment: payment.ts), the sign
-- rule of stock movements and recipes (Movement: inventory.ts), transfers and alerts (Transitions:
-- inventory.ts), replenishment, imbalance and stock risk (Replenishment: inventory.ts,
-- inventory-imbalance.ts), sales velocity (Velocity: inventory.ts), over an interface of
-- floating-point numbers (Numbers).
-- Edge (apps/event-edge): the tables and transactions (Rows, Db: migrations, src/database), the
-- append-only stock ledger (Ledger: src/inventory/inventory-ledger.service.ts, whose postManual is
-- in Manual) and the transfers of stock between locations (Transfer:
-- src/inventory/inventory-transfer.service.ts) and stock counts (Count:
-- src/inventory/inventory-count.service.ts); the stock that a sale consumes (Sale:
-- src/inventory/inventory-sale-consumer.service.ts): its tables (Tables), its payload (Reading)
-- and its movements by the recipes (Recipes), which Demand, Posted, Taken and Exceptions are about; the
-- events of the devices (DeviceSync: src/sync/device-sync.service.ts): stored once (Stored,
-- Replay), acknowledged without a gap (Gapless, Ack), held back by conflicts (Conflicts), refused
-- by the database (Ranges); their way to the cloud (Forwarder:
-- src/sync/cloud-forwarder.service.ts, src/sync/retry-policy.ts).
-- Contracts (packages/contracts/src/sync.ts): the messages between the devices, the edge and the cloud.
-- Cloud (apps/cloud-api): payment attempts (Payments: src/payments/payments.service.ts and the
-- interface of payment-provider.ts): the claim of an initiation and its result (Initiation), the
-- providers' callbacks (Callbacks), what a provider's word changes (Truth), the watchdog and the
-- retries (Reconciliation). A provider's adapter is a record of functions. The synchronisation
-- (Sync: src/sync/cloud-sync.service.ts): the parsing of an order's payload (Payload), the tables
-- (Tables), the projection of the orders (Projection), the events (Events) and the batches; what
-- is proved of them is in Orders, Forward, Batches, Once, Refusals, Scopes (with Foreign,
-- Untouched and Telemetry) and Attributed. Refunds and reversals (Adjustments:
-- src/payments/payment-adjustments.service.ts): the claim of an amount and the answer of the
-- provider, as steps that those of other requests may come between (Runs).
-- System: the edge's forwarder with the cloud's synchronisation at the other end (Record, Delivery).
-- Simulator (packages/simulator/src/simulator.ts): the queues between the registers, the edge and the
-- cloud (Sync), where every random draw is a value of a function.
--
-- Loops run over lists and need no fuel. An operation of Edge is the body of its transaction, an
-- action that fails without a state; an operation of Cloud returns the tables after it. Operations
-- run one after another: of the locks only the order in which they are taken is kept. Which texts
-- of an event PostgreSQL reads is a parameter of its tables (`readable`). Not modelled: HTTP,
-- timers, connection pools, the interfaces of the web and Android applications.
pub mod Base
pub mod Contracts
pub mod Domain
pub mod Edge
pub mod Cloud
pub mod System
pub mod Simulator
