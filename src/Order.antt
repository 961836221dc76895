-- ===== src/Order.antt =====
-- The order service (orderService): its data, its stores and its services.
pub mod Model
pub mod Platform
pub mod Idempotency
pub mod Orders
pub mod Inbox
pub mod Block
pub mod Limiter
pub mod Compensation
pub mod MarketConsumer
pub mod Create
pub mod Outbox
