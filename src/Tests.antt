-- ===== src/Tests.antt =====
-- Runs of the model at concrete inputs, and what they need: a server in memory and a text format.
mod Codec
mod MarketCodec
mod Memory
mod Setup
mod Order
mod Outbox
mod Spot
mod Redis
mod Paging
mod Cancel
mod Compensation
mod Poller
mod Auth
mod Kafka
