-- ===== src/Lib.antt =====
-- Verification of spot-order-grpc, an exchange of two gRPC services. The spot service
-- (spotService) knows the markets and tells of their changes; the order service (orderService)
-- creates orders on them. Orders and the events that announce them are rows of PostgreSQL;
-- idempotency keys, rate limits, blocked markets and market caches are keys of Redis; events go
-- to Kafka by way of an outbox table and come from it by way of an inbox table.
--
-- Prelude and its children hold names of the libraries, tests on numbers and lemmas on lists.
-- Exec is the monad of all services: a method is a function of the data and of the number of the
-- next call, and returns a value or an error. Each call of PostgreSQL, Redis, Kafka or another
-- service first lets other processes change the data (`between`), and then is carried out, or
-- loses its request, or loses its reply (`fault`): so a timeout or a cancelled context may strike
-- at every call, before or after its effect. Exec.Triple has the rules for such programs. Redis
-- is a server given by its documented commands, since it is no part of the repository.
--
-- Which file is about which part:
--   Domain.Status    orderService/internal/domain/models/shared/order.go
--   Domain.Error     shared/errors
--   Order.Model      orderService/internal/domain/models, shared/models
--   Order.Platform   what the order service takes from outside: Redis, the clock, UUIDs, SHA-256,
--                    JSON, the spot service's answers and the configuration
--   Order.Idempotency  orderService/internal/services/order/idempotency_service.go,
--                    internal/application/order/idempotency_adapter.go and
--                    internal/infrastructure/redis/idempotency/idempotency_store.go
--   Order.Orders     orderService/internal/infrastructure/postgres/order/order_store.go,
--                    internal/services/producer/order_producer.go, and the transactions
--   Order.Block      orderService/internal/infrastructure/redis/market/market_block_store.go
--   Order.Limiter    orderService/internal/infrastructure/redis/order/order_rate_limiter.go
--   Order.Create     orderService/internal/services/order/order_service.go: CreateOrder (create_order)
--                    and GetOrderStatus (get_order_status); its children hold the proofs
--   Order.Inbox      orderService/internal/infrastructure/postgres/inbox/inbox_store.go
--   Order.Compensation  orderService/internal/services/order/compensation_service.go:
--                    ProcessMarketStateChanged (process_market_state_changed)
--   Order.MarketConsumer  orderService/internal/services/consumer/market_consumer.go and
--                    internal/application/dto/inbound/kafka; Order.MarketConsumer.Settled joins
--                    it with the consumer's session and with the compensation
--   Order.Outbox     orderService/internal/infrastructure/postgres/outbox/outbox_store.go and
--                    internal/infrastructure/kafka/outbox_worker.go
--   Spot.Platform    what the spot service's viewer takes from outside
--   Spot.Store       spotService/internal/infrastructure/postgres/spot/market_store.go
--   Spot.Cache       spotService/internal/infrastructure/redis/market_cache.go, market_by_id_cache.go
--   Spot.Viewer      spotService/internal/services/spot/market_viewer.go; its children hold the proofs
--   Spot.Poller      spotService/internal/services/spot/market_poller.go,
--                    internal/services/producer/market_producer.go and
--                    internal/infrastructure/postgres/cursor/cursor_store.go; Spot.Poller.Refresher
--                    is the viewer as the poller's refresher of the caches
--   Auth.Roles, Auth.Jwt  shared/auth/jwt
--   Auth.RefreshTokens  orderService/internal/infrastructure/redis/auth/refresh_token_store.go,
--                    shared/auth/session/store.go
--   Auth.Service     orderService/internal/services/auth/auth_service.go: Refresh (refresh_tokens)
--   Kafka.Failure, Kafka.Letter, Kafka.Consumer  shared/infrastructure/kafka/consumer: its errors, the
--                    dead letters, and the session of a partition with its middlewares
--   Tests            a server in memory, a text format in place of JSON, and runs of the model
--
-- A Go function keeps its name, in lower case with underscores. UUIDs are numbers, times are
-- numbers of nanoseconds, prices are their texts. The open transaction is a function that its
-- commit applies to the tables, at the isolation level READ COMMITTED. The loop of CreateOrder
-- that repeats a call, completeIdempotencyChecking, runs for the configured number of attempts,
-- and is a recursion on that number; the outbox worker's loop is a recursion on the ticks that it
-- receives, and so is the poller's. The batches of one poll are bounded by a number that is an
-- argument; more batches than there are markets beyond the cursor are enough, and a poll that runs
-- out says so. The retries of a message are a recursion on the configured number. No other code needs
-- a bound.
--
-- Not modelled: logging, tracing and metrics, which decide nothing; the goroutines of the market
-- block workers, the start and the stop of the services; the spot service's outbox worker, which is
-- a near copy of the order service's; the recovery of panics, the delays between retries and the
-- loop of Consume that starts one session after the other, which the sarama library runs; signing
-- and verifying JWTs, which a library does; gRPC, its interceptors and clients; reading the
-- configuration.
pub mod Auth
pub mod Domain
pub mod Exec
pub mod Kafka
pub mod Order
pub mod Prelude
pub mod Redis
pub mod Spot
pub mod Tests
