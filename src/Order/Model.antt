-- ===== src/Order/Model.antt =====
-- orderService/internal/domain/models and the tables of orderService/migrations. A UUID is a
-- number; a time is a number of nanoseconds since the zero time, so IsZero is `0`; a price is the
-- text that decimal.Decimal.String gives, which is all that the services read of it.
use spot_order_grpc.Prelude.{ℕ, String, Bool, Option, List}
use spot_order_grpc.Domain.Status.{OrderType, OrderStatus}

-- shared/models/market.go
pub record Market : Type 0 where
  pub id : ℕ
  pub name : String
  pub enabled : Bool
  pub deleted_at : Option ℕ
  pub updated_at : ℕ

-- shared/models/events.go
pub record MarketStateChangedEvent : Type 0 where
  pub event_id : ℕ
  pub market_id : ℕ
  pub enabled : Bool
  pub deleted_at : Option ℕ
  pub updated_at : ℕ

pub record Decimal : Type 0 where
  pub value : String

pub record Order : Type 0 where
  pub id : ℕ
  pub user_id : ℕ
  pub market_id : ℕ
  pub type : OrderType
  pub price : Decimal
  pub quantity : ℕ
  pub status : OrderStatus
  pub created_at : ℕ

pub record OrderCreatedEvent : Type 0 where
  pub event_id : ℕ
  pub order_id : ℕ
  pub user_id : ℕ
  pub market_id : ℕ
  pub type : OrderType
  pub price : Decimal
  pub quantity : ℕ
  pub status : OrderStatus
  pub created_at : ℕ

pub record OrderStatusUpdatedEvent : Type 0 where
  pub event_id : ℕ
  pub order_id : ℕ
  pub new_status : OrderStatus
  pub reason : String
  pub correlation_id : ℕ
  pub updated_at : ℕ

-- The message that an outbox row of either service carries: the protobuf encoding of an event, kept as
-- the event that it encodes.
pub data Payload : Type 0 where
  order_created : OrderCreatedEvent → Payload
  order_status_updated : OrderStatusUpdatedEvent → Payload
  market_state_changed : MarketStateChangedEvent → Payload

pub data OutboxEventStatus : Type 0 where
  pending processing published failed : OutboxEventStatus

pub record OutboxEvent : Type 0 where
  pub id : ℕ
  pub event_id : ℕ
  pub event_type : String
  pub aggregate_id : ℕ
  pub payload : Payload
  pub status : OutboxEventStatus
  pub retry_count : ℕ
  pub available_at : ℕ
  pub created_at : ℕ
  pub published_at : Option ℕ
  pub failed_at : Option ℕ
  pub locked_at : Option ℕ
  pub last_error : Option String

pub data InboxEventStatus : Type 0 where
  processing processed failed : InboxEventStatus

pub record InboxEvent : Type 0 where
  pub id : ℕ
  pub event_id : ℕ
  pub topic : String
  pub consumer_group : String
  pub payload : String
  pub status : InboxEventStatus
  pub received_at : ℕ
  pub processed_at : Option ℕ
  pub failed_at : Option ℕ
  pub error_message : Option String

-- The tables orders, outbox and inbox.
pub record Db : Type 0 where
  pub orders : List Order
  pub outbox : List OutboxEvent
  pub inbox : List InboxEvent
