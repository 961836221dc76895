-- ===== src/Order/MarketConsumer.antt =====
-- orderService/internal/services/consumer/market_consumer.go, and the reading of its messages in
-- orderService/internal/application/dto/inbound/kafka.
pub mod Rows
pub mod Settled
use spot_order_grpc.Prelude.{ℕ, String, Bool, Option, none, some, str_eq, if◌then◌else◌}
use spot_order_grpc.Exec.{Result, ok, err, Exec, pure, attempt}
use spot_order_grpc.Domain.Error.{Error}
use spot_order_grpc.Order.Model.{MarketStateChangedEvent}
use spot_order_grpc.Order.Platform.{Data, Platform}
use spot_order_grpc.Order.Compensation.{process_market_state_changed}
use spot_order_grpc.Kafka.Failure.{HandlerError, plain, non_retryable}
use spot_order_grpc.Kafka.Letter.{Bytes, KafkaMessage}
use spot_order_grpc.Kafka.Consumer.{ConsumerData, MessageHandler, on_inner}

pub record Timestamp : Type 0 where
  pub seconds : ℕ
  pub nanos : ℕ

-- protos/proto/events/v1/events.proto: message MarketStateChangedEvent
pub record ProtoMarketStateChanged : Type 0 where
  pub event_id : String
  pub market_id : String
  pub enabled : Bool
  pub deleted_at : Option Timestamp
  pub updated_at : Option Timestamp

-- What the code takes from outside: proto.Unmarshal, uuid.Parse, CheckValid with AsTime, and what
-- fmt.Errorf makes of a field's name in "%s is required" and in "invalid %s".
pub record MessageFormat : Type 0 where
  pub proto_unmarshal : Bytes → Result ProtoMarketStateChanged
  pub uuid_parse : String → Option ℕ
  pub as_time : Timestamp → Option ℕ
  pub is_required : String → Error
  pub is_invalid : String → Error
  -- the payload as the column of the inbox stores it
  pub payload_text : Bytes → String

abbrev pub and_then : {A B : Type 0} → Result A → (A → Result B) → Result B
and_then (ok a) f = f a
and_then (err e) f = err e

abbrev read_or : {A : Type 0} → Error → Option A → Result A
read_or e none = err e
read_or e (some a) = ok a

module _ (x : MessageFormat) where
  unfoldable pub parse_uuid_required : String → String → Result ℕ
  parse_uuid_required field raw =
      if str_eq raw ""
      then err (x.is_required field)
      else read_or (x.is_invalid field) (x.uuid_parse raw)

  unfoldable pub from_proto_timestamp : String → Option Timestamp → Result ℕ
  from_proto_timestamp field none = err (x.is_required field)
  from_proto_timestamp field (some t) = read_or (x.is_invalid field) (x.as_time t)

  unfoldable pub from_proto_timestamp_optional : String → Option Timestamp → Result (Option ℕ)
  from_proto_timestamp_optional field none = ok none
  from_proto_timestamp_optional field (some t) =
      and_then (read_or (x.is_invalid field) (x.as_time t)) (λ value. ok (some value))

  unfoldable pub from_proto_market_state_changed :
      ProtoMarketStateChanged → Result MarketStateChangedEvent
  unfolding parse_uuid_required from_proto_timestamp from_proto_timestamp_optional
  from_proto_market_state_changed msg =
      and_then (parse_uuid_required "event_id" msg.event_id) λ event_id.
        and_then (parse_uuid_required "market_id" msg.market_id) λ market_id.
          and_then (from_proto_timestamp "updated_at" msg.updated_at) λ updated_at.
            and_then (from_proto_timestamp_optional "deleted_at" msg.deleted_at) λ deleted_at.
              ok (record {
                event_id = event_id;
                market_id = market_id;
                enabled = msg.enabled;
                deleted_at = deleted_at;
                updated_at = updated_at;
              })

  unfoldable pub unmarshal_market_state_changed : Bytes → Result MarketStateChangedEvent
  unfolding from_proto_market_state_changed
  unmarshal_market_state_changed bytes =
      and_then (x.proto_unmarshal bytes) from_proto_market_state_changed

module _ {S : Type 0} (x : MessageFormat) (p : Platform S) (error_text : Error → String)
    (consumer_group : String) where
  unfoldable pub process_message :
      KafkaMessage
      → Result MarketStateChangedEvent
      → Exec (ConsumerData (Data S)) (Option HandlerError)
  unfolding on_inner
  process_message msg (err e) = pure (some (non_retryable (plain e)))
  process_message msg (ok event) =
      attempt
        (on_inner (
          process_market_state_changed p error_text msg.topic consumer_group
            (x.payload_text msg.value) event))
        (λ processed. elim processed [ err e ↦ pure (some (plain e)) | ok _ ↦ pure none ])

  -- (c *MarketConsumer) handleMarketStateChanged
  unfoldable pub handle_market_state_changed : MessageHandler (Data S)
  unfolding process_message unmarshal_market_state_changed
  handle_market_state_changed msg = process_message msg (unmarshal_market_state_changed x msg.value)
