-- ===== src/Tests/Kafka.antt =====
-- A session of the consumer: a message that cannot be read, one whose market is disabled, and a handler
-- that always fails on one offset.
use spot_order_grpc.Prelude.{
  ℕ, ◌≡◌, refl, ◌+◌, Bool, true, false, ◌&&◌, none, some, List, [], ◌∷◌, ltb, ◌==◌, str_eq,
  if◌then◌else◌, length,
}
use spot_order_grpc.Exec.{ok, err, Sys, Fault, pure, local, lost_reply}
use spot_order_grpc.Exec.Triple.{Triple, Triple-if, Triple-pure, Triple-local}
use spot_order_grpc.Domain.Error.{canceled, other}
use spot_order_grpc.Order.Platform.{Data}
use spot_order_grpc.Order.MarketConsumer.{ProtoMarketStateChanged, MessageFormat}
use spot_order_grpc.Order.MarketConsumer.Settled.{
  Session, session, session-AllSettled, Sound, IsProcessed,
}
use spot_order_grpc.Kafka.Failure.{plain, is_control_flow_error}
use spot_order_grpc.Kafka.Letter.{Bytes, KafkaMessage, Texts, truncate_utf8_bytes}
use spot_order_grpc.Kafka.Letter.Trimming.{IsTruncated, truncate_lem}
use spot_order_grpc.Kafka.Consumer.{
  ConsumerData, MessageHandler, ConsumerConfig, consume_claim, wrapped_handler,
}
use spot_order_grpc.Kafka.Consumer.Settled.{AllSettled}
use spot_order_grpc.Kafka.Consumer.Drained.{
  HasMarked, IsCalm, Never, Answered, consume_claim_drains,
}
use spot_order_grpc.Tests.Memory.{Memory}
use spot_order_grpc.Tests.Setup.{platform, well, nobody, failing_at}
use spot_order_grpc.Tests.Compensation.{with_orders}

-- Texts of one-byte characters.
abbrev ascii : Bytes → Bool
ascii [] = true
ascii (b ∷ bs) = ltb b 128 && ascii bs

abbrev texts : Texts
texts = record { bytes = λ s. []; itoa = λ n. n ∷ []; utf8_valid = ascii }

abbrev message : ℕ → Bytes → KafkaMessage
message offset value = record {
  headers = [];
  key = 1 ∷ [];
  value = value;
  topic = "market";
  partition = 0;
  offset = offset;
}

abbrev long_text : Bytes
long_text = 65 ∷ 66 ∷ 200 ∷ 67 ∷ []

truncate_lem_example : IsTruncated texts long_text 3 (truncate_utf8_bytes texts long_text 3)
truncate_lem_example = truncate_lem texts refl long_text 3

abbrev config : {X : Type 0} → (ℕ → Fault) → ConsumerConfig X
config faults = record {
  env = record { fault = faults; between = nobody };
  texts = texts;
  error_text = λ e. 65 ∷ [];
  max_retries = 2;
  has_dlq = true;
  dlq_max_message_bytes = 100;
}

abbrev disabled : ProtoMarketStateChanged
disabled = record {
  event_id = "event";
  market_id = "market";
  enabled = false;
  deleted_at = none;
  updated_at = some (record { seconds = 90; nanos = 0 });
}

abbrev format : MessageFormat
format = record {
  proto_unmarshal = λ bs. if length bs == 1 then ok disabled else err (other "proto");
  uuid_parse = λ s. some (if str_eq s "event" then 40 else 7);
  as_time = λ t. some t.seconds;
  is_required = other;
  is_invalid = other;
  payload_text = λ bs. "payload";
}

abbrev market_session : Session Memory
market_session = record {
  format = format;
  platform = platform (failing_at 9 (lost_reply canceled));
  error_text = λ e. "failed";
  group = "orders";
  config = config (failing_at 9 (lost_reply canceled));
  dlq = refl;
  quiet = λ n d. refl;
  db_stays = λ n d. refl;
  marks_stay = λ n d. refl;
  letters_stay = λ n d l h. h;
}

abbrev two_messages : List KafkaMessage
two_messages = message 6 [] ∷ message 7 (40 ∷ []) ∷ []

abbrev joined : Sys (ConsumerData (Data Memory))
joined = record {
  tick = 0;
  drawn = 0;
  state = record { inner = with_orders.state; marked = []; dead_letters = [] };
}

session-AllSettled_example :
    AllSettled
      (Sound market_session)
      (IsProcessed market_session)
      (session market_session two_messages joined).1.state
session-AllSettled_example = session-AllSettled market_session two_messages joined (tt, tt)

-- Counts the offsets, and fails on offset 7.
abbrev sum_offsets : MessageHandler ℕ
sum_offsets m =
    if m.offset == 7
    then pure (some (plain canceled))
    else local (λ d. (none, record d { inner = d.inner + m.offset }))

sum_offsets_lem :
    (m : KafkaMessage) (ks : List KafkaMessage)
    → Triple (HasMarked ks) (sum_offsets m) (λ r d. HasMarked ks d × IsCalm r) Never
unfolding is_control_flow_error
sum_offsets_lem m ks =
    Triple-if (m.offset == 7) _ _ (λ _. Triple-pure _ (λ d h. (h, refl)))
      (λ _. Triple-local _ (λ d h. (h, tt)))

abbrev answered : Answered ℕ
answered = record {
  config = config well;
  dlq = refl;
  well = λ n. refl;
  marks_stay = λ n d. refl;
  handler = sum_offsets;
  answers = sum_offsets_lem;
}

abbrev counting : Sys (ConsumerData ℕ)
counting = record {
  tick = 0;
  drawn = 0;
  state = record { inner = 0; marked = []; dead_letters = [] };
}

consume_claim_drains_example :
    ((consume_claim
        (config well)
        (wrapped_handler (config well) sum_offsets)
        two_messages
        counting).0
      ≡ ok none)
    × ((consume_claim
          (config well)
          (wrapped_handler (config well) sum_offsets)
          two_messages
          counting).1.state.marked
        ≡ two_messages)
consume_claim_drains_example = consume_claim_drains answered two_messages counting
