-- ===== src/Order/MarketConsumer/Settled.antt =====
-- The market consumer (orderService/internal/services/consumer/market_consumer.go) in a session of the
-- Kafka consumer (shared/infrastructure/kafka/consumer), with the compensation as its handler.
use spot_order_grpc.Prelude.{
  ℕ, String, ◌≡◌, refl, ap, ◌∙◌, inl, inr, true, Option, some, List, Member, All-imp,
}
use spot_order_grpc.Exec.{Result, ok, err, Sys, Exec}
use spot_order_grpc.Exec.Triple.{Post, Triple, Triple-attempt, Triple-pure}
use spot_order_grpc.Domain.Error.{Error}
use spot_order_grpc.Order.Model.{MarketStateChangedEvent, processed}
use spot_order_grpc.Order.Platform.{Data, Platform}
use spot_order_grpc.Order.Inbox.{status_of}
use spot_order_grpc.Order.Inbox.Rows.{IsSettled as NoneInProgress}
use spot_order_grpc.Order.Compensation.{process_market_state_changed}
use spot_order_grpc.Order.Compensation.Once.{process, process-IsSettled, ok-processed}
use spot_order_grpc.Order.MarketConsumer.{
  MessageFormat, unmarshal_market_state_changed, process_message, handle_market_state_changed,
}
use spot_order_grpc.Order.MarketConsumer.Rows.{processed_stays}
use spot_order_grpc.Kafka.Failure.{HandlerError, is_control_flow_error}
use spot_order_grpc.Kafka.Letter.{KafkaMessage}
use spot_order_grpc.Kafka.Consumer.{
  ConsumerData, ConsumerConfig, on_inner, consume_claim, wrapped_handler,
}
use spot_order_grpc.Kafka.Consumer.Settled.{IsSettled, AllSettled, IsAnswer, Claim}
use spot_order_grpc.Kafka.Consumer.Marked.{consume_claim-AllSettled}

-- A session of the consumer, during which nobody else writes to the tables, to the dead letter topic or
-- marks messages.
pub record Session (S : Type 0) : Type 0 where
  pub format : MessageFormat
  pub platform : Platform S
  pub error_text : Error → String
  pub group : String
  pub config : ConsumerConfig (Data S)
  pub dlq : config.has_dlq ≡ true
  pub quiet : (n : ℕ) (d : Data S) → (platform.env.between n d).db ≡ d.db
  pub db_stays :
      (n : ℕ) (d : ConsumerData (Data S)) → (config.env.between n d).inner.db ≡ d.inner.db
  pub marks_stay : (n : ℕ) (d : ConsumerData (Data S)) → (config.env.between n d).marked ≡ d.marked
  pub letters_stay :
      (n : ℕ) (d : ConsumerData (Data S)) (l : KafkaMessage)
      → Member l d.dead_letters
      → Member l (config.env.between n d).dead_letters

module _ {S : Type 0} (g : Session S) where
  open g use {
    format, platform as p, error_text, group, config, dlq, quiet, db_stays, marks_stay,
    letters_stay,
  }

  -- The message tells an event whose row in the inbox is processed.
  abbrev pub IsProcessed : KafkaMessage → Data S → Type 0
  IsProcessed m d =
      (event : MarketStateChangedEvent) × (unmarshal_market_state_changed format m.value ≡ ok event)
      × (status_of event.event_id group d.db.inbox ≡ some processed)

  abbrev pub Sound : Data S → Type 0
  Sound d = NoneInProgress d.db.inbox

  module _ (m : KafkaMessage) (event : MarketStateChangedEvent)
      (reads : unmarshal_market_state_changed format m.value ≡ ok event) where
    abbrev deliver : Sys (Data S) → Result Unit × Sys (Data S)
    deliver s = process p error_text m.topic group (format.payload_text m.value) event quiet s

    delivered :
        (tick drawn : ℕ) (d : ConsumerData (Data S))
        → AllSettled Sound IsProcessed d
        → let after = deliver (record { tick = tick; drawn = drawn; state = d.inner }) in
          AllSettled Sound IsProcessed (record d { inner = after.1.state })
    delivered tick drawn d h =
        let t : Sys (Data S) = record { tick = tick; drawn = drawn; state = d.inner } in
        (
          process-IsSettled p error_text m.topic group (format.payload_text m.value) event quiet t
              h.0,
          All-imp (λ k. IsSettled IsProcessed k d)
              (λ k. IsSettled IsProcessed k (record d { inner = (deliver t).1.state }))
              (λ k. elim [
                | inl (other, e, done) ↦ inl (
                  other,
                  e,
                  processed_stays p error_text m.topic group (format.payload_text m.value) event
                      quiet other.event_id t done,
                )
                | inr letter ↦ inr letter
              ])
              d.marked h.1,
        )

    deliver_lem :
        Triple
          (AllSettled Sound IsProcessed)
          (on_inner (
            process_market_state_changed p error_text m.topic group
              (format.payload_text m.value)
              event))
          (λ _ d. AllSettled Sound IsProcessed d × IsProcessed m d.inner)
          (λ _. AllSettled Sound IsProcessed)
    unfolding on_inner
    deliver_lem = record {
      at = λ s h.
          let t : Sys (Data S) = record { tick = s.tick; drawn = s.drawn; state = s.state.inner } in
          go s.state t (deliver t).0 refl (delivered s.tick s.drawn s.state h) h.0 refl;
    }
      where
        go :
            (d : ConsumerData (Data S)) (t : Sys (Data S)) (r : Result Unit)
            → (deliver t).0 ≡ r
            → AllSettled Sound IsProcessed (record d { inner = (deliver t).1.state })
            → Sound d.inner
            → t.state ≡ d.inner
            → Post
                (λ _ d. AllSettled Sound IsProcessed d × IsProcessed m d.inner)
                (λ _. AllSettled Sound IsProcessed)
                r
                (record d { inner = (deliver t).1.state })
        go d t (err _) e h sound same = h
        go d t (ok _) e h sound same = (
          h,
          (
            event,
            reads,
            ok-processed p error_text m.topic group (format.payload_text m.value) event quiet t
                (rw same sound) e,
          ),
        )

  handler_lem :
      (m : KafkaMessage)
      → Triple
          (AllSettled Sound IsProcessed)
          (handle_market_state_changed format p error_text group m)
          (IsAnswer Sound IsProcessed m)
          (λ _. AllSettled Sound IsProcessed)
  unfolding handle_market_state_changed process_message is_control_flow_error
  handler_lem m = go (unmarshal_market_state_changed format m.value) refl
    where
      go :
          (r : Result MarketStateChangedEvent)
          → unmarshal_market_state_changed format m.value ≡ r
          → Triple
              (AllSettled Sound IsProcessed)
              (process_message format p error_text group m r)
              (IsAnswer Sound IsProcessed m)
              (λ _. AllSettled Sound IsProcessed)
      go (err e) q = Triple-pure _ (λ d h. (h, refl))
      go (ok event) q =
          Triple-attempt _ _ (deliver_lem m event q) (λ _. Triple-pure _ (λ d h. h))
            (λ _. Triple-pure _ (λ d h. (h, refl)))

  abbrev claim : Claim (Data S)
  claim = record {
    config = config;
    Sound = Sound;
    Done = IsProcessed;
    dlq = dlq;
    marks_stay = marks_stay;
    letters_stay = letters_stay;
    sound_stays = λ n d h. rw (db_stays n d) h;
    done_stays = λ n d m h.
        (h.0, h.1, ap (λ db. status_of h.0.event_id group db.inbox) (db_stays n d) ∙ h.2);
    handler = handle_market_state_changed format p error_text group;
    answers = handler_lem;
  }

  -- ConsumeClaim with the handler that Run gives to Consume, in its middlewares.
  abbrev pub session : List KafkaMessage → Exec (ConsumerData (Data S)) (Option HandlerError)
  session ms =
      consume_claim config
        (wrapped_handler config (handle_market_state_changed format p error_text group)) ms

  -- With the dead letter topic enabled, where nobody else writes to the tables, marks messages or takes
  -- letters away during the session, and no inbox row is in progress at first: after a session of the
  -- market consumer over any messages, whatever calls fail, each message that it has marked tells a
  -- market's change whose inbox row is processed, or its key and value are those of a letter in the dead
  -- letter topic. And no inbox row is in progress.
  pub session-AllSettled :
      (ms : List KafkaMessage) (s : Sys (ConsumerData (Data S)))
      → AllSettled Sound IsProcessed s.state
      → AllSettled Sound IsProcessed (session ms s).1.state
  session-AllSettled ms s h = consume_claim-AllSettled claim ms s h
