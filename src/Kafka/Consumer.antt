-- ===== src/Kafka/Consumer.antt =====
-- shared/infrastructure/kafka/consumer: the middlewares around a handler, and what a partition's session
-- makes of their answers. A handler's error is a value; `none` is nil. Panics are left out.
pub mod Settled
pub mod Marked
pub mod Drained
use spot_order_grpc.Prelude.{
  ℕ, zero, suc, ◌+◌, Bool, true, false, Option, none, some, List, [], ◌∷◌, ◌++◌, if◌then◌else◌,
}
use spot_order_grpc.Exec.{Result, ok, err, Env, Exec, pure, call, ◌>>=◌, ◌>>◌, attempt, local}
use spot_order_grpc.Domain.Error.{Error}
use spot_order_grpc.Kafka.Failure.{
  HandlerError, plain, skip_message, restart_session, handled_by_dlq, stop_claim, non_retryable,
  retry_exhausted, root, is_control_flow_error, is_non_retryable_error,
}
use spot_order_grpc.Kafka.Letter.{Bytes, KafkaMessage, Texts, build_dlq_message}

-- The service's own data, the messages marked in the session, and the dead letter topic.
pub record ConsumerData (X : Type 0) : Type 0 where
  pub inner : X
  pub marked : List KafkaMessage
  pub dead_letters : List KafkaMessage

-- A handler's work on the service's data.
unfoldable pub on_inner : {X A : Type 0} → Exec X A → Exec (ConsumerData X) A
on_inner m s =
    let (r, t) = m (record { tick = s.tick; drawn = s.drawn; state = s.state.inner }) in
    (r, record { tick = t.tick; drawn = t.drawn; state = record (s.state) { inner = t.state } })

abbrev pub MessageHandler : Type 0 → Type 0
MessageHandler X = KafkaMessage → Exec (ConsumerData X) (Option HandlerError)

pub record ConsumerConfig (X : Type 0) : Type 0 where
  pub env : Env (ConsumerData X)
  pub texts : Texts
  pub error_text : HandlerError → Bytes
  pub max_retries : ℕ
  -- whether there is a publisher of dead letters
  pub has_dlq : Bool
  pub dlq_max_message_bytes : ℕ

-- errors.As to RetryExhaustedError: the error inside, and the attempts.
unfoldable pub find_exhausted : HandlerError → Option (HandlerError × ℕ)
find_exhausted (retry_exhausted e n) = some (e, n + 1)
find_exhausted (non_retryable e) = find_exhausted e
find_exhausted _ = none

abbrev pub unwrap_exhausted : HandlerError → Option (HandlerError × ℕ) → HandlerError × ℕ
unwrap_exhausted e none = (e, 0)
unwrap_exhausted e (some found) = found

module _ {X : Type 0} (c : ConsumerConfig X) where
  open c use {env}

  -- ctx.Err(), or the wait for a timer or for ctx.Done().
  unfoldable pub context_open : Exec (ConsumerData X) Unit
  context_open = call env (λ d. (ok tt, d))

  -- The loop of RetryMiddleware with that many retries left; the delay is left out.
  unfoldable pub retry_loop : ℕ → MessageHandler X → MessageHandler X
  unfolding is_non_retryable_error context_open
  retry_loop zero next m = next m >>= λ failure. elim failure [
    | none ↦ pure none
    | some e ↦ pure (some (if is_non_retryable_error e then e else retry_exhausted e c.max_retries))
  ]
  retry_loop (suc n) next m = next m >>= λ failure. elim failure [
    | none ↦ pure none
    | some e ↦
        if is_non_retryable_error e
        then pure (some e)
        else attempt context_open
            (λ waited. elim waited [ err _ ↦ pure (some stop_claim) | ok _ ↦ retry_loop n next m ])
  ]

  unfoldable pub retry_middleware : MessageHandler X → MessageHandler X
  unfolding retry_loop
  retry_middleware next m = retry_loop c.max_retries next m

  unfoldable pub send_to_dlq :
      KafkaMessage → HandlerError → ℕ → Exec (ConsumerData X) (Option HandlerError)
  unfolding context_open build_dlq_message
  send_to_dlq m last_error retry_count = attempt context_open (λ context. elim context [
    | err _ ↦ pure (some stop_claim)
    | ok _ ↦
        if c.has_dlq
        then attempt
            (call env (λ d. (
              ok tt,
              record d {
                dead_letters =
                    d.dead_letters
                    ++ build_dlq_message c.texts m (c.error_text last_error) retry_count
                        c.dlq_max_message_bytes
                      ∷ [];
              },
            )))
            (λ sent. elim sent [
              | err e ↦ pure (some (plain e))
              | ok _ ↦ pure (some handled_by_dlq)
            ])
        else pure (some last_error)
  ])

  unfoldable pub dlq_middleware : MessageHandler X → MessageHandler X
  unfolding send_to_dlq is_control_flow_error find_exhausted
  dlq_middleware next m = next m >>= λ failure. elim failure [
    | none ↦ pure none
    | some e ↦
        if is_control_flow_error e
        then pure (some e)
        else let (cause, retry_count) = unwrap_exhausted e (find_exhausted e) in
          if is_control_flow_error cause then pure (some cause) else send_to_dlq m cause retry_count
  ]

  -- The middlewares in the order of orderService/internal/application/order/service_providers.go.
  unfoldable pub wrapped_handler : MessageHandler X → MessageHandler X
  unfolding retry_middleware dlq_middleware
  wrapped_handler handler m =
      if c.has_dlq then dlq_middleware (retry_middleware handler) m else retry_middleware handler m

  -- session.MarkMessage
  unfoldable pub mark_message : KafkaMessage → Exec (ConsumerData X) (Option HandlerError)
  mark_message m = local (λ d. (none, record d { marked = d.marked ++ m ∷ [] }))

  -- The switch of handleMessageResult on an error, by what errors.Is finds in it.
  unfoldable pub handle_error :
      KafkaMessage → HandlerError → HandlerError → Exec (ConsumerData X) (Option HandlerError)
  unfolding mark_message is_non_retryable_error
  handle_error m e handled_by_dlq = mark_message m
  handle_error m e skip_message = mark_message m
  handle_error m e restart_session = pure (some e)
  handle_error m e stop_claim = pure none
  handle_error m e _ = if is_non_retryable_error e then mark_message m else pure (some e)

  unfoldable pub handle_message_result :
      KafkaMessage → Option HandlerError → Exec (ConsumerData X) (Option HandlerError)
  unfolding mark_message handle_error root
  handle_message_result m none = mark_message m
  handle_message_result m (some e) = handle_error m e (root e)

  unfoldable pub handle_message :
      MessageHandler X → KafkaMessage → Exec (ConsumerData X) (Option HandlerError)
  unfolding handle_message_result
  handle_message handler m = handler m >>= λ failure. handle_message_result m failure

  -- ConsumeClaim, for the messages that come before the channel is closed; before each of them the select
  -- may take ctx.Done().
  unfoldable pub consume_claim :
      MessageHandler X → List KafkaMessage → Exec (ConsumerData X) (Option HandlerError)
  unfolding handle_message context_open
  consume_claim handler [] = pure none
  consume_claim handler (m ∷ ms) = attempt context_open (λ context. elim context [
    | err _ ↦ pure none
    | ok _ ↦ handle_message handler m >>= λ failure. elim failure [
      | some e ↦ pure (some e)
      | none ↦ consume_claim handler ms
    ]
  ])
