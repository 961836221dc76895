-- ===== src/Kafka/Failure.antt =====
-- shared/infrastructure/kafka/consumer/errors.go: the errors that say what becomes of a message. errors.Is
-- and errors.As see through the two wrappers.
use spot_order_grpc.Prelude.{ℕ, Bool, true, false, ◌||◌}
use spot_order_grpc.Domain.Error.{Error}

pub data HandlerError : Type 0 where
  plain : Error → HandlerError
  skip_message restart_session handled_by_dlq stop_claim : HandlerError
  too_large : ℕ → ℕ → HandlerError
  non_retryable : HandlerError → HandlerError
  retry_exhausted : HandlerError → ℕ → HandlerError

-- What errors.Is compares in the end.
unfoldable pub root : HandlerError → HandlerError
root (non_retryable e) = root e
root (retry_exhausted e n) = root e
root e = e

unfoldable pub is_control_flow_error : HandlerError → Bool
is_control_flow_error skip_message = true
is_control_flow_error restart_session = true
is_control_flow_error handled_by_dlq = true
is_control_flow_error stop_claim = true
is_control_flow_error (non_retryable e) = is_control_flow_error e
is_control_flow_error (retry_exhausted e n) = is_control_flow_error e
is_control_flow_error (plain e) = false
is_control_flow_error (too_large size limit) = false

-- errors.As to MessageTooLargeError or to NonRetryableError
abbrev is_final : HandlerError → Bool
is_final (too_large size limit) = true
is_final (non_retryable e) = true
is_final (retry_exhausted e n) = is_final e
is_final _ = false

unfoldable pub is_non_retryable_error : HandlerError → Bool
unfolding is_control_flow_error
is_non_retryable_error e = is_final e || is_control_flow_error e
