-- ===== src/Domain/Error.antt =====
-- The error values that the code tells apart (shared/errors). A wrapped error `%w` is the error
-- itself: errors.Is and errors.As see through the wrapping, and the added text is not kept.
use spot_order_grpc.Prelude.{ℕ, String}

pub data Error : Type 0 where
  -- shared/errors/shared_errors.go
  cache_not_found : Error
  not_found already_exists market_not_found : ℕ → Error
  -- shared/errors/repository
  market_store_is_empty markets_cache_not_found market_cache_corrupted : Error
  -- shared/errors/service
  limit_exceeded : ℕ → ℕ → Error
  unavailable disabled : ℕ → Error
  order_processing markets_not_found invalid_pagination user_role_not_specified : Error
  token_revoked save_token_failed session_validation_failed invalid_subject invalid_jti : Error
  missing_user_roles invalid_user_roles build_token_claims_failed token_expired invalid_token :
      Error
  invalid_token_type missing_token_subject missing_token_session_id : Error
  sign_access_token_failed sign_refresh_token_failed : Error
  -- context.Canceled and context.DeadlineExceeded
  canceled deadline_exceeded : Error
  -- any other error, such as a driver's or one made by fmt.Errorf, by its text
  other : String → Error
