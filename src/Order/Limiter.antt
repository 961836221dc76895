-- ===== src/Order/Limiter.antt =====
-- orderService/internal/infrastructure/redis/order/order_rate_limiter.go
pub mod Window
use spot_order_grpc.Prelude.{ℕ, Bool, none, some, leb, ◌==◌, if◌then◌else◌}
use spot_order_grpc.Exec.{Result, ok, err, Exec, pure, raise, call, ◌>>=◌}
use spot_order_grpc.Redis.{Key, rate_key, Redis}
use spot_order_grpc.Domain.Error.{limit_exceeded, other}
use spot_order_grpc.Order.Platform.{Data, RateLimit, Platform}
use spot_order_grpc.Order.Idempotency.{on_redis}

module _ {S : Type 0} (r : Redis S) where
  -- rateLimitScript
  unfoldable pub rate_limit_script : Key → ℕ → S → Result ℕ × S
  rate_limit_script key window_ms s = elim (r.incr s key) [
    | none ↦ (err (other "ERR value is not an integer or out of range"), s)
    | some (count, s') ↦ (ok count, if count == 1 then r.pexpire s' key window_ms else s')
  ]

module _ {S : Type 0} (p : Platform S) where
  open p use {redis as r, env}

  -- (r *OrderRateLimiter) Allow
  unfoldable pub allow : RateLimit → ℕ → Exec (Data S) Bool
  unfolding rate_limit_script
  allow limiter user_id =
      if limiter.window_ms == 0 then raise (other "window must be greater than 0") else do
        count ←
            call env
              (on_redis (rate_limit_script r (rate_key limiter.prefix user_id) limiter.window_ms))
        pure (leb count limiter.limit)

  -- (s *OrderService) checkRateLimit
  unfoldable pub check_rate_limit : RateLimit → ℕ → Exec (Data S) Unit
  unfolding allow
  check_rate_limit limiter user_id = do
    allowed ← allow limiter user_id
    if allowed then pure tt else raise (limit_exceeded limiter.limit limiter.window_ms)
