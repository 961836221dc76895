-- ===== src/Order/Limiter/Window.antt =====
-- Allow of orderService/internal/infrastructure/redis/order/order_rate_limiter.go, called again and
-- again within one window.
use spot_order_grpc.Prelude.{
  ℕ, zero, suc, ◌+◌, ◌-◌, ◌<◌, min, ◌≡◌, ◌≢◌, refl, ap, ◌∙◌, inl, inr, Bool, true, false, none,
  some, arith, leb, ◌==◌, if◌then◌else◌, if_case, Option-cases,
}
use spot_order_grpc.Exec.{Result, ok, Sys, fine, call, pure}
use spot_order_grpc.Exec.Triple.{run-bind, run-call}
use spot_order_grpc.Redis.{Key, rate_key}
use spot_order_grpc.Order.Platform.{Data, RateLimit, Platform}
use spot_order_grpc.Order.Idempotency.{on_redis}
use spot_order_grpc.Order.Limiter.{rate_limit_script, allow}

abbrev one_if : Result Bool → ℕ
one_if (ok true) = 1
one_if _ = 0

module _ {S : Type 0} (p : Platform S) (limiter : RateLimit) (user_id : ℕ)
    (well : (n : ℕ) → p.env.fault n ≡ fine) (quiet : (n : ℕ) (d : Data S) → p.env.between n d ≡ d)
    (positive : 0 < limiter.window_ms)
    (number : (s : S) → p.redis.incr s (rate_key limiter.prefix user_id) ≢ none) where
  abbrev key : Key
  key = rate_key limiter.prefix user_id

  abbrev after : ℕ → S → S
  after n s = if n == 1 then p.redis.pexpire s key limiter.window_ms else s

  count_after : (n : ℕ) (s : S) → p.redis.count (after n s) key ≡ p.redis.count s key
  count_after n s =
      if_case (λ (x : S). p.redis.count x key ≡ p.redis.count s key) (n == 1) _ _
        (λ _. p.redis.count-pexpire s key key limiter.window_ms positive) (λ _. refl)

  abbrev next : Sys (Data S) → S → Sys (Data S)
  next s x = record s { tick = suc s.tick; state = record s.state { redis = x } }

  counted_lem :
      (s : Sys (Data S)) (n : ℕ) (x : S)
      → p.redis.incr s.state.redis key ≡ some (n, x)
      → call p.env (on_redis (rate_limit_script p.redis key limiter.window_ms)) s
        ≡ (ok n, next s (after n x))
  unfolding rate_limit_script
  counted_lem s n x found =
      run-call p.env _ s (well s.tick)
      ∙ rw (quiet s.tick s.state) (rw (found, rate_limit_script) refl)

  nonzero : (limiter.window_ms == 0) ≡ false
  nonzero = ground arith

  allow_lem :
      (s : Sys (Data S)) (n : ℕ) (x : S)
      → p.redis.incr s.state.redis key ≡ some (n, x)
      → allow p limiter user_id s ≡ (ok (leb n limiter.limit), next s (after n x))
  unfolding allow pure
  allow_lem s n x found =
      rw (nonzero, allow) (run-bind _ _ s (next s (after n x)) n (counted_lem s n x found))

  -- The answers of so many calls, and how many of them let the call through.
  abbrev pub admitted : ℕ → Sys (Data S) → ℕ
  admitted zero s = 0
  admitted (suc calls) s =
      let rest = admitted calls (allow p limiter user_id s).1 in
      one_if (allow p limiter user_id s).0 + rest

  one_if_lem : (n m c : ℕ) → one_if (ok (leb (c + 1) m)) + min n (m - (c + 1)) ≡ min (suc n) (m - c)
  one_if_lem n m c = ground arith

  step_lem :
      (calls : ℕ) (s : Sys (Data S)) (n : ℕ) (x : S)
      → p.redis.incr s.state.redis key ≡ some (n, x)
      → ((t : Sys (Data S))
          → admitted calls t ≡ min calls (limiter.limit - p.redis.count t.state.redis key))
      → admitted (suc calls) s ≡ min (suc calls) (limiter.limit - p.redis.count s.state.redis key)
  step_lem calls s n x found ih =
      let counts : n ≡ p.redis.count s.state.redis key + 1 = p.redis.incr-count _ _ n x found in
      let after_call : p.redis.count (after n x) key ≡ n =
        count_after n x ∙ p.redis.count-incr _ _ n x found in
      ap (λ (out : Result Bool × Sys (Data S)). one_if out.0 + admitted calls out.1)
        (allow_lem s n x found)
      ∙ (ap (λ k. one_if (ok (leb n limiter.limit)) + k) (ih (next s (after n x)))
          ∙ (ap (λ k. one_if (ok (leb n limiter.limit)) + min calls (limiter.limit - k)) after_call
              ∙ (ap (λ k. one_if (ok (leb k limiter.limit)) + min calls (limiter.limit - k)) counts
                  ∙ one_if_lem calls limiter.limit (p.redis.count s.state.redis key))))

  -- Where no call fails, nobody else touches the data, the window is longer than 0 and INCR of the
  -- key is never refused: of any number of calls within a window in which some have been counted, as
  -- many are let through as the limit has left.
  pub admitted_lem :
      (calls : ℕ) (s : Sys (Data S))
      → admitted calls s ≡ min calls (limiter.limit - p.redis.count s.state.redis key)
  admitted_lem zero s = omega arith
  admitted_lem (suc calls) s = elim (Option-cases (p.redis.incr s.state.redis key)) [
    | inl absent ↦ absurd (number s.state.redis absent)
    | inr ((n, x), found) ↦ step_lem calls s n x found (admitted_lem calls)
  ]
