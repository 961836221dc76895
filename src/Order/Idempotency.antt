-- ===== src/Order/Idempotency.antt =====
-- orderService/internal/services/order/idempotency_service.go,
-- orderService/internal/infrastructure/redis/idempotency/idempotency_store.go and
-- orderService/internal/application/order/idempotency_adapter.go: one key of Redis for each
-- request of a user says whether the request is being processed or is completed.
use Prim.Native.String.{◌++◌}
use spot_order_grpc.Prelude.{
  ℕ, zero, suc, String, Bool, true, false, not, Option, none, some, if◌then◌else◌, ◌==◌, str_eq,
  on_option,
}
use spot_order_grpc.Exec.{
  Result, ok, err, Exec, pure, raise, call, ◌>>=◌, ◌>>◌, attempt, ignore_error, read_clock,
}
use spot_order_grpc.Redis.{Key, idem_key, no_key, no_expiry, left, Redis, try_set_px}
use spot_order_grpc.Domain.Error.{Error, cache_not_found, order_processing, other}
use spot_order_grpc.Domain.Status.{OrderType, OrderStatus, type_string, status_string, from_string}
use spot_order_grpc.Order.Model.{Decimal}
use spot_order_grpc.Order.Platform.{Data, Entry, Platform}

abbrev pub status_processing : String
status_processing = "processing"

abbrev pub status_completed : String
status_completed = "completed"

unfoldable pub is_completed : Entry → Bool
is_completed e = str_eq e.status status_completed

unfoldable pub is_processing : Entry → Bool
is_processing e = str_eq e.status status_processing

abbrev pub script_error : Error
script_error = other "ERR invalid expire time in 'set' command"

-- A script's run: what it answers and what it leaves in Redis.
abbrev pub on_redis : {S A : Type 0} → (S → Result A × S) → Data S → Result A × Data S
on_redis f d = let (r, s) = f d.redis in (r, record d { redis = s })

module _ {S : Type 0} (r : Redis S) where
  abbrev pub or_refused : {A : Type 0} → A → S → Option S → Result A × S
  or_refused a s none = (err script_error, s)
  or_refused a s (some s') = (ok a, s')

  -- acquireScript: the value that the key has, or "" and the key is set.
  unfoldable pub acquire_script : Key → String → ℕ → S → Result String × S
  acquire_script key value ttl_ms s = elim (r.get s key) [
    | some existing ↦ (ok existing, s)
    | none ↦ or_refused "" s (try_set_px r s key value ttl_ms)
  ]

  -- completeScript: 0 if the key is gone; the new value keeps the time to live that is left.
  unfoldable pub complete_script : Key → String → S → Result ℕ × S
  complete_script key new_value s = elim (r.pttl s key) [
    | no_key ↦ (ok 0, s)
    | no_expiry ↦ (ok 1, r.set s key new_value)
    | left pttl ↦ or_refused 1 s (try_set_px r s key new_value pttl)
  ]

  -- cache.Store's SetWithTTL and Delete
  unfoldable pub set_with_ttl : Key → String → ℕ → S → Result Unit × S
  set_with_ttl key value ttl_ms s = or_refused tt s (try_set_px r s key value ttl_ms)

  unfoldable pub delete : Key → S → Result Unit × S
  delete key s = (ok tt, r.del s key)

abbrev is_cache_not_found : Error → Bool
is_cache_not_found cache_not_found = true
is_cache_not_found _ = false

-- The error of the delete that is not `ErrCacheNotFound`.
abbrev delete_error : Result Unit → Option Error
delete_error (ok _) = none
delete_error (err e) = if is_cache_not_found e then none else some e

-- the entry that acquire writes
unfoldable pub new_entry : String → ℕ → Entry
new_entry request_hash now = record {
  status = status_processing;
  request_hash = request_hash;
  started_at = now;
  order_id = 0;
  order_status = "";
}

abbrev zero_entry : Entry
zero_entry = record {
  status = "";
  request_hash = "";
  started_at = 0;
  order_id = 0;
  order_status = "";
}

unfoldable pub completed_entry : String → ℕ → String → Entry
completed_entry request_hash order_id order_status = record {
  status = status_completed;
  request_hash = request_hash;
  started_at = 0;
  order_id = order_id;
  order_status = order_status;
}

module _ {S : Type 0} (p : Platform S) where
  open p use {redis as r, env, config}

  -- (s *Store) acquire, with what is done once a corrupted entry is deleted.
  unfoldable pub acquire_or :
      Exec (Data S) (Entry × Bool) → ℕ → String → Exec (Data S) (Entry × Bool)
  unfolding new_entry acquire_script delete
  acquire_or again user_id request_hash = do
    let key = idem_key user_id request_hash
    now ← read_clock p.clock
    raw ← call env (
        on_redis (
          acquire_script r key (p.marshal_entry (new_entry request_hash now))
            config.idempotency_ttl_ms))
    if str_eq raw ""
        then pure (zero_entry, true)
        else on_option (p.unmarshal_entry raw)
            (attempt (call env (on_redis (delete r key)))
              (λ deleted. on_option (delete_error deleted) again raise))
            (λ existing. pure (existing, false))

  -- One retry: the second time, `retriedAfterCleanup` is true.
  unfoldable pub store_acquire : ℕ → String → Exec (Data S) (Entry × Bool)
  unfolding acquire_or
  store_acquire user_id request_hash =
      acquire_or
        (acquire_or (raise (other "corrupted entry after cleanup retry")) user_id request_hash)
        user_id request_hash

  -- (s *Store) Complete: a key that is gone is set anew.
  unfoldable pub store_complete : ℕ → String → ℕ → String → Exec (Data S) Unit
  unfolding completed_entry complete_script set_with_ttl
  store_complete user_id request_hash order_id order_status = do
    let key = idem_key user_id request_hash
    let value = p.marshal_entry (completed_entry request_hash order_id order_status)
    result ← call env (on_redis (complete_script r key value))
    if result == 0
        then call env (on_redis (set_with_ttl r key value config.idempotency_ttl_ms))
        else pure tt

  -- (s *Store) FailCleanup
  unfoldable pub store_fail_cleanup : ℕ → String → Exec (Data S) Unit
  unfolding delete
  store_fail_cleanup user_id request_hash =
      call env (on_redis (delete r (idem_key user_id request_hash)))

pub record IdempotencyResult : Type 0 where
  pub is_completed : Bool
  pub is_processing : Bool
  pub started_at : ℕ
  pub order_id : ℕ
  pub order_status : String

-- (a *redisIdempotencyAdapter) Acquire, the entry's part
unfoldable pub adapt : Entry → IdempotencyResult
unfolding is_completed is_processing
adapt e = record {
  is_completed = is_completed e;
  is_processing = is_processing e;
  started_at = e.started_at;
  order_id = e.order_id;
  order_status = e.order_status;
}

-- (s *IdempotencyService) checkIdempotencyResult
unfoldable pub check_idempotency_result : IdempotencyResult → Result (ℕ × OrderStatus)
check_idempotency_result result =
    if result.is_completed
    then ok (result.order_id, from_string result.order_status)
    else if result.is_processing
    then err order_processing
    else err (other "unknown idempotency state")

module _ {S : Type 0} (p : Platform S) where
  open p use {env, config}

  unfoldable pub build_request_hash : ℕ → OrderType → Decimal → ℕ → String
  build_request_hash market_id order_type price quantity = p.sha256_hex (
      p.uuid_string market_id
      ++ "|"
      ++ type_string order_type
      ++ "|"
      ++ price.value
      ++ "|"
      ++ p.format_int quantity)

  unfoldable pub acquire : ℕ → String → Exec (Data S) (IdempotencyResult × Bool)
  unfolding store_acquire adapt
  acquire user_id request_hash = do
    (entry, acquired) ← store_acquire p user_id request_hash
    pure (adapt entry, acquired)

  -- `ctx.Err()`, and the wait for the timer or for `ctx.Done()`: whether the context has ended by
  -- then is up to the surroundings.
  unfoldable pub check_context : Exec (Data S) Unit
  check_context = call env (λ d. (ok tt, d))

  -- The loop of completeIdempotencyChecking with that many attempts left and the last error.
  unfoldable pub complete_loop : ℕ → Option Error → ℕ → ℕ → String → String → Exec (Data S) Unit
  unfolding store_complete check_context
  complete_loop zero none user_id order_id request_hash order_status = pure tt
  complete_loop zero (some last_error) user_id order_id request_hash order_status = raise last_error
  complete_loop (suc n) last user_id order_id request_hash order_status =
      check_context
      >> attempt (store_complete p user_id request_hash order_id order_status) (λ completed.
        elim completed [
          | ok _ ↦ pure tt
          | err e ↦
              (if n == 0 then pure tt else check_context)
              >> complete_loop n (some e) user_id order_id request_hash order_status
        ])

  unfoldable pub complete_idempotency_checking : ℕ → ℕ → String → OrderStatus → Exec (Data S) Unit
  unfolding complete_loop
  complete_idempotency_checking user_id order_id request_hash order_status =
      complete_loop config.complete_attempts none user_id order_id request_hash
        (status_string order_status)

  -- failCleanup: an error of the adapter is only logged.
  unfoldable pub fail_cleanup : ℕ → String → Bool → Exec (Data S) Unit
  unfolding store_fail_cleanup
  fail_cleanup user_id request_hash acquired =
      if not acquired then pure tt else ignore_error (store_fail_cleanup p user_id request_hash)
