-- ===== src/Order/Create.antt =====
-- orderService/internal/services/order/order_service.go: CreateOrder, GetOrderStatus and what they
-- call. The order of the calls, the early returns and the deferred clean-ups are the source's;
-- logging, tracing and metrics are left out.
pub mod Frame
pub mod Safety
pub mod Atomic
pub mod Repeat
pub mod Key
pub mod Twice
use spot_order_grpc.Prelude.{
  ℕ, zero, suc, String, Bool, true, false, not, ◌||◌, Option, none, some, List, [], ◌∷◌, ◌++◌,
  length, ltb, leb, ◌==◌, if◌then◌else◌,
}
use spot_order_grpc.Exec.{
  Result, ok, err, Exec, pure, raise, lift, call, ◌>>=◌, ◌>>◌, attempt, on_error, ignore_error,
  read_clock, new_uuid, local,
}
use spot_order_grpc.Domain.Error.{
  Error, not_found, already_exists, market_not_found, disabled, order_processing, canceled,
  deadline_exceeded, other,
}
use spot_order_grpc.Domain.Status.{OrderStatus, created}
use spot_order_grpc.Order.Model.{Market, Order, OrderCreatedEvent}
use spot_order_grpc.Order.Platform.{MarketBlockTask, Data, Platform}
use spot_order_grpc.Order.Idempotency.{
  IdempotencyResult, check_idempotency_result, build_request_hash, acquire,
  complete_idempotency_checking, fail_cleanup,
}
use spot_order_grpc.Order.Orders.{
  Request, save_order_row, get_order, find_order_for_idempotency_recovery, produce_order_created,
  begin, commit_transaction, rollback_transaction,
}
use spot_order_grpc.Order.Block.{is_blocked}
use spot_order_grpc.Order.Limiter.{check_rate_limit}

abbrev pub market_block_queue_size : ℕ
market_block_queue_size = 128

-- buildOrder
unfoldable pub build_order : Request → ℕ → ℕ → Order
build_order q id now = record {
  id = id;
  user_id = q.user_id;
  market_id = q.market_id;
  type = q.order_type;
  price = q.price;
  quantity = q.quantity;
  status = created;
  created_at = now;
}

-- buildOrderCreatedEvent
unfoldable pub build_order_created_event : Order → ℕ → ℕ → OrderCreatedEvent
build_order_created_event o event_id now = record {
  event_id = event_id;
  order_id = o.id;
  user_id = o.user_id;
  market_id = o.market_id;
  type = o.type;
  price = o.price;
  quantity = o.quantity;
  status = o.status;
  created_at = now;
}

abbrev is_context_error : Error → Bool
is_context_error canceled = true
is_context_error deadline_exceeded = true
is_context_error _ = false

-- errors.Is(err, ErrOrderNotFound) and errors.Is(err, ErrOrderAlreadyExists): any ID will do.
abbrev is_not_found : Error → Bool
is_not_found (not_found _) = true
is_not_found _ = false

abbrev if_already_exists : ℕ → Error → Error
if_already_exists id (already_exists _) = already_exists id
if_already_exists id e = e

abbrev pub is_some : {A : Type 0} → Option A → Bool
is_some none = false
is_some (some _) = true

module _ {S : Type 0} where
  -- synchronizeMarketBlockAsync: a send that does not wait; a full or closed queue drops the task.
  unfoldable pub synchronize_market_block_async : Market → Bool → String → Exec (Data S) Unit
  synchronize_market_block_async market blocked reason = local (λ d. (
    tt,
    if d.market_block_closed || leb market_block_queue_size (length d.market_block_queue)
        then d
        else record d {
          market_block_queue =
              d.market_block_queue
              ++ record { market = market; blocked = blocked; reason = reason } ∷ [];
        },
  ))

module _ {S : Type 0} (p : Platform S) where
  open p use {env, clock, uuids, config}

  -- The spot service's GetMarketByID, over gRPC.
  unfoldable pub view_market : ℕ → Exec (Data S) Market
  view_market market_id = call env (λ d. (d.spot market_id, d))

  -- getMarketBlockedState
  unfoldable pub get_market_blocked_state : ℕ → Exec (Data S) Bool
  get_market_blocked_state market_id = attempt (is_blocked p market_id) (λ blocked. elim blocked [
    | ok b ↦ pure b
    | err e ↦ if is_context_error e then raise e else pure false
  ])

  unfoldable pub validate_market : ℕ → Exec (Data S) Unit
  unfolding view_market get_market_blocked_state synchronize_market_block_async
  validate_market market_id = do
    blocked ← get_market_blocked_state market_id
    market ← view_market market_id
    if is_some market.deleted_at
        then synchronize_market_block_async market true "warm_block_after_deleted_recheck"
          >> raise (market_not_found market_id)
        else if not market.enabled
        then synchronize_market_block_async market true "warm_block_after_disabled_recheck"
          >> raise (disabled market_id)
        else if blocked
        then synchronize_market_block_async market false "remove_stale_block_after_recheck"
        else pure tt

  -- The body of saveOrder between Begin and the return; an error before the commit's success rolls
  -- back.
  unfoldable pub insert_and_commit : Order → OrderCreatedEvent → Exec (Data S) Unit
  insert_and_commit o event = attempt (save_order_row p o) (λ saved. elim saved [
    | err e ↦ raise (if_already_exists o.id e)
    | ok _ ↦ produce_order_created p event >> commit_transaction p
  ])

  unfoldable pub save_order : Request → Exec (Data S) (ℕ × OrderStatus)
  unfolding build_order build_order_created_event insert_and_commit
  save_order q = do
    now ← read_clock clock
    id ← new_uuid uuids
    event_id ← new_uuid uuids
    let o = build_order q id now
    begin p
    on_error (insert_and_commit o (build_order_created_event o event_id now))
        (rollback_transaction p)
    pure (o.id, o.status)

  -- tryRecoverOrderFromProcessing from the lookup of the order on; completeIdempotencySync only adds a
  -- timeout and a recovery from panics to completeIdempotencyChecking.
  unfoldable pub recover_started : Request → String → ℕ → Exec (Data S) (ℕ × OrderStatus)
  recover_started q request_hash started_at =
      attempt (find_order_for_idempotency_recovery p q started_at) (λ found. elim found [
        | err e ↦ raise (if is_not_found e then order_processing else e)
        | ok o ↦
            ignore_error (complete_idempotency_checking p q.user_id o.id request_hash o.status)
            >> pure (o.id, o.status)
      ])

  unfoldable pub try_recover_order_from_processing :
      Request → String → IdempotencyResult → Exec (Data S) (ℕ × OrderStatus)
  unfolding recover_started
  try_recover_order_from_processing q request_hash result =
      if result.started_at == 0
      then raise order_processing
      else recover_started q request_hash result.started_at

  unfoldable pub resolve_idempotent_request :
      Request → String → IdempotencyResult → Exec (Data S) (ℕ × OrderStatus)
  unfolding try_recover_order_from_processing
  resolve_idempotent_request q request_hash result =
      if result.is_completed
      then lift (check_idempotency_result result)
      else if not result.is_processing
      then raise (other "unknown idempotency state")
      else try_recover_order_from_processing q request_hash result

  -- CreateOrder once the request's key is this call's own.
  unfoldable pub create_acquired : Request → String → Exec (Data S) (ℕ × OrderStatus)
  unfolding validate_market save_order
  create_acquired q request_hash = do
    on_error (check_rate_limit p config.create_limit q.user_id)
        (fail_cleanup p q.user_id request_hash true)
    on_error (validate_market q.market_id) (fail_cleanup p q.user_id request_hash true)
    (id, status) ← on_error (save_order q) (fail_cleanup p q.user_id request_hash true)
    ignore_error (complete_idempotency_checking p q.user_id id request_hash status)
    pure (id, status)

  -- (s *OrderService) CreateOrder
  unfoldable pub create_order : Request → Exec (Data S) (ℕ × OrderStatus)
  unfolding resolve_idempotent_request create_acquired
  create_order q = do
    let request_hash = build_request_hash p q.market_id q.order_type q.price q.quantity
    (result, acquired) ← acquire p q.user_id request_hash
    if acquired
        then create_acquired q request_hash
        else resolve_idempotent_request q request_hash result

  -- (s *OrderService) GetOrderStatus, with fetchOrder
  unfoldable pub get_order_status : ℕ → ℕ → Exec (Data S) OrderStatus
  get_order_status order_id user_id = do
    check_rate_limit p config.get_limit user_id
    attempt (get_order p order_id user_id) (λ found. elim found [
      | err e ↦ raise (if is_not_found e then not_found order_id else e)
      | ok o ↦ pure o.status
    ])
