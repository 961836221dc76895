-- ===== src/Order/Orders.antt =====
-- orderService/internal/infrastructure/postgres/order/order_store.go, the INSERT of
-- orderService/internal/infrastructure/postgres/outbox/outbox_store.go, and
-- orderService/internal/services/producer/order_producer.go. A statement of a transaction adds to
-- the writes that its commit will make. A constraint's violation other than of a key, a row that
-- cannot be scanned and the like are failures of the call.
pub mod Cancel
use spot_order_grpc.Prelude.{
  ℕ, String, Bool, true, false, ◌&&◌, ◌||◌, Option, none, some, List, [], ◌∷◌, ◌++◌, map, ltb, leb,
  ◌==◌, str_eq, if◌then◌else◌,
}
use spot_order_grpc.Exec.{Result, ok, err, Exec, call, ◌>>=◌, read_clock, new_uuid, ignore_error}
use spot_order_grpc.Domain.Error.{not_found, already_exists, other}
use spot_order_grpc.Domain.Status.{
  OrderType, type_unspecified, limit, market, stop_loss, take_profit, created, pending, cancelled,
}
use spot_order_grpc.Order.Model.{
  Decimal, Order, OrderCreatedEvent, OrderStatusUpdatedEvent, Payload, order_created,
  order_status_updated, OutboxEvent, OutboxEventStatus, Db,
}
use spot_order_grpc.Order.Platform.{Data, Platform}

-- int16(orderType)
unfoldable pub type_code : OrderType → ℕ
type_code type_unspecified = 0
type_code limit = 1
type_code market = 2
type_code stop_loss = 3
type_code take_profit = 4

unfoldable pub has_id : ℕ → List Order → Bool
has_id id [] = false
has_id id (o ∷ os) = o.id == id || has_id id os

-- INSERT INTO orders
unfoldable pub add_order : Order → Db → Db
add_order o db = record db { orders = db.orders ++ o ∷ [] }

-- INSERT INTO outbox
unfoldable pub add_outbox : OutboxEvent → Db → Db
add_outbox e db = record db { outbox = db.outbox ++ e ∷ [] }

-- UPDATE orders SET status = cancelled WHERE market_id = $1 AND status IN (created, pending)
unfoldable pub is_active : Order → Bool
is_active o = elim o.status [ created ↦ true | pending ↦ true | _ ↦ false ]

unfoldable pub cancel_order : ℕ → Order → Order
unfolding is_active
cancel_order market_id o =
    if o.market_id == market_id && is_active o then record o { status = cancelled } else o

unfoldable pub cancel_active : ℕ → Db → Db
unfolding cancel_order
cancel_active market_id db = record db { orders = map (cancel_order market_id) db.orders }

-- RETURNING id
unfoldable pub cancelled_ids : ℕ → List Order → List ℕ
unfolding is_active
cancelled_ids market_id [] = []
cancelled_ids market_id (o ∷ os) =
    let rest = cancelled_ids market_id os in
    if o.market_id == market_id && is_active o then o.id ∷ rest else rest

-- The parameters of CreateOrder.
pub record Request : Type 0 where
  pub user_id : ℕ
  pub market_id : ℕ
  pub order_type : OrderType
  pub price : Decimal
  pub quantity : ℕ

-- The WHERE clause of FindOrderForIdempotencyRecovery
unfoldable pub is_recoverable : Request → ℕ → Order → Bool
unfolding type_code
is_recoverable q started_at o =
    o.user_id == q.user_id
    && (o.market_id == q.market_id
        && (type_code o.type == type_code q.order_type
            && (str_eq o.price.value q.price.value
                && (o.quantity == q.quantity && leb started_at o.created_at))))

-- ORDER BY created_at, id
abbrev comes_first : Order → Order → Bool
comes_first a b = ltb a.created_at b.created_at || (a.created_at == b.created_at && leb a.id b.id)

abbrev first_of_two : Order → Option Order → Order
first_of_two o none = o
first_of_two o (some p) = if comes_first o p then o else p

-- ... LIMIT 1
unfoldable pub find_recoverable : Request → ℕ → List Order → Option Order
unfolding is_recoverable
find_recoverable q started_at [] = none
find_recoverable q started_at (o ∷ os) =
    let rest = find_recoverable q started_at os in
    if is_recoverable q started_at o then some (first_of_two o rest) else rest

unfoldable pub find_order : ℕ → ℕ → List Order → List Order
find_order id user_id [] = []
find_order id user_id (o ∷ os) =
    let rest = find_order id user_id os in
    if o.id == id && o.user_id == user_id then o ∷ rest else rest

-- pgx.CollectExactlyOneRow
unfoldable pub exactly_one : List Order → Result Order
exactly_one [] = err (not_found 0)
exactly_one (o ∷ []) = ok o
exactly_one (o ∷ p ∷ os) = err (other "too many rows")

abbrev row_or_not_found : Option Order → Result Order
row_or_not_found none = err (not_found 0)
row_or_not_found (some o) = ok o

module _ {S : Type 0} (p : Platform S) where
  open p use {env}

  -- (o *OrderStore) SaveOrder
  unfoldable pub save_order_row : Order → Exec (Data S) Unit
  save_order_row o = call env (λ d.
      if has_id o.id (d.tx d.db).orders
      then (err (already_exists 0), d)
      else (ok tt, record d { tx = λ db. add_order o (d.tx db) }))

  -- (o *OrderStore) GetOrder
  unfoldable pub get_order : ℕ → ℕ → Exec (Data S) Order
  unfolding find_order exactly_one
  get_order id user_id = call env (λ d. (exactly_one (find_order id user_id d.db.orders), d))

  -- (o *OrderStore) CancelActiveOrdersByMarket
  unfoldable pub cancel_active_orders_by_market : ℕ → Exec (Data S) (List ℕ)
  cancel_active_orders_by_market market_id = call env (λ d. (
    ok (cancelled_ids market_id (d.tx d.db).orders),
    record d { tx = λ db. cancel_active market_id (d.tx db) },
  ))

  -- (o *OrderStore) FindOrderForIdempotencyRecovery
  unfoldable pub find_order_for_idempotency_recovery : Request → ℕ → Exec (Data S) Order
  find_order_for_idempotency_recovery q started_at =
      call env (λ d. (row_or_not_found (find_recoverable q started_at d.db.orders), d))

  -- (s *OutboxStore) SaveOutboxEvent
  unfoldable pub save_outbox_event : OutboxEvent → Exec (Data S) Unit
  save_outbox_event e = call env (λ d. (ok tt, record d { tx = λ db. add_outbox e (d.tx db) }))

-- buildOrderCreatedOutboxEvent and buildOrderStatusUpdatedOutboxEvent, with the columns that the
-- INSERT sets.
unfoldable pub outbox_event : ℕ → ℕ → String → ℕ → Payload → ℕ → OutboxEvent
outbox_event id event_id event_type aggregate_id payload now = record {
  id = id;
  event_id = event_id;
  event_type = event_type;
  aggregate_id = aggregate_id;
  payload = payload;
  status = OutboxEventStatus.pending;
  retry_count = 0;
  available_at = now;
  created_at = now;
  published_at = none;
  failed_at = none;
  locked_at = none;
  last_error = none;
}

abbrev pub order_created_type : String
order_created_type = "order.created"

abbrev pub order_status_updated_type : String
order_status_updated_type = "order.status.updated"

module _ {S : Type 0} (p : Platform S) where
  open p use {env, clock, uuids}

  unfoldable pub produce_order_created : OrderCreatedEvent → Exec (Data S) Unit
  unfolding outbox_event save_outbox_event
  produce_order_created event = do
    id ← new_uuid uuids
    now ← read_clock clock
    save_outbox_event p
        (outbox_event id event.event_id order_created_type event.order_id (order_created event) now)

  unfoldable pub produce_order_status_updated : OrderStatusUpdatedEvent → Exec (Data S) Unit
  unfolding outbox_event save_outbox_event
  produce_order_status_updated event = do
    id ← new_uuid uuids
    now ← read_clock clock
    save_outbox_event p (
        outbox_event id event.event_id order_status_updated_type event.order_id
          (order_status_updated event) now)

  -- pgx: Begin, Commit, and the deferred Rollback, whose error is only logged.
  unfoldable pub begin : Exec (Data S) Unit
  begin = call env (λ d. (ok tt, record d { tx = λ db. db }))

  unfoldable pub commit_transaction : Exec (Data S) Unit
  commit_transaction = call env (λ d. (ok tt, record d { db = d.tx d.db; tx = λ db. db }))

  unfoldable pub rollback_transaction : Exec (Data S) Unit
  rollback_transaction = ignore_error (call env (λ d. (ok tt, record d { tx = λ db. db })))
