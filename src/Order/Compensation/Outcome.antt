-- ===== src/Order/Compensation/Outcome.antt =====
-- What orderService/internal/services/order/compensation_service.go may make of the committed tables,
-- said without its steps.
use spot_order_grpc.Prelude.{
  ℕ, String, ◌≡◌, ◌≢◌, true, false, some, List, [], ◌∷◌, ◌++◌, map, length, select, if◌then◌else◌,
}
use spot_order_grpc.Exec.{fine}
use spot_order_grpc.Domain.Error.{Error}
use spot_order_grpc.Domain.Status.{cancelled}
use spot_order_grpc.Order.Model.{
  MarketStateChangedEvent, OrderStatusUpdatedEvent, InboxEvent, InboxEventStatus, processing,
  failed, Db, OutboxEvent, OutboxEventStatus, order_status_updated,
}
use spot_order_grpc.Order.Platform.{Data, Platform}
use spot_order_grpc.Order.Orders.{cancel_active, cancelled_ids, order_status_updated_type}
use spot_order_grpc.Order.Inbox.{
  status_of, upsert, restart_row, may_start, fail_row, may_fail, mark_row, is_in_progress, on_inbox,
}
use spot_order_grpc.Order.Compensation.{is_available}

-- The outbox row that announces that an order was cancelled because of a change of its market.
pub record AnnouncesCancelled (event : MarketStateChangedEvent) (order_id : ℕ) (e : OutboxEvent)
    : Type 0 where
  pub event_type : e.event_type ≡ order_status_updated_type
  pub aggregate : e.aggregate_id ≡ order_id
  pub status : e.status ≡ OutboxEventStatus.pending
  pub message :
      (ev : OrderStatusUpdatedEvent) × (e.payload ≡ order_status_updated ev)
      × (ev.order_id ≡ order_id)
      × (ev.new_status ≡ cancelled)
      × (ev.correlation_id ≡ event.event_id)

-- One row for each order, in the same order.
abbrev pub AnnounceAll : MarketStateChangedEvent → List ℕ → List OutboxEvent → Type 0
AnnounceAll event [] [] = Unit
AnnounceAll event (id ∷ ids) (e ∷ es) = AnnouncesCancelled event id e × AnnounceAll event ids es
AnnounceAll event _ _ = ⊥

abbrev pub add_rows : List OutboxEvent → Db → Db
add_rows es db = record db { outbox = db.outbox ++ es }

-- The writes before the event is marked, to the tables in which its row has been started.
abbrev pub Cancelled : MarketStateChangedEvent → Db → Db → Type 0
Cancelled event old new =
    if is_available event
    then new ≡ old
    else (es : List OutboxEvent) × AnnounceAll event (cancelled_ids event.market_id old.orders) es
      × (new ≡ add_rows es (cancel_active event.market_id old))

-- The inbox rows that the INSERTs write for the event.
pub record IsRowOf (state : InboxEventStatus) (group : String) (event : MarketStateChangedEvent)
    (row : InboxEvent) : Type 0 where
  pub event_id : row.event_id ≡ event.event_id
  pub consumer_group : row.consumer_group ≡ group
  pub state_is : row.status ≡ state

abbrev pub start_row : InboxEvent → Db → Db
start_row row db = on_inbox (upsert (restart_row row) row) db

module _ (group : String) (event : MarketStateChangedEvent) where
  -- The event has been applied and marked.
  abbrev pub Applied : Db → Db → Type 0
  Applied old new =
      (row : InboxEvent) × (now : ℕ) × (mid : Db) × IsRowOf processing group event row
      × (may_start (status_of event.event_id group old.inbox) ≡ true)
      × Cancelled event (start_row row old) mid
      × (new ≡ on_inbox (map (mark_row event.event_id group now)) mid)

  -- Its failure has been recorded, and nothing else.
  abbrev pub Recorded : Db → Db → Type 0
  Recorded old new =
      (row : InboxEvent) × IsRowOf failed group event row
      × (may_fail (status_of event.event_id group old.inbox) ≡ true)
      × (new ≡ on_inbox (upsert (fail_row row) row) old)

  -- It need not be applied: it has a row that is not failed.
  abbrev pub Skipped : Db → Db → Type 0
  Skipped old new =
      (new ≡ old)
      × (status : InboxEventStatus) × (status_of event.event_id group old.inbox ≡ some status)
      × (may_start (some status) ≡ false)

-- One delivery of an event, to tables that nobody else writes to meanwhile. What `Allowed` stands for
-- holds when a call fails, or when not one row is in progress once the event's row has been started.
pub record Delivery (S : Type 0) : Type 1 where
  pub platform : Platform S
  pub error_text : Error → String
  pub topic : String
  pub group : String
  pub raw : String
  pub event : MarketStateChangedEvent
  pub old : Db
  pub quiet : (n : ℕ) (d : Data S) → (platform.env.between n d).db ≡ d.db
  pub Allowed : Type 0
  pub faulty : (n : ℕ) → platform.env.fault n ≢ fine → Allowed
  pub miscount :
      (row : InboxEvent)
      → IsRowOf processing group event row
      → may_start (status_of event.event_id group old.inbox) ≡ true
      → length
          (select (is_in_progress event.event_id group) (upsert (restart_row row) row old.inbox))
        ≢ 1
      → Allowed
