-- ===== src/Order/Compensation/Delivered.antt =====
-- What a delivery of a market's change (orderService/internal/services/order/compensation_service.go)
-- comes to, read off the tables before and after it.
use spot_order_grpc.Prelude.{
  ℕ, String, ◌≡◌, refl, sym, ap, ◌∙◌, inl, inr, true, some, List, [], ◌++◌, map, if◌then◌else◌,
  Bool-cases,
}
use mathlib.Core.List.{append-nil}
use spot_order_grpc.Order.Model.{
  MarketStateChangedEvent, InboxEvent, InboxEventStatus, processing, processed, failed, Db,
  OutboxEvent,
}
use spot_order_grpc.Order.Orders.{cancel_active, cancelled_ids}
use spot_order_grpc.Order.Inbox.{
  status_of, upsert, restart_row, may_start, fail_row, may_fail, mark_row,
}
use spot_order_grpc.Order.Inbox.Rows.{
  other_rows, own_key, restart_row-is_for, fail_row-is_for, other_rows-mark, other_rows-upsert,
  status_of-upsert, status_of-mark, IsSettled, IsSettled-start, IsSettled-fail,
}
use spot_order_grpc.Order.Compensation.{is_available}
use spot_order_grpc.Order.Compensation.Outcome.{
  AnnounceAll, Cancelled, IsRowOf, start_row, Applied, Recorded,
}

-- The orders that the event cancels.
abbrev pub cancelled_by : MarketStateChangedEvent → Db → List ℕ
cancelled_by event old = if is_available event then [] else cancelled_ids event.market_id old.orders

-- The event is done: its row is processed, the active orders of a market that has become unavailable
-- are cancelled, each of them with one outbox row, and no other row has changed.
pub record IsDone (group : String) (event : MarketStateChangedEvent) (old new : Db) : Type 0 where
  pub marked : status_of event.event_id group new.inbox ≡ some processed
  pub others : other_rows event.event_id group new.inbox ≡ other_rows event.event_id group old.inbox
  pub orders :
      new.orders
      ≡ (if is_available event then old.orders else (cancel_active event.market_id old).orders)
  pub announced :
      (es : List OutboxEvent) × AnnounceAll event (cancelled_by event old) es
      × (new.outbox ≡ old.outbox ++ es)

-- Only the failure is on record.
pub record IsNoted (group : String) (event : MarketStateChangedEvent) (old new : Db) : Type 0 where
  pub marked : status_of event.event_id group new.inbox ≡ some failed
  pub others : other_rows event.event_id group new.inbox ≡ other_rows event.event_id group old.inbox
  pub orders : new.orders ≡ old.orders
  pub outbox : new.outbox ≡ old.outbox

-- The row's key is the event's.
pub at_key :
    {state : InboxEventStatus} {group : String} {event : MarketStateChangedEvent} {row : InboxEvent}
    → (P : ℕ → String → Type 0) → IsRowOf state group event row
    → P row.event_id row.consumer_group
    → P event.event_id group
at_key P is_row h = rw (← is_row.event_id, ← is_row.consumer_group) h

restarted :
    (x r : InboxEvent) → may_start (some r.status) ≡ true → (restart_row x r).status ≡ processing
unfolding may_start restart_row
restarted x r h = rw h refl

refailed :
    (x r : InboxEvent)
    → x.status ≡ failed
    → may_fail (some r.status) ≡ true
    → (fail_row x r).status ≡ failed
unfolding may_fail fail_row
refailed x r e h = rw h refl

module _ (group : String) (event : MarketStateChangedEvent) (old : Db) where
  pub started_status :
      (row : InboxEvent)
      → IsRowOf processing group event row
      → may_start (status_of event.event_id group old.inbox) ≡ true
      → status_of event.event_id group (upsert (restart_row row) row old.inbox) ≡ some processing
  started_status row is_row may =
      at_key (λ i t. status_of i t (upsert (restart_row row) row old.inbox) ≡ some processing)
        is_row
        (status_of-upsert (restart_row row) row (own_key row)
          (restart_row-is_for row.event_id row.consumer_group row) processing may_start
          is_row.state_is (restarted row) old.inbox
          (rw (is_row.event_id, is_row.consumer_group) may))

  mid-inbox :
      (row : InboxEvent) (mid : Db)
      → Cancelled event (start_row row old) mid
      → mid.inbox ≡ upsert (restart_row row) row old.inbox
  unfolding cancel_active
  mid-inbox row mid = elim (Bool-cases (is_available event)) [
    | inl hit ↦ rw hit (λ h. ap (λ db. db.inbox) h)
    | inr miss ↦ rw miss (λ h. ap (λ db. db.inbox) h.2)
  ]

  mid-orders :
      (row : InboxEvent) (mid : Db)
      → Cancelled event (start_row row old) mid
      → mid.orders
        ≡ (if is_available event then old.orders else (cancel_active event.market_id old).orders)
  unfolding cancel_active
  mid-orders row mid = elim (Bool-cases (is_available event)) [
    | inl hit ↦ rw hit (λ h. ap (λ db. db.orders) h)
    | inr miss ↦ rw miss (λ h. ap (λ db. db.orders) h.2)
  ]

  mid-outbox :
      (row : InboxEvent) (mid : Db)
      → Cancelled event (start_row row old) mid
      → (es : List OutboxEvent) × AnnounceAll event (cancelled_by event old) es
        × (mid.outbox ≡ old.outbox ++ es)
  unfolding cancel_active
  mid-outbox row mid = elim (Bool-cases (is_available event)) [
    | inl hit ↦ rw hit (λ h. ([], tt, ap (λ db. db.outbox) h ∙ sym (append-nil old.outbox)))
    | inr miss ↦ rw miss (λ h. (h.0, h.1, ap (λ db. db.outbox) h.2))
  ]

  pub Applied-IsDone : (new : Db) → Applied group event old new → IsDone group event old new
  Applied-IsDone new (row, now, mid, is_row, may, cancels, e) = record {
    marked =
        ap (λ db. status_of event.event_id group db.inbox) e
        ∙ status_of-mark event.event_id group now mid.inbox (
            ap (status_of event.event_id group) (mid-inbox row mid cancels)
            ∙ started_status row is_row may);
    others =
        ap (λ db. other_rows event.event_id group db.inbox) e
        ∙ other_rows-mark event.event_id group now mid.inbox
        ∙ ap (other_rows event.event_id group) (mid-inbox row mid cancels)
        ∙ at_key
            (λ i t.
              other_rows i t (upsert (restart_row row) row old.inbox) ≡ other_rows i t old.inbox)
            is_row
            (other_rows-upsert (restart_row row) row (own_key row)
              (restart_row-is_for row.event_id row.consumer_group row) old.inbox);
    orders = ap (λ db. db.orders) e ∙ mid-orders row mid cancels;
    announced =
        let (es, announces, w) = mid-outbox row mid cancels in
        (es, announces, ap (λ db. db.outbox) e ∙ w);
  }

  pub Recorded-IsNoted : (new : Db) → Recorded group event old new → IsNoted group event old new
  Recorded-IsNoted new (row, is_row, may, e) = record {
    marked =
        ap (λ db. status_of event.event_id group db.inbox) e
        ∙ at_key (λ i t. status_of i t (upsert (fail_row row) row old.inbox) ≡ some failed) is_row
            (status_of-upsert (fail_row row) row (own_key row)
              (fail_row-is_for row.event_id row.consumer_group row) failed may_fail is_row.state_is
              (λ r h. refailed row r is_row.state_is h) old.inbox
              (rw (is_row.event_id, is_row.consumer_group) may));
    others =
        ap (λ db. other_rows event.event_id group db.inbox) e
        ∙ at_key
            (λ i t. other_rows i t (upsert (fail_row row) row old.inbox) ≡ other_rows i t old.inbox)
            is_row
            (other_rows-upsert (fail_row row) row (own_key row)
              (fail_row-is_for row.event_id row.consumer_group row) old.inbox);
    orders = ap (λ db. db.orders) e;
    outbox = ap (λ db. db.outbox) e;
  }

  -- No row is left in progress.
  pub Applied-IsSettled :
      (new : Db) → Applied group event old new → IsSettled old.inbox → IsSettled new.inbox
  Applied-IsSettled new (row, now, mid, is_row, may, cancels, e) h =
      rw (e, mid-inbox row mid cancels)
        (at_key (λ i t. IsSettled (map (mark_row i t now) (upsert (restart_row row) row old.inbox)))
          is_row (IsSettled-start row now old.inbox h))

  pub Recorded-IsSettled :
      (new : Db) → Recorded group event old new → IsSettled old.inbox → IsSettled new.inbox
  Recorded-IsSettled new (row, is_row, may, e) h =
      rw e (IsSettled-fail row is_row.state_is old.inbox h)
