-- ===== src/Order/Compensation.antt =====
-- orderService/internal/services/order/compensation_service.go: a change of a market that makes it
-- unavailable cancels the active orders of the market and announces each, in the transaction that
-- marks the change as processed.
pub mod Outcome
pub mod Writes
pub mod Effect
pub mod Delivered
pub mod Once
use spot_order_grpc.Prelude.{
  ℕ, String, Bool, true, false, not, ◌&&◌, ◌||◌, Option, none, some, List, [], ◌∷◌, if◌then◌else◌,
}
use spot_order_grpc.Exec.{
  Result, ok, err, Exec, pure, raise, ◌>>=◌, ◌>>◌, attempt, on_error, ignore_error, read_clock,
  new_uuid,
}
use spot_order_grpc.Domain.Error.{Error}
use spot_order_grpc.Domain.Status.{cancelled}
use spot_order_grpc.Order.Model.{
  MarketStateChangedEvent, OrderStatusUpdatedEvent, InboxEvent, InboxEventStatus, processing,
  processed, failed,
}
use spot_order_grpc.Order.Platform.{Data, Platform}
use spot_order_grpc.Order.Orders.{
  cancel_active_orders_by_market, produce_order_status_updated, begin, commit_transaction,
  rollback_transaction,
}
use spot_order_grpc.Order.Inbox.{begin_processing, mark_processed, save_failed}
use spot_order_grpc.Order.Block.{synchronize_state}
use spot_order_grpc.Order.Create.{is_some}

-- event.Enabled && event.DeletedAt == nil
unfoldable pub is_available : MarketStateChangedEvent → Bool
is_available event = event.enabled && not (is_some event.deleted_at)

-- The row's other columns, of which Go's struct has the zero values, are set by the statements.
unfoldable pub build_inbox_event :
    ℕ → String → String → String → MarketStateChangedEvent → InboxEvent
build_inbox_event id topic consumer_group raw_payload event = record {
  id = id;
  event_id = event.event_id;
  topic = topic;
  consumer_group = consumer_group;
  payload = raw_payload;
  status = processing;
  received_at = 0;
  processed_at = none;
  failed_at = none;
  error_message = none;
}

unfoldable pub build_status_event : ℕ → ℕ → MarketStateChangedEvent → ℕ → OrderStatusUpdatedEvent
build_status_event id order_id event now = record {
  event_id = id;
  order_id = order_id;
  new_status = cancelled;
  reason = "market became unavailable";
  correlation_id = event.event_id;
  updated_at = now;
}

module _ {S : Type 0} (p : Platform S) where
  open p use {clock, uuids}

  unfoldable pub publish_cancelled_order_events :
      MarketStateChangedEvent → List ℕ → Exec (Data S) Unit
  unfolding build_status_event
  publish_cancelled_order_events event [] = pure tt
  publish_cancelled_order_events event (order_id ∷ ids) = do
    id ← new_uuid uuids
    now ← read_clock clock
    produce_order_status_updated p (build_status_event id order_id event now)
    publish_cancelled_order_events event ids

  unfoldable pub apply_compensation_transaction : MarketStateChangedEvent → Exec (Data S) Unit
  unfolding is_available publish_cancelled_order_events
  apply_compensation_transaction event =
      if is_available event
      then pure tt
      else cancel_active_orders_by_market p event.market_id
        >>= (λ ids. publish_cancelled_order_events event ids)

  -- trySynchronizeMarketBlockState and synchronizeMarketBlockState: an error is only logged.
  unfoldable pub try_synchronize_market_block_state : MarketStateChangedEvent → Exec (Data S) Unit
  try_synchronize_market_block_state event = ignore_error (
      synchronize_state p event.market_id (not event.enabled || is_some event.deleted_at)
        event.updated_at)

  -- After the commit, `switch currentStatus`.
  unfoldable pub resync_skipped : MarketStateChangedEvent → InboxEventStatus → Exec (Data S) Unit
  unfolding try_synchronize_market_block_state
  resync_skipped event processed = try_synchronize_market_block_state event
  resync_skipped event processing = try_synchronize_market_block_state event
  resync_skipped event failed = pure tt

  -- handleSkippedEvent, with the rollback that the caller's deferred function makes of its error.
  unfoldable pub handle_skipped_event :
      MarketStateChangedEvent → InboxEventStatus → Exec (Data S) Unit
  unfolding resync_skipped
  handle_skipped_event event current_status =
      on_error (commit_transaction p) (rollback_transaction p)
      >> resync_skipped event current_status

  -- The part that failProcessing records: an error of either is a failure of the event.
  unfoldable pub apply_and_mark : MarketStateChangedEvent → String → Exec (Data S) Unit
  unfolding apply_compensation_transaction
  apply_and_mark event consumer_group =
      apply_compensation_transaction event >> mark_processed p event.event_id consumer_group

-- What an error's text is, for the column error_message, is a parameter.
module _ {S : Type 0} (p : Platform S) (error_text : Error → String) where
  open p use {uuids}

  unfoldable pub fail_processing : InboxEvent → Error → Exec (Data S) Unit
  fail_processing inbox_event e =
      rollback_transaction p >> ignore_error (save_failed p inbox_event (error_text e)) >> raise e

  unfoldable pub process_begun :
      MarketStateChangedEvent → InboxEvent → Bool → InboxEventStatus → Exec (Data S) Unit
  unfolding handle_skipped_event apply_and_mark fail_processing
  process_begun event inbox_event should_process current_status =
      if not should_process
      then handle_skipped_event p event current_status
      else attempt (apply_and_mark p event inbox_event.consumer_group) (λ applied. elim applied [
        | err e ↦ fail_processing inbox_event e
        | ok _ ↦
            on_error (commit_transaction p) (rollback_transaction p)
            >> try_synchronize_market_block_state p event
      ])

  -- (s *CompensationService) ProcessMarketStateChanged
  unfoldable pub process_market_state_changed :
      String → String → String → MarketStateChangedEvent → Exec (Data S) Unit
  unfolding build_inbox_event process_begun
  process_market_state_changed topic consumer_group raw_payload event = do
    begin p
    id ← new_uuid uuids
    let inbox_event = build_inbox_event id topic consumer_group raw_payload event
    attempt (begin_processing p inbox_event) (λ begun. elim begun [
      | err e ↦ fail_processing inbox_event e
      | ok (should_process, current_status) ↦
          process_begun event inbox_event should_process current_status
    ])
