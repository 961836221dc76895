-- ===== src/Tests/Compensation.antt =====
-- Deliveries of a market's change at concrete tables: the market of three orders, of which one is active,
-- is disabled.
use spot_order_grpc.Prelude.{ℕ, ◌≡◌, refl, ◌⊎◌, false, none, some, [], ◌∷◌, arith}
use spot_order_grpc.Exec.{Result, ok, Sys, lost_reply, lost_request, Fault}
use spot_order_grpc.Domain.Error.{canceled}
use spot_order_grpc.Order.Model.{MarketStateChangedEvent, InboxEvent, processed}
use spot_order_grpc.Order.Platform.{Data}
use spot_order_grpc.Order.Inbox.{status_of, is_for, may_start}
use spot_order_grpc.Order.Inbox.Rows.{IsSettled}
use spot_order_grpc.Order.Compensation.{process_market_state_changed}
use spot_order_grpc.Order.Compensation.Delivered.{IsDone, IsNoted}
use spot_order_grpc.Order.Compensation.Once.{
  process_atomic, process_redelivered, process-IsSettled, process_once, process_delivers,
}
use spot_order_grpc.Tests.Memory.{Memory}
use spot_order_grpc.Tests.Setup.{platform, well, failing_at, start}
use spot_order_grpc.Tests.Cancel.{three_orders}

abbrev disabled_market : MarketStateChangedEvent
disabled_market = record {
  event_id = 40;
  market_id = 7;
  enabled = false;
  deleted_at = none;
  updated_at = 90000000000000000000;
}

abbrev pub with_orders : Sys (Data Memory)
with_orders = record start { state = record (start.state) { db = three_orders } }

abbrev processed_row : InboxEvent
processed_row = record {
  id = 1;
  event_id = 40;
  topic = "market";
  consumer_group = "orders";
  payload = "";
  status = processed;
  received_at = 1;
  processed_at = some 2;
  failed_at = none;
  error_message = none;
}

abbrev redelivered : Sys (Data Memory)
redelivered = record start {
  state = record (start.state) { db = record three_orders { inbox = processed_row ∷ [] } };
}

abbrev run : (ℕ → Fault) → Sys (Data Memory) → Result Unit × Sys (Data Memory)
run faults s =
    process_market_state_changed (platform faults) (λ e. "failed") "market" "orders" ""
      disabled_market s

process_atomic_example :
    ((run (failing_at 4 (lost_reply canceled)) with_orders).1.state.db ≡ three_orders)
    ⊎ (IsNoted "orders" disabled_market three_orders
          (run (failing_at 4 (lost_reply canceled)) with_orders).1.state.db
        ⊎ IsDone "orders" disabled_market three_orders
            (run (failing_at 4 (lost_reply canceled)) with_orders).1.state.db)
process_atomic_example =
    process_atomic (platform (failing_at 4 (lost_reply canceled))) (λ e. "failed") "market" "orders"
      "" disabled_market (λ n d. refl) with_orders

process_redelivered_example :
    (run (failing_at 1 (lost_request canceled)) redelivered).1.state.db ≡ redelivered.state.db
unfolding status_of is_for
process_redelivered_example =
    process_redelivered (platform (failing_at 1 (lost_request canceled))) (λ e. "failed") "market"
      "orders" "" disabled_market (λ n d. refl) redelivered refl

process-IsSettled_example :
    IsSettled (run (failing_at 2 (lost_request canceled)) with_orders).1.state.db.inbox
process-IsSettled_example =
    process-IsSettled (platform (failing_at 2 (lost_request canceled))) (λ e. "failed") "market"
      "orders" "" disabled_market (λ n d. refl) with_orders tt

process_delivers_example :
    ((run well with_orders).0 ≡ ok tt)
    × IsDone "orders" disabled_market three_orders (run well with_orders).1.state.db
unfolding status_of may_start
process_delivers_example =
    process_delivers (platform well) (λ e. "failed") "market" "orders" "" disabled_market
      (λ n d. refl) (λ n. refl) with_orders (omega arith) refl

process_once_example :
    (status_of 40 "orders" (run well with_orders).1.state.db.inbox ≡ some processed)
    × ((run well (run well with_orders).1).1.state.db ≡ (run well with_orders).1.state.db)
process_once_example =
    process_once (platform well) (λ e. "failed") "market" "orders" "" disabled_market (λ n d. refl)
      with_orders (run well with_orders).1 tt process_delivers_example.0 refl
