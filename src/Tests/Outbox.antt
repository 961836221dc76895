-- ===== src/Tests/Outbox.antt =====
-- The outbox worker's theorems at concrete inputs: two rows, the first of which cannot be sent.
use spot_order_grpc.Prelude.{ℕ, ◌+◌, false, none, [], ◌∷◌}
use spot_order_grpc.Exec.{Sys, lost_request}
use spot_order_grpc.Domain.Error.{other}
use spot_order_grpc.Domain.Status.{limit, created}
use spot_order_grpc.Order.Model.{OutboxEvent, pending, order_created}
use spot_order_grpc.Order.Orders.{order_created_type}
use spot_order_grpc.Order.Outbox.{OutboxData, Worker}
use spot_order_grpc.Tests.Setup.{nobody, failing_at}

abbrev worker : Worker
worker = record {
  env = record { fault = failing_at 3 (lost_request (other "broker is down")); between = nobody };
  clock = λ n. n + 10;
  locked = λ n e. false;
  error_text = λ e. "error";
  poll_interval = 1;
  batch_size = 10;
  max_retries = 2;
  processing_timeout = 5;
  order_created_topic = "orders";
  order_status_updated_topic = "statuses";
}

abbrev row : ℕ → OutboxEvent
row n = record {
  id = n;
  event_id = n;
  event_type = order_created_type;
  aggregate_id = n;
  payload = order_created (record {
    event_id = n;
    order_id = n;
    user_id = 1;
    market_id = 7;
    type = limit;
    price = record { value = "10" };
    quantity = 1;
    status = created;
    created_at = 1;
  });
  status = pending;
  retry_count = 0;
  available_at = 1;
  created_at = n;
  published_at = none;
  failed_at = none;
  locked_at = none;
  last_error = none;
}

abbrev first_rows : Sys OutboxData
first_rows = record { tick = 0; drawn = 0; state = record { rows = row 1 ∷ row 2 ∷ []; sent = [] } }
