-- ===== src/Tests/Cancel.antt =====
-- Cancelling the orders of a market at a concrete table: an active one, a filled one, and one of another
-- market.
use spot_order_grpc.Prelude.{◌≡◌, [], ◌∷◌}
use spot_order_grpc.Domain.Status.{limit, created, filled}
use spot_order_grpc.Order.Model.{Order, Db}
use spot_order_grpc.Order.Orders.{cancel_active, cancelled_ids}
use spot_order_grpc.Order.Orders.Cancel.{Cancels, cancel_active_lem}
use spot_order_grpc.Tests.Setup.{no_rows}

abbrev first_order : Order
first_order = record {
  id = 1;
  user_id = 1;
  market_id = 7;
  type = limit;
  price = record { value = "10" };
  quantity = 1;
  status = created;
  created_at = 1;
}

abbrev pub three_orders : Db
three_orders = record no_rows {
  orders =
      first_order
      ∷ record first_order { id = 2; status = filled }
      ∷ record first_order { id = 3; market_id = 8 }
      ∷ [];
}

cancel_active_example :
    Cancels 7 three_orders.orders
      (cancel_active 7 three_orders).orders
      (cancelled_ids 7 three_orders.orders)
    × ((cancel_active 7 three_orders).outbox ≡ three_orders.outbox)
    × ((cancel_active 7 three_orders).inbox ≡ three_orders.inbox)
    × (cancelled_ids 7 (cancel_active 7 three_orders).orders ≡ [])
    × (cancel_active 7 (cancel_active 7 three_orders) ≡ cancel_active 7 three_orders)
cancel_active_example = cancel_active_lem 7 three_orders
