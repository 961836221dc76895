-- ===== src/Order/Compensation/Writes.antt =====
-- The statements of the transaction of orderService/internal/services/order/compensation_service.go, on
-- what its commit would make of the tables.
use spot_order_grpc.Prelude.{
  ℕ, ◌≡◌, refl, sym, ap, ◌∙◌, inl, inr, Bool, true, false, Option, none, some, List, [], ◌∷◌, map,
  length, select, ◌==◌, if_case, Bool-cases, ==_iff,
}
use mathlib.Core.List.{append-nil, append_assoc}
use spot_order_grpc.Exec.{Result, ok, err, call}
use spot_order_grpc.Exec.Triple.{
  Post, Triple, Triple-call_faulty, Triple-bind, Triple-pure, Triple-weaken, Triple-if,
  Triple-named, Triple-timed,
}
use spot_order_grpc.Domain.Error.{Error, other}
use spot_order_grpc.Order.Model.{
  OrderStatusUpdatedEvent, InboxEvent, InboxEventStatus, processing, Db, OutboxEvent,
  order_status_updated,
}
use spot_order_grpc.Order.Platform.{Data}
use spot_order_grpc.Order.Orders.{
  cancel_active, cancelled_ids, add_outbox, outbox_event, save_outbox_event,
  order_status_updated_type, cancel_active_orders_by_market, produce_order_status_updated, begin,
}
use spot_order_grpc.Order.Inbox.{
  status_of, may_start, mark_row, row_or_none, is_in_progress, on_inbox, try_start_processing,
  get_current_status, begin_processing, mark_processed,
}
use spot_order_grpc.Order.Compensation.{
  is_available, build_inbox_event, build_status_event, publish_cancelled_order_events,
  apply_compensation_transaction,
}
use spot_order_grpc.Order.Compensation.Outcome.{
  AnnouncesCancelled, AnnounceAll, add_rows, Cancelled, IsRowOf, start_row, Applied, Delivery,
}

module _ {S : Type 0} (g : Delivery S) where
  open g use {platform as p, topic, group, raw, event, old, quiet, Allowed, faulty, miscount}

  abbrev pub Before : Data S → Type 0
  Before d = d.db ≡ old

  -- An error that nothing has been committed before.
  abbrev pub Undone : Error → Data S → Type 0
  Undone e d = Allowed × (d.db ≡ old)

  -- What the open transaction's commit would make of the tables.
  abbrev pub Writes : (Db → Type 0) → Data S → Type 0
  Writes W d = (d.db ≡ old) × W (d.tx old)

  pub stable-Before : (n : ℕ) (d : Data S) → Before d → Before (p.env.between n d)
  stable-Before n d h = quiet n d ∙ h

  pub stable-Writes :
      (W : Db → Type 0) (n : ℕ) (d : Data S) → Writes W d → Writes W (p.env.between n d)
  stable-Writes W n d h = (quiet n d ∙ h.0, rw (p.between-tx n d) h.1)

  -- A statement of the transaction.
  statement :
      {A : Type 0} (W : Db → Type 0) (V : A → Db → Type 0) (body : Data S → Result A × Data S)
      → ((d : Data S) → (body d).1.db ≡ d.db)
      → ((d : Data S) → Writes W d → Post (λ a. Writes (V a)) Undone (body d).0 (body d).1)
      → Triple (Writes W) (call p.env body) (λ a. Writes (V a)) Undone
  statement W V body kept run =
      Triple-call_faulty p.env body (stable-Writes W) run (λ n e d h k. (faulty n h, k.0))
        (λ n e d h k. (faulty n h, kept d ∙ k.0))

  pub begin_lem : Triple Before (begin p) (λ _. Writes (λ db. db ≡ old)) Undone
  unfolding begin
  begin_lem =
      Triple-call_faulty p.env _ stable-Before (λ d h. (h, refl)) (λ n e d q h. (faulty n q, h))
        (λ n e d q h. (faulty n q, h))

  -- The row of the event, started; or the status that it has.
  abbrev pub Begun : Bool × InboxEventStatus → Db → Type 0
  Begun (true, status) db =
      (row : InboxEvent) × IsRowOf processing group event row
      × (may_start (status_of event.event_id group old.inbox) ≡ true)
      × (db ≡ start_row row old)
  Begun (false, status) db =
      (db ≡ old)
      × (status_of event.event_id group old.inbox ≡ some status)
      × (may_start (some status) ≡ false)

  abbrev Tried : Option InboxEventStatus → Db → Type 0
  Tried (some status) db = Begun (true, status) db
  Tried none db = (db ≡ old) × (may_start (status_of event.event_id group old.inbox) ≡ false)

  try_start_lem :
      (id : ℕ)
      → Triple
          (Writes (λ db. db ≡ old))
          (try_start_processing p (build_inbox_event id topic group raw event))
          (λ status. Writes (Tried status))
          Undone
  unfolding try_start_processing build_inbox_event
  try_start_lem id = Triple-timed p.clock _ λ now.
      let row : InboxEvent = record (build_inbox_event id topic group raw event) {
        received_at = now;
      } in
      let may : Db → Bool = λ db. may_start (status_of event.event_id group db.inbox) in
      statement (λ db. db ≡ old) Tried _
        (λ d.
          if_case (λ (out : Result (Option InboxEventStatus) × Data S). out.1.db ≡ d.db)
            (may (d.tx d.db)) _ (ok none, d) (λ _. refl) (λ _. refl))
        (λ d h.
          let at_old : may (d.tx d.db) ≡ may old = ap may (ap d.tx h.0 ∙ h.1) in
          if_case
            (λ (out : Result (Option InboxEventStatus) × Data S).
              Post (λ status. Writes (Tried status)) Undone out.0 out.1)
            (may (d.tx d.db)) _ (ok none, d)
            (λ hit. (
              h.0,
              (
                row,
                record { event_id = refl; consumer_group = refl; state_is = refl },
                sym at_old ∙ hit,
                ap (start_row row) h.1,
              ),
            ))
            (λ miss. (h.0, (h.1, sym at_old ∙ miss))))

  found :
      (o : Option InboxEventStatus)
      → status_of event.event_id group old.inbox ≡ o
      → (d : Data S) → Writes (Tried none) d
      → Post (λ status. Writes (Begun (false, status))) Undone (row_or_none o) d
  unfolding may_start
  found none e d (h, (same, miss)) = let hit : true ≡ false = sym (ap may_start e) ∙ miss in cc
  found (some status) e d (h, (same, miss)) = (h, (same, e, sym (ap may_start e) ∙ miss))

  get_current_lem :
      Triple
        (Writes (Tried none))
        (get_current_status p event.event_id group)
        (λ status. Writes (Begun (false, status)))
        Undone
  unfolding get_current_status
  get_current_lem =
      statement (Tried none) (λ status. Begun (false, status)) _ (λ d. refl)
        (λ d h.
          let at_old : status_of event.event_id group (d.tx d.db).inbox
              ≡ status_of event.event_id group old.inbox =
            ap (λ db. status_of event.event_id group db.inbox) (ap d.tx h.0 ∙ h.1.0) in
          found (status_of event.event_id group (d.tx d.db).inbox) (sym at_old) d h)

  pub begin_processing_lem :
      (id : ℕ)
      → Triple
          (Writes (λ db. db ≡ old))
          (begin_processing p (build_inbox_event id topic group raw event))
          (λ begun. Writes (Begun begun))
          Undone
  unfolding begin_processing build_inbox_event
  begin_processing_lem id =
      Triple-bind (try_start_processing p (build_inbox_event id topic group raw event)) _
        (try_start_lem id)
        (elim [
          | none ↦
              Triple-bind (get_current_status p event.event_id group) _ get_current_lem
                (λ status. Triple-pure _ (λ d h. h))
          | some status ↦ Triple-pure _ (λ d h. h)
        ])

  module _ (base : Db) where
    cancel_lem :
        Triple
          (Writes (λ db. db ≡ base))
          (cancel_active_orders_by_market p event.market_id)
          (λ ids. Writes (λ db.
            (ids ≡ cancelled_ids event.market_id base.orders)
            × (db ≡ cancel_active event.market_id base)))
          Undone
    unfolding cancel_active_orders_by_market
    cancel_lem =
        statement (λ db. db ≡ base)
          (λ ids db.
            (ids ≡ cancelled_ids event.market_id base.orders)
            × (db ≡ cancel_active event.market_id base))
          _ (λ d. refl)
          (λ d h.
            let at_base : d.tx d.db ≡ base = ap d.tx h.0 ∙ h.1 in
            (
              h.0,
              (
                ap (λ db. cancelled_ids event.market_id db.orders) at_base,
                ap (cancel_active event.market_id) h.1,
              ),
            ))

  produce_lem :
      (base : Db) (id order_id now : ℕ)
      → Triple
          (Writes (λ db. db ≡ base))
          (produce_order_status_updated p (build_status_event id order_id event now))
          (λ _. Writes (λ db.
            (e : OutboxEvent) × AnnouncesCancelled event order_id e × (db ≡ add_outbox e base)))
          Undone
  unfolding produce_order_status_updated save_outbox_event build_status_event outbox_event
  produce_lem base id order_id now = Triple-named p.uuids _ λ row_id.
      Triple-timed p.clock _ λ row_now.
        let ev : OrderStatusUpdatedEvent = build_status_event id order_id event now in
        let row =
          outbox_event row_id id order_status_updated_type order_id (order_status_updated ev)
            row_now in
        statement (λ db. db ≡ base)
          (λ _ db.
            (e : OutboxEvent) × AnnouncesCancelled event order_id e × (db ≡ add_outbox e base))
          _ (λ d. refl)
          (λ d h. (
            h.0,
            (
              row,
              record {
                event_type = refl;
                aggregate = refl;
                status = refl;
                message = (ev, refl, refl, refl, refl);
              },
              ap (add_outbox row) h.1,
            ),
          ))

  abbrev Announced : Db → List ℕ → Db → Type 0
  Announced base ids db =
      (es : List OutboxEvent) × AnnounceAll event ids es × (db ≡ add_rows es base)

  publish_lem :
      (ids : List ℕ) (base : Db)
      → Triple
          (Writes (λ db. db ≡ base))
          (publish_cancelled_order_events p event ids)
          (λ _. Writes (Announced base ids))
          Undone
  unfolding publish_cancelled_order_events add_outbox
  publish_lem [] base = Triple-pure tt (λ d h.
      (h.0, ([], tt, h.1 ∙ ap (λ es. record base { outbox = es }) (sym (append-nil base.outbox)))))
  publish_lem (id ∷ ids) base = Triple-named p.uuids _ λ ev_id. Triple-timed p.clock _ λ now.
      Triple-bind (produce_order_status_updated p _) _ (produce_lem base ev_id id now) λ _. record {
        at = λ s (h, (e, announces, w)).
            (Triple-weaken (publish_lem ids (add_outbox e base))
                (λ _ d k. (
                  k.0,
                  (
                    e ∷ k.1.0,
                    (announces, k.1.1),
                    k.1.2
                        ∙ ap (λ es. record base { outbox = es })
                            (append_assoc base.outbox (e ∷ []) k.1.0),
                  ),
                ))
                (λ _ d k. k)).at
              s (h, w);
      }

  pub apply_lem :
      (base : Db)
      → Triple
          (Writes (λ db. db ≡ base))
          (apply_compensation_transaction p event)
          (λ _. Writes (Cancelled event base))
          Undone
  unfolding apply_compensation_transaction
  apply_lem base =
      Triple-if (is_available event) _ _ (λ hit. Triple-pure tt (λ d h. (h.0, rw hit h.1)))
        (λ miss.
          Triple-bind (cancel_active_orders_by_market p event.market_id) _ (cancel_lem base) (λ ids.
            record {
              at = λ s (h, (same, w)).
                  (Triple-weaken (publish_lem ids (cancel_active event.market_id base))
                      (λ _ d k. (k.0, rw miss (k.1.0, rw (← same) k.1.1, k.1.2))) (λ _ d k. k)).at
                    s (h, w);
            }))

  Cancelled-inbox : (base db : Db) → Cancelled event base db → db.inbox ≡ base.inbox
  unfolding cancel_active
  Cancelled-inbox base db = elim (Bool-cases (is_available event)) [
    | inl hit ↦ rw hit (λ h. ap (λ x. x.inbox) h)
    | inr miss ↦ rw miss (λ h. ap (λ x. x.inbox) h.2)
  ]

  -- The event marked in the open transaction.
  pub mark_lem :
      (row : InboxEvent)
      → IsRowOf processing group event row
      → may_start (status_of event.event_id group old.inbox) ≡ true
      → Triple
          (Writes (Cancelled event (start_row row old)))
          (mark_processed p event.event_id group)
          (λ _. Writes (Applied group event old))
          Undone
  unfolding mark_processed
  mark_lem row is_row may = Triple-timed p.clock _ λ now.
      statement (Cancelled event (start_row row old)) (λ _. Applied group event old) _ (λ d. refl)
        (λ d h.
          let touched = length (select (is_in_progress event.event_id group) (d.tx d.db).inbox) in
          if_case
            (λ (out : Result Unit).
              Post (λ _. Writes (Applied group event old)) Undone out
                (record d {
                  tx = λ db. on_inbox (map (mark_row event.event_id group now)) (d.tx db);
                }))
            (touched == 1) (ok tt) (err (other "expected to update 1 row"))
            (λ _. (h.0, (row, now, d.tx old, is_row, may, h.1, refl)))
            (λ off. (
              miscount row is_row may (λ one.
                  let counted : touched ≡ 1 =
                    ap (λ db. length (select (is_in_progress event.event_id group) db.inbox))
                      (ap d.tx h.0)
                    ∙ ap (λ rs. length (select (is_in_progress event.event_id group) rs))
                        (Cancelled-inbox (start_row row old) (d.tx old) h.1)
                    ∙ one in
                  let test : (touched == 1) ≡ true = (==_iff touched 1).1 counted in cc),
              h.0,
            )))
