-- ===== src/Order/Compensation/Once.antt =====
-- Deliveries of a market's change to the order service
-- (orderService/internal/services/order/compensation_service.go), one and several.
use spot_order_grpc.Prelude.{
  ℕ, String, ◌≡◌, refl, sym, ap, ◌∙◌, ◌⊎◌, inl, inr, true, false, some, length, select, ◌≤◌,
}
use spot_order_grpc.Exec.{Result, ok, err, Sys, fine}
use spot_order_grpc.Exec.Triple.{Post}
use spot_order_grpc.Domain.Error.{Error}
use spot_order_grpc.Order.Model.{
  MarketStateChangedEvent, InboxEventStatus, processing, processed, failed, Db,
}
use spot_order_grpc.Order.Platform.{Data, Platform}
use spot_order_grpc.Order.Inbox.{is_for, status_of, upsert, restart_row, may_start, may_fail}
use spot_order_grpc.Order.Inbox.Rows.{
  own_key, restart_row-is_for, counts_once, marks_one, IsSettled, IsSettled-status,
}
use spot_order_grpc.Order.Compensation.{process_market_state_changed}
use spot_order_grpc.Order.Compensation.Outcome.{Applied, Recorded, Skipped, Delivery}
use spot_order_grpc.Order.Compensation.Effect.{process_lem}
use spot_order_grpc.Order.Compensation.Delivered.{
  IsDone, IsNoted, Applied-IsDone, Recorded-IsNoted, Applied-IsSettled, Recorded-IsSettled,
  started_status, at_key,
}

module _ {S : Type 0} (p : Platform S) (error_text : Error → String) (topic group raw : String)
    (event : MarketStateChangedEvent)
    (quiet : (n : ℕ) (d : Data S) → (p.env.between n d).db ≡ d.db) where
  -- Any call may fail.
  abbrev delivery : Db → Delivery S
  delivery old = record {
    platform = p;
    error_text = error_text;
    topic = topic;
    group = group;
    raw = raw;
    event = event;
    old = old;
    quiet = quiet;
    Allowed = Unit;
    faulty = λ n h. tt;
    miscount = λ row is_row may h. tt;
  }

  abbrev pub process : Sys (Data S) → Result Unit × Sys (Data S)
  process s = process_market_state_changed p error_text topic group raw event s

  -- Every delivery has one of four ends.
  abbrev pub End : Result Unit → Db → Db → Type 0
  End (ok _) old new = Skipped group event old new ⊎ Applied group event old new
  End (err _) old new = (new ≡ old) ⊎ (Recorded group event old new ⊎ Applied group event old new)

  pub ends : (s : Sys (Data S)) → End (process s).0 s.state.db (process s).1.state.db
  ends s = go (process s).0 (process s).1.state ((process_lem (delivery s.state.db)).at s refl)
    where
      go :
          (r : Result Unit) (d : Data S)
          → Post
              (λ _ d. Skipped group event s.state.db d.db ⊎ Applied group event s.state.db d.db)
              (λ _ d.
                Unit
                × ((d.db ≡ s.state.db)
                    ⊎ (Recorded group event s.state.db d.db ⊎ Applied group event s.state.db d.db)))
              r
              d
          → End r s.state.db d.db
      go (ok _) d h = h
      go (err _) d h = h.1

  -- Where no other process writes to the tables meanwhile, a delivery, whatever fails, leaves them as
  -- they were, or only notes the failure in the event's inbox row, or does all at once: the row is
  -- processed, the market's active orders are cancelled if it has become unavailable, and each of them
  -- has one new outbox row that announces it.
  pub process_atomic :
      (s : Sys (Data S))
      → ((process s).1.state.db ≡ s.state.db)
        ⊎ (IsNoted group event s.state.db (process s).1.state.db
            ⊎ IsDone group event s.state.db (process s).1.state.db)
  process_atomic s = go (process s).0 (process s).1.state.db (ends s)
    where
      go :
          (r : Result Unit) (new : Db)
          → End r s.state.db new
          → (new ≡ s.state.db)
            ⊎ (IsNoted group event s.state.db new ⊎ IsDone group event s.state.db new)
      go (ok _) new (inl h) = inl h.0
      go (ok _) new (inr h) = inr (inr (Applied-IsDone group event s.state.db new h))
      go (err _) new (inl h) = inl h
      go (err _) new (inr (inl h)) = inr (inl (Recorded-IsNoted group event s.state.db new h))
      go (err _) new (inr (inr h)) = inr (inr (Applied-IsDone group event s.state.db new h))

  -- Where no other process writes to the tables meanwhile, the delivery of an event whose row is
  -- processed leaves the tables as they are, whatever fails.
  pub process_redelivered :
      (s : Sys (Data S))
      → status_of event.event_id group s.state.db.inbox ≡ some processed
      → (process s).1.state.db ≡ s.state.db
  unfolding may_start may_fail
  process_redelivered s done = go (process s).0 (process s).1.state.db (ends s)
    where
      go : (r : Result Unit) (new : Db) → End r s.state.db new → new ≡ s.state.db
      go (ok _) new (inl h) = h.0
      go (ok _) new (inr (row, now, mid, is_row, may, cancels, e)) =
          let never : false ≡ true = sym (ap may_start done) ∙ may in cc
      go (err _) new (inl h) = h
      go (err _) new (inr (inl (row, is_row, may, e))) =
          let never : false ≡ true = sym (ap may_fail done) ∙ may in cc
      go (err _) new (inr (inr (row, now, mid, is_row, may, cancels, e))) =
          let never : false ≡ true = sym (ap may_start done) ∙ may in cc

  -- Where no other process writes to the tables meanwhile, a delivery, whatever fails, leaves no inbox
  -- row in progress if there was none.
  pub process-IsSettled :
      (s : Sys (Data S)) → IsSettled s.state.db.inbox → IsSettled (process s).1.state.db.inbox
  process-IsSettled s h = go (process s).0 (process s).1.state.db (ends s)
    where
      go : (r : Result Unit) (new : Db) → End r s.state.db new → IsSettled new.inbox
      go (ok _) new (inl e) = rw e.0 h
      go (ok _) new (inr e) = Applied-IsSettled group event s.state.db new e h
      go (err _) new (inl e) = rw e h
      go (err _) new (inr (inl e)) = Recorded-IsSettled group event s.state.db new e h
      go (err _) new (inr (inr e)) = Applied-IsSettled group event s.state.db new e h

  -- What a delivery that returns without an error leaves: the row is processed.
  pub ok-processed :
      (s : Sys (Data S))
      → IsSettled s.state.db.inbox
      → (process s).0 ≡ ok tt
      → status_of event.event_id group (process s).1.state.db.inbox ≡ some processed
  unfolding may_start
  ok-processed s settled h = go (process s).0 (process s).1.state.db h (ends s)
    where
      old_processed :
          (t : InboxEventStatus)
          → status_of event.event_id group s.state.db.inbox ≡ some t
          → may_start (some t) ≡ false
          → status_of event.event_id group s.state.db.inbox ≡ some processed
      old_processed processed e m = e
      old_processed processing e m =
          absurd (IsSettled-status event.event_id group s.state.db.inbox settled e)
      old_processed failed e m = cc

      go :
          (r : Result Unit) (new : Db)
          → r ≡ ok tt
          → End r s.state.db new
          → status_of event.event_id group new.inbox ≡ some processed
      go (ok _) new q (inl (same, t, e, m)) = rw same (old_processed t e m)
      go (ok _) new q (inr e) = (Applied-IsDone group event s.state.db new e).marked
      go (err _) new q e = cc

  -- Where no inbox row is in progress at first and no other process writes to the tables meanwhile: once
  -- a delivery of an event has returned without an error, the event's row is processed, and another
  -- delivery of it, to the tables as they are then, leaves the tables as they are, whatever fails. (In
  -- Redis it may write the market's block state once more.)
  pub process_once :
      (s again : Sys (Data S))
      → IsSettled s.state.db.inbox
      → (process s).0 ≡ ok tt
      → again.state.db ≡ (process s).1.state.db
      → (status_of event.event_id group again.state.db.inbox ≡ some processed)
        × ((process again).1.state.db ≡ again.state.db)
  process_once s again settled done same =
      let marked : status_of event.event_id group again.state.db.inbox ≡ some processed =
        ap (λ db. status_of event.event_id group db.inbox) same ∙ ok-processed s settled done in
      (marked, process_redelivered again marked)

  -- Where all calls are answered, no other process writes to the tables meanwhile and the table has at
  -- most one row for the event: a delivery of an event that has no row, or whose row is failed, returns
  -- without an error, and the event is done.
  pub process_delivers :
      ((n : ℕ) → p.env.fault n ≡ fine)
      → (s : Sys (Data S)) → length (select (is_for event.event_id group) s.state.db.inbox) ≤ 1
      → may_start (status_of event.event_id group s.state.db.inbox) ≡ true
      → ((process s).0 ≡ ok tt) × IsDone group event s.state.db (process s).1.state.db
  unfolding may_start
  process_delivers well s unique start = go (process s).0 (process s).1.state (
      (process_lem record (delivery s.state.db) {
        Allowed = ⊥;
        faulty = λ n h. h (well n);
        miscount = λ row is_row may h. h (
            marks_one event.event_id group (upsert (restart_row row) row s.state.db.inbox)
              (started_status group event s.state.db row is_row may)
              (at_key
                (λ i t.
                  length (select (is_for i t) (upsert (restart_row row) row s.state.db.inbox)) ≤ 1)
                is_row
                (counts_once (restart_row row) row (own_key row)
                  (restart_row-is_for row.event_id row.consumer_group row) s.state.db.inbox
                  (rw (is_row.event_id, is_row.consumer_group) unique))));
      }).at
        s refl)
    where
      go :
          (r : Result Unit) (d : Data S)
          → Post
              (λ _ d. Skipped group event s.state.db d.db ⊎ Applied group event s.state.db d.db)
              (λ _ d.
                ⊥
                × ((d.db ≡ s.state.db)
                    ⊎ (Recorded group event s.state.db d.db ⊎ Applied group event s.state.db d.db)))
              r
              d
          → (r ≡ ok tt) × IsDone group event s.state.db d.db
      go (ok _) d (inl (same, t, e, m)) =
          let never : true ≡ false = sym start ∙ ap may_start e ∙ m in cc
      go (ok _) d (inr h) = (refl, Applied-IsDone group event s.state.db d.db h)
      go (err _) d h = absurd h.0
