-- ===== src/Order/Compensation/Effect.antt =====
-- What ProcessMarketStateChanged of orderService/internal/services/order/compensation_service.go makes
-- of the committed tables.
use spot_order_grpc.Prelude.{
  ℕ, ◌≡◌, refl, sym, ap, ◌∙◌, ◌⊎◌, inl, inr, Bool, true, false, some, if_case,
}
use spot_order_grpc.Exec.{Result, err, on_error}
use spot_order_grpc.Exec.Triple.{
  Post, Triple, Keeps-call, Triple-call_faulty, Triple-bind, Triple-attempt, Triple-on_error,
  Triple-pure, Triple-raise, Triple-ignore_error, Triple-weaken, Triple-named, Triple-timed,
}
use spot_order_grpc.Domain.Error.{Error, other}
use spot_order_grpc.Order.Model.{InboxEvent, InboxEventStatus, processing, processed, failed, Db}
use spot_order_grpc.Order.Platform.{Data}
use spot_order_grpc.Order.Orders.{begin, commit_transaction, rollback_transaction}
use spot_order_grpc.Order.Inbox.{
  status_of, upsert, may_start, fail_row, may_fail, on_inbox, begin_processing, save_failed,
}
use spot_order_grpc.Order.Create.Frame.{synchronize_state-Keeps}
use spot_order_grpc.Order.Compensation.{
  build_inbox_event, apply_and_mark, try_synchronize_market_block_state, fail_processing,
  resync_skipped, handle_skipped_event, process_begun, process_market_state_changed,
}
use spot_order_grpc.Order.Compensation.Outcome.{
  IsRowOf, start_row, Applied, Recorded, Skipped, Delivery,
}
use spot_order_grpc.Order.Compensation.Writes.{
  Before, Undone, Writes, Begun, stable-Before, stable-Writes, begin_lem, begin_processing_lem,
  apply_lem, mark_lem,
}

module _ {S : Type 0} (g : Delivery S) where
  open g use {platform as p, error_text, topic, group, raw, event, old, quiet, Allowed, faulty}

  abbrev Failure : Error → Data S → Type 0
  Failure e d =
      Allowed × ((d.db ≡ old) ⊎ (Recorded group event old d.db ⊎ Applied group event old d.db))

  rollback_lem :
      (P : Data S → Type 0)
      → ((n : ℕ) (d : Data S) → P d → P (p.env.between n d))
      → ((d : Data S) → P d → P (record d { tx = λ db. db }))
      → {E : Error → Data S → Type 0} → Triple P (rollback_transaction p) (λ _. P) E
  unfolding rollback_transaction
  rollback_lem P stable closed = Triple-ignore_error _ (Keeps-call p.env _ stable closed)

  abbrev failed_row : ℕ → Error → ℕ → InboxEvent
  failed_row id e now = record (build_inbox_event id topic group raw event) {
    status = failed;
    received_at = now;
    failed_at = some now;
    error_message = some (error_text e);
  }

  recorded :
      (id now : ℕ) (e : Error) (d : Data S)
      → Undone g e d
      → may_fail (status_of event.event_id group d.db.inbox) ≡ true
      → Failure e (record d {
        db = on_inbox (upsert (fail_row (failed_row id e now)) (failed_row id e now)) d.db;
      })
  unfolding build_inbox_event
  recorded id now e d h hit = (
    h.0,
    inr (
        inl (
          failed_row id e now,
          record { event_id = refl; consumer_group = refl; state_is = refl },
          sym (ap (λ db. may_fail (status_of event.event_id group db.inbox)) h.1) ∙ hit,
          ap (on_inbox (upsert (fail_row (failed_row id e now)) (failed_row id e now))) h.1,
        )),
  )

  save_failed_lem :
      (id : ℕ) (e : Error)
      → Triple
          (Undone g e)
          (save_failed p (build_inbox_event id topic group raw event) (error_text e))
          (λ _. Failure e)
          (λ _. Failure e)
  unfolding save_failed build_inbox_event
  save_failed_lem id e = Triple-timed p.clock _ λ now.
      Triple-call_faulty p.env _ (λ n d h. (h.0, stable-Before g n d h.1))
        (λ d h.
          if_case
            (λ (out : Result Unit × Data S). Post (λ _. Failure e) (λ _. Failure e) out.0 out.1)
            (may_fail (status_of event.event_id group d.db.inbox)) _
            (err (other "expected to update 1 row"), d) (recorded id now e d h)
            (λ _. (h.0, inl h.1)))
        (λ n f d _ h. (h.0, inl h.1))
        (λ n f d _ h.
          if_case (λ (out : Result Unit × Data S). Failure e out.1)
            (may_fail (status_of event.event_id group d.db.inbox)) _
            (err (other "expected to update 1 row"), d) (recorded id now e d h)
            (λ _. (h.0, inl h.1)))

  fail_lem :
      (id : ℕ) (e : Error)
      → Triple
          (Undone g e)
          (fail_processing p error_text (build_inbox_event id topic group raw event) e)
          (λ _ _. ⊥)
          Failure
  unfolding fail_processing
  fail_lem id e =
      Triple-bind _ _
        (Triple-bind (rollback_transaction p) _
          (rollback_lem (Undone g e) (λ n d h. (h.0, stable-Before g n d h.1)) (λ d h. h))
          (λ _. Triple-ignore_error _ (save_failed_lem id e)))
        (λ _. Triple-raise e (λ d h. h))

  -- What a commit leaves, its answer lost or not.
  commit_lem :
      (W : Db → Type 0)
      → (Allowed → (db : Db) → W db → (db ≡ old) ⊎ Applied group event old db)
      → Triple
          (Writes g W)
          (commit_transaction p)
          (λ _ d. W d.db)
          (λ _ d. Allowed × ((d.db ≡ old) ⊎ Applied group event old d.db))
  unfolding commit_transaction
  commit_lem W outcome =
      Triple-call_faulty p.env _ (stable-Writes g W) (λ d h. rw h.0 h.1)
        (λ n e d q h. (faulty n q, inl h.0))
        (λ n e d q h. (faulty n q, outcome (faulty n q) _ (rw h.0 h.1)))

  abbrev Outcome : Db → Type 0
  Outcome db = Skipped group event old db ⊎ Applied group event old db

  stable-Outcome : (n : ℕ) (d : Data S) → Outcome d.db → Outcome (p.env.between n d).db
  stable-Outcome n d h = rw (quiet n d) h

  synchronized :
      {E : Error → Data S → Type 0}
      → Triple
          (λ d. Outcome d.db)
          (try_synchronize_market_block_state p event)
          (λ _ d. Outcome d.db)
          E
  unfolding try_synchronize_market_block_state
  synchronized =
      Triple-ignore_error _ (synchronize_state-Keeps p (λ db. Outcome db) stable-Outcome _ _ _)

  committed :
      (W : Db → Type 0)
      → ((db : Db) → W db → Outcome db)
      → (Allowed → (db : Db) → W db → (db ≡ old) ⊎ Applied group event old db)
      → Triple
          (Writes g W)
          (on_error (commit_transaction p) (rollback_transaction p))
          (λ _ d. Outcome d.db)
          Failure
  committed W done outcome =
      Triple-weaken
        (Triple-on_error (commit_transaction p) (rollback_transaction p) (commit_lem W outcome)
          (λ e.
            rollback_lem (λ d. Allowed × ((d.db ≡ old) ⊎ Applied group event old d.db))
              (λ n d h. rw (quiet n d) h) (λ d h. h)))
        (λ _ d h. done d.db h)
        (λ e d h. elim h.1 [ inl x ↦ (h.0, inl x) | inr y ↦ (h.0, inr (inr y)) ])

  skipped_lem :
      (status : InboxEventStatus)
      → Triple
          (Writes g (Begun g (false, status)))
          (handle_skipped_event p event status)
          (λ _ d. Outcome d.db)
          Failure
  unfolding handle_skipped_event resync_skipped
  skipped_lem status =
      Triple-bind _ _
        (committed (Begun g (false, status)) (λ db h. inl (h.0, status, h.1, h.2))
          (λ _ db h. inl h.0))
        (λ _. resynced status)
    where
      resynced :
          (t : InboxEventStatus)
          → Triple (λ d. Outcome d.db) (resync_skipped p event t) (λ _ d. Outcome d.db) Failure
      resynced processed = synchronized
      resynced processing = synchronized
      resynced failed = Triple-pure tt (λ d h. h)

  apply_and_mark_lem :
      (row : InboxEvent)
      → IsRowOf processing group event row
      → may_start (status_of event.event_id group old.inbox) ≡ true
      → Triple
          (Writes g (λ db. db ≡ start_row row old))
          (apply_and_mark p event group)
          (λ _. Writes g (Applied group event old))
          (Undone g)
  unfolding apply_and_mark
  apply_and_mark_lem row is_row may =
      Triple-bind _ _ (apply_lem g (start_row row old)) (λ _. mark_lem g row is_row may)

  begun_lem :
      (id : ℕ) (begun : Bool) (status : InboxEventStatus)
      → Triple
          (Writes g (Begun g (begun, status)))
          (process_begun p error_text event
            (build_inbox_event id topic group raw event)
            begun
            status)
          (λ _ d. Outcome d.db)
          Failure
  unfolding process_begun build_inbox_event
  begun_lem id false status = skipped_lem status
  begun_lem id true status = record {
    at = λ s (h, (row, is_row, may, w)).
        (Triple-attempt (apply_and_mark p event group) _ (apply_and_mark_lem row is_row may)
            (λ _.
              Triple-bind _ _
                (committed (Applied group event old) (λ db x. inr x) (λ _ db x. inr x))
                (λ _. synchronized))
            (λ e. Triple-weaken (fail_lem id e) (λ _ d x. absurd x) (λ e d x. x))).at
          s (h, w);
  }

  pub process_lem :
      Triple
        (Before g)
        (process_market_state_changed p error_text topic group raw event)
        (λ _ d. Outcome d.db)
        Failure
  unfolding process_market_state_changed
  process_lem =
      Triple-bind (begin p) _ (Triple-weaken (begin_lem g) (λ _ d h. h) (λ e d h. (h.0, inl h.1)))
        λ _. Triple-named p.uuids _ λ id.
          Triple-attempt (begin_processing p _) _ (begin_processing_lem g id)
            (λ begun. begun_lem id begun.0 begun.1)
            (λ e. Triple-weaken (fail_lem id e) (λ _ d x. absurd x) (λ e d x. x))
