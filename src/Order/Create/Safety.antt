-- ===== src/Order/Create/Safety.antt =====
-- What CreateOrder makes of the committed tables, whatever fails and whatever others do.
use spot_order_grpc.Prelude.{ℕ, String, ◌≡◌, refl, ap, ◌∙◌, ◌⊎◌, inl, inr, true, if_case}
use spot_order_grpc.Exec.{Result, ok, err, Exec, lost_reply, on_error, new_uuid, read_clock}
use spot_order_grpc.Exec.Triple.{
  Post, Triple, Keeps, Keeps-call, Keeps-ignore_error, Triple-if, Triple-call, Triple-call_lossy,
  Triple-bind, Triple-attempt, Triple-on_error, Triple-pure, Triple-raise, Triple-weaken,
  Triple-ignore_error, Triple-new_uuid, Triple-read_clock,
}
use spot_order_grpc.Domain.Error.{Error, already_exists}
use spot_order_grpc.Domain.Status.{created}
use spot_order_grpc.Order.Model.{
  Db, Order, OrderCreatedEvent, OutboxEvent, OutboxEventStatus, order_created,
}
use spot_order_grpc.Order.Platform.{Data, Platform}
use spot_order_grpc.Order.Idempotency.{fail_cleanup}
use spot_order_grpc.Order.Orders.{
  Request, add_order, add_outbox, has_id, save_order_row, save_outbox_event, outbox_event,
  produce_order_created, begin, commit_transaction, rollback_transaction, order_created_type,
}
use spot_order_grpc.Order.Create.{
  build_order, build_order_created_event, insert_and_commit, save_order, create_acquired,
  create_order,
}
use spot_order_grpc.Order.Create.Frame.{
  OffRedis, OffKeys, complete-Keeps, fail_cleanup-Keeps, acquire-Keeps, check_rate_limit-Keeps,
  validate_market-Keeps, resolve-Keeps,
}

-- The order that a request asks for, and the outbox row that announces an order.
pub record IsOrderOf (q : Request) (o : Order) : Type 0 where
  pub user : o.user_id ≡ q.user_id
  pub market : o.market_id ≡ q.market_id
  pub type : o.type ≡ q.order_type
  pub price : o.price ≡ q.price
  pub quantity : o.quantity ≡ q.quantity
  pub status : o.status ≡ created

pub record Announces (o : Order) (e : OutboxEvent) : Type 0 where
  pub event_type : e.event_type ≡ order_created_type
  pub aggregate : e.aggregate_id ≡ o.id
  pub status : e.status ≡ OutboxEventStatus.pending
  pub event :
      (ev : OrderCreatedEvent) × (e.payload ≡ order_created ev)
      × (ev.order_id ≡ o.id)
      × (ev.user_id ≡ o.user_id)
      × (ev.market_id ≡ o.market_id)
      × (ev.quantity ≡ o.quantity)
      × (ev.price ≡ o.price)

-- `P` before the commit and `R` after it; an error leaves `F`.
module _ {S : Type 0} (p : Platform S) (q : Request) (P R F : Db → Type 0)
    (stable : (n : ℕ) (d : Data S) → P d.db → P (p.env.between n d).db)
    (stable_after : (n : ℕ) (d : Data S) → R d.db → R (p.env.between n d).db)
    (stable_error : (n : ℕ) (d : Data S) → F d.db → F (p.env.between n d).db)
    (grow : (o : Order) (e : OutboxEvent) (db : Db)
      → IsOrderOf q o
      → Announces o e
      → P db
      → R (add_outbox e (add_order o db)))
    (failed : (db : Db) → P db → F db)
    (unanswered : (n : ℕ) (e : Error)
      → p.env.fault n ≡ lost_reply e
      → (db : Db) → R db
      → F db) where
  abbrev Before : Data S → Type 0
  Before d = P d.db

  abbrev After : Data S → Type 0
  After d = R d.db

  abbrev Failure : Error → Data S → Type 0
  Failure e d = F d.db

  abbrev InTransaction : (Db → Db) → Data S → Type 0
  InTransaction f d = P d.db × (d.tx ≡ f)

  stable-InTransaction :
      (f : Db → Db) (n : ℕ) (d : Data S) → InTransaction f d → InTransaction f (p.env.between n d)
  stable-InTransaction f n d h = (stable n d h.0, p.between-tx n d ∙ h.1)

  begin_lem : Triple Before (begin p) (λ _. InTransaction (λ db. db)) Failure
  unfolding begin
  begin_lem =
      Triple-call p.env _ stable (λ d h. (h, refl)) (λ e d h. failed d.db h)
        (λ e d h. failed d.db h)

  save_order_row_lem :
      (o : Order)
      → Triple
          (InTransaction (λ db. db))
          (save_order_row p o)
          (λ _. InTransaction (add_order o))
          Failure
  unfolding save_order_row
  save_order_row_lem o =
      Triple-call p.env _ (stable-InTransaction (λ db. db))
        (λ d h.
          if_case
            (λ (out : Result Unit × Data S).
              Post (λ _. InTransaction (add_order o)) Failure out.0 out.1)
            (has_id o.id (d.tx d.db).orders) (err (already_exists 0), d)
            (ok tt, record d { tx = λ db. add_order o (d.tx db) }) (λ _. failed d.db h.0)
            (λ _. (h.0, ap {B = Db → Db} (λ f db. add_order o (f db)) h.1)))
        (λ e d h. failed d.db h.0)
        (λ e d h.
          if_case (λ (out : Result Unit × Data S). F out.1.db) (has_id o.id (d.tx d.db).orders)
            (err (already_exists 0), d) (ok tt, record d { tx = λ db. add_order o (d.tx db) })
            (λ _. failed d.db h.0) (λ _. failed d.db h.0))

  -- Any outbox row of the event is written beside the order.
  abbrev Announced : Order → Data S → Type 0
  Announced o d =
      (e : OutboxEvent) × Announces o e × InTransaction (λ db. add_outbox e (add_order o db)) d

  produce_lem :
      (o : Order) (id now : ℕ)
      → Triple
          (InTransaction (add_order o))
          (produce_order_created p (build_order_created_event o id now))
          (λ _. Announced o)
          Failure
  unfolding produce_order_created save_outbox_event build_order_created_event outbox_event
  produce_lem o id now =
      Triple-bind (new_uuid p.uuids) _
        (Triple-new_uuid {Q = λ _. InTransaction (add_order o)} p.uuids (λ n d h. h))
        λ row_id.
          Triple-bind (read_clock p.clock) _
            (Triple-read_clock {Q = λ _. InTransaction (add_order o)} p.clock (λ n d h. h))
            λ row_now.
              let event = build_order_created_event o id now in
              let row =
                outbox_event row_id event.event_id order_created_type event.order_id
                  (order_created event) row_now in
              Triple-call p.env _ (stable-InTransaction (add_order o))
                (λ d h. (
                  row,
                  record {
                    event_type = refl;
                    aggregate = refl;
                    status = refl;
                    event = (event, refl, refl, refl, refl, refl, refl);
                  },
                  (h.0, ap {B = Db → Db} (λ f db. add_outbox row (f db)) h.1),
                ))
                (λ e d h. failed d.db h.0) (λ e d h. failed d.db h.0)

  commit_lem :
      (o : Order) → IsOrderOf q o → Triple (Announced o) (commit_transaction p) (λ _. After) Failure
  unfolding commit_transaction
  commit_lem o asked =
      Triple-call_lossy p.env _ (λ n d h. (h.0, h.1, stable-InTransaction _ n d h.2)) committed
        (λ e d h. failed d.db h.2.0) (λ n e d lost h. unanswered n e lost _ (committed d h))
    where
      committed : (d : Data S) → Announced o d → R (d.tx d.db)
      committed d (e, announces, (holds, writes)) = rw writes (grow o e d.db asked announces holds)

  rollback_lem :
      (e : Error)
      → Triple (Failure e) (rollback_transaction p) (λ _ d. Failure e d) (λ _ d. Failure e d)
  unfolding rollback_transaction
  rollback_lem e = Keeps-ignore_error _ (Keeps-call p.env _ stable_error (λ d h. h))

  insert_and_commit_lem :
      (o : Order) (id now : ℕ)
      → IsOrderOf q o
      → Triple
          (InTransaction (λ db. db))
          (insert_and_commit p o (build_order_created_event o id now))
          (λ _. After)
          Failure
  unfolding insert_and_commit
  insert_and_commit_lem o id now asked =
      Triple-attempt (save_order_row p o) _ (save_order_row_lem o)
        (λ _.
          Triple-bind (produce_order_created p _) _ (produce_lem o id now)
            (λ _. commit_lem o asked))
        (λ e. Triple-raise _ (λ d h. h))

  save_order_lem : Triple Before (save_order p q) (λ _. After) Failure
  unfolding save_order build_order
  save_order_lem =
      Triple-bind (read_clock p.clock) _ (Triple-read_clock {Q = λ _. Before} p.clock (λ n d h. h))
        λ now.
          Triple-bind (new_uuid p.uuids) _ (Triple-new_uuid {Q = λ _. Before} p.uuids (λ n d h. h))
            λ id.
              Triple-bind (new_uuid p.uuids) _
                (Triple-new_uuid {Q = λ _. Before} p.uuids (λ n d h. h))
                λ event_id. Triple-bind (begin p) _ begin_lem λ _.
                  Triple-bind _ _
                    (Triple-on_error (insert_and_commit p _ _) (rollback_transaction p)
                      (insert_and_commit_lem _ event_id now (record {
                        user = refl;
                        market = refl;
                        type = refl;
                        price = refl;
                        quantity = refl;
                        status = refl;
                      }))
                      rollback_lem)
                    (λ _. Triple-pure _ (λ d h. h))

  off-Before : OffRedis p Before
  off-Before = record { stable = stable; redis = λ d s h. h; queue = λ d q h. h }

  off_keys : OffKeys p Before
  off_keys = record {
    stable = stable;
    queue = λ d q h. h;
    rate = λ d t u w h. h;
    block = λ d m h. h;
  }

  off-After : OffRedis p After
  off-After = record { stable = stable_after; redis = λ d s h. h; queue = λ d q h. h }

  off-Failure : (e : Error) → OffRedis p (Failure e)
  off-Failure e = record { stable = stable_error; redis = λ d s h. h; queue = λ d q h. h }

  guarded :
      {A : Type 0} {Q : A → Data S → Type 0} (m : Exec (Data S) A) (h : String)
      → Triple Before m Q Failure
      → Triple Before (on_error m (fail_cleanup p q.user_id h true)) Q Failure
  guarded m h k =
      Triple-on_error m _ k (λ e. fail_cleanup-Keeps p (Failure e) (off-Failure e) q.user_id h true)

  create_acquired_lem : (h : String) → Triple Before (create_acquired p q h) (λ _. After) Failure
  unfolding create_acquired
  create_acquired_lem h =
      Triple-bind _ _ (guarded _ h (weaken (check_rate_limit-Keeps p Before off_keys _ _))) λ _.
        Triple-bind _ _ (guarded _ h (weaken (validate_market-Keeps p Before off_keys _))) λ _.
          Triple-bind _ _ (guarded _ h save_order_lem) λ out.
            Triple-bind _ _ (Triple-ignore_error _ (complete-Keeps p After off-After _ _ _ _))
              λ _. Triple-pure _ (λ d k. k)
    where
      weaken :
          {A : Type 0} {m : Exec (Data S) A}
          → Keeps Before m
          → Triple Before m (λ _. Before) Failure
      weaken k = Triple-weaken k (λ a d h. h) (λ e d h. failed d.db h)

  pub create_order_lem : Triple Before (create_order p q) (λ _ d. P d.db ⊎ R d.db) Failure
  unfolding create_order
  create_order_lem =
      Triple-bind _ _
        (Triple-weaken (acquire-Keeps p Before off-Before _ _) (λ a d h. h)
          (λ e d h. failed d.db h))
        λ out.
          Triple-if out.1 _ _
            (λ _. Triple-weaken (create_acquired_lem _) (λ a d h. inr h) (λ e d h. h))
            (λ _.
              Triple-weaken (resolve-Keeps p Before off-Before q _ out.0) (λ a d h. inl h)
                (λ e d h. failed d.db h))
