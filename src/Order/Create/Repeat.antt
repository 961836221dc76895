-- ===== src/Order/Create/Repeat.antt =====
-- CreateOrder (orderService/internal/services/order/order_service.go) while the key of its request is
-- still there.
use spot_order_grpc.Prelude.{
  ℕ, suc, String, ◌≡◌, refl, inl, inr, ◌∙◌, Bool, false, some, str_eq, eq_iff, Bool-cases,
}
use spot_order_grpc.Exec.{Result, ok, err, Sys, fine, Exec, call, pure, read_clock, lift}
use spot_order_grpc.Exec.Triple.{
  Post, Triple, Triple-call, Triple-bind, Triple-read_clock, Triple-given, Triple-pure, run-bind,
  run-call,
}
use spot_order_grpc.Redis.{idem_key}
use spot_order_grpc.Domain.Error.{Error}
use spot_order_grpc.Domain.Status.{OrderStatus, status_string, from_string-status_string}
use spot_order_grpc.Order.Model.{Db}
use spot_order_grpc.Order.Platform.{Data, Platform, Entry}
use spot_order_grpc.Order.Idempotency.{
  build_request_hash, acquire, acquire_or, store_acquire, acquire_script, on_redis, adapt,
  completed_entry, check_idempotency_result,
}
use spot_order_grpc.Order.Orders.{Request}
use spot_order_grpc.Order.Create.{create_order, resolve_idempotent_request}
use spot_order_grpc.Order.Create.Frame.{resolve-Keeps}

-- The key of the request holds the entry.
abbrev pub Holds : {S : Type 0} → Platform S → Request → Entry → Data S → Type 0
Holds p q e d =
    let hash = build_request_hash p q.market_id q.order_type q.price q.quantity in
    p.redis.get d.redis (idem_key q.user_id hash) ≡ some (p.marshal_entry e)

pub marshal-not_empty :
    {S : Type 0} (p : Platform S) (e : Entry) → str_eq (p.marshal_entry e) "" ≡ false
marshal-not_empty p e = elim (Bool-cases (str_eq (p.marshal_entry e) "")) [
  | inl same ↦ absurd (p.marshal-ne-empty e ((eq_iff _ _).0 same))
  | inr other ↦ other
]

module _ {S : Type 0} (p : Platform S) (u : ℕ) (h : String) (e : Entry) (s : Sys (Data S))
    (held : p.redis.get (p.env.between s.tick s.state).redis (idem_key u h)
      ≡ some (p.marshal_entry e))
    (well : p.env.fault s.tick ≡ fine) where
  abbrev next : Sys (Data S)
  next = record s { tick = suc s.tick; state = p.env.between s.tick s.state }

  script_found :
      (value : String) (ttl : ℕ)
      → call p.env (on_redis (acquire_script p.redis (idem_key u h) value ttl)) s
        ≡ (ok (p.marshal_entry e), next)
  unfolding acquire_script
  script_found value ttl = run-call p.env _ s well ∙ rw (held, acquire_script)

  acquire_or_found :
      (again : Exec (Data S) (Entry × Bool)) → acquire_or p again u h s ≡ (ok (e, false), next)
  unfolding acquire_or pure
  acquire_or_found again =
      run-bind (read_clock p.clock) _ s s (p.clock s.tick) (unfold read_clock in refl)
      ∙ run-bind _ _ s next (p.marshal_entry e) (script_found _ _)
      ∙ rw (marshal-not_empty p e, p.unmarshal-marshal e)

  acquire_found : acquire p u h s ≡ (ok (adapt e, false), next)
  unfolding acquire store_acquire pure
  acquire_found = run-bind (store_acquire p u h) _ s next (e, false) (acquire_or_found _)

module _ {S : Type 0} (p : Platform S) (q : Request) where
  -- Where the key of a request holds a completed entry when CreateOrder's first call, the one of Redis,
  -- is carried out, and that call is answered: CreateOrder answers with that entry's order, makes no
  -- other call, and changes neither the tables, nor Redis, nor the queue.
  pub create_order_completed :
      (id : ℕ) (status : OrderStatus) (s : Sys (Data S))
      → let hash = build_request_hash p q.market_id q.order_type q.price q.quantity in
        let now = p.env.between s.tick s.state in
        Holds p q (completed_entry hash id (status_string status)) now
        → p.env.fault s.tick ≡ fine
        → create_order p q s ≡ (ok (id, status), record s { tick = suc s.tick; state = now })
  unfolding create_order resolve_idempotent_request adapt check_idempotency_result completed_entry
      lift
  create_order_completed id status s held well =
      let e =
        completed_entry (build_request_hash p q.market_id q.order_type q.price q.quantity) id
          (status_string status) in
      run-bind (acquire p q.user_id _) _ s (next p q.user_id _ e s held well) (adapt e, false)
        (acquire_found p q.user_id _ e s held well)
      ∙ rw (from_string-status_string status)

module _ {S : Type 0} (p : Platform S) (q : Request) (e : Entry) (P : Db → Type 0)
    (stable : (n : ℕ) (d : Data S) → P d.db → P (p.env.between n d).db)
    (kept : (n : ℕ) (d : Data S) → Holds p q e d → Holds p q e (p.env.between n d)) where
  abbrev hash : String
  hash = build_request_hash p q.market_id q.order_type q.price q.quantity

  abbrev Held : Data S → Type 0
  Held d = P d.db × Holds p q e d

  abbrev Failure : Error → Data S → Type 0
  Failure _ d = P d.db

  script-Held :
      (value : String) (ttl : ℕ)
      → Triple Held
          (call p.env (on_redis (acquire_script p.redis (idem_key q.user_id hash) value ttl)))
          (λ raw d. (raw ≡ p.marshal_entry e) × P d.db)
          Failure
  unfolding acquire_script
  script-Held value ttl =
      Triple-call p.env _ (λ n d h. (stable n d h.0, kept n d h.1))
        (λ d h. rw (h.1, acquire_script) (refl, h.0)) (λ _ d h. h.0) (λ _ d h. h.0)

  acquire_or-Held :
      (again : Exec (Data S) (Entry × Bool))
      → Triple Held
          (acquire_or p again q.user_id hash)
          (λ out d. (out ≡ (e, false)) × P d.db)
          Failure
  unfolding acquire_or
  acquire_or-Held again =
      Triple-bind (read_clock p.clock) _ (Triple-read_clock {Q = λ _. Held} p.clock (λ n d h. h))
        λ now. Triple-bind _ _ (script-Held _ _) λ raw. Triple-given λ same. rw same (
          rw (marshal-not_empty p e)
            (rw (p.unmarshal-marshal e) (Triple-pure _ (λ d h. (refl, h)))))

  acquire-Held :
      Triple Held (acquire p q.user_id hash) (λ out d. (out ≡ (adapt e, false)) × P d.db) Failure
  unfolding acquire store_acquire
  acquire-Held =
      Triple-bind _ _ (acquire_or-Held _)
        λ out. Triple-given λ same. rw same (Triple-pure _ (λ d h. (refl, h)))

  create_order-Held : Triple Held (create_order p q) (λ _ d. P d.db) Failure
  unfolding create_order
  create_order-Held = Triple-bind _ _ acquire-Held λ out. Triple-given λ same. rw same (
      resolve-Keeps p (λ d. P d.db)
        (record { stable = stable; redis = λ d s h. h; queue = λ d q h. h }) q hash (adapt e))

  -- While the key of a request holds any entry, completed or being processed, and no other process
  -- removes it, CreateOrder makes nothing of the tables that the others do not make of them: whatever
  -- fails, every property of the tables that the others keep is kept.
  pub create_order_no_second :
      (s : Sys (Data S)) → P s.state.db → Holds p q e s.state → P (create_order p q s).1.state.db
  create_order_no_second s h k =
      settled (create_order p q s).0 (create_order p q s).1.state (create_order-Held.at s (h, k))
    where
      settled :
          (r : Result (ℕ × OrderStatus)) (d : Data S)
          → Post (λ _ d. P d.db) (λ _ d. P d.db) r d
          → P d.db
      settled (ok a) d x = x
      settled (err x) d y = y
