-- ===== src/Order/Create/Twice.antt =====
-- CreateOrder (orderService/internal/services/order/order_service.go) called twice with the same
-- request.
use spot_order_grpc.Prelude.{ℕ, ◌<◌, String, ◌≡◌, true, none, ap}
use spot_order_grpc.Exec.{Result, ok, err, Sys, Exec, fine, on_error}
use spot_order_grpc.Exec.Triple.{
  Post, Triple, Triple-bind, Triple-weaken, Triple-given, Triple-pure, Triple-on_error,
  Triple-ignore_error, Keeps,
}
use spot_order_grpc.Redis.{Key, idem_key, left}
use spot_order_grpc.Domain.Status.{OrderStatus, status_string}
use spot_order_grpc.Order.Platform.{Data, Platform}
use spot_order_grpc.Order.Idempotency.{
  build_request_hash, new_entry, completed_entry, complete_idempotency_checking, fail_cleanup,
}
use spot_order_grpc.Order.Orders.{Request}
use spot_order_grpc.Order.Create.{create_acquired, create_order}
use spot_order_grpc.Order.Create.Frame.{check_rate_limit-Keeps, validate_market-Keeps}
use spot_order_grpc.Order.Create.Key.{
  Has, off_keys, save_order-Has, complete_loop_present, acquire-Free,
}
use spot_order_grpc.Order.Create.Repeat.{Holds, create_order_completed}

module _ {S : Type 0} (p : Platform S) (q : Request) (well : (n : ℕ) → p.env.fault n ≡ fine)
    (kept : (u : ℕ) (h : String) (v : String) (n : ℕ) (d : Data S)
      → Has p u h v d
      → Has p u h v (p.env.between n d))
    (free_kept : (u : ℕ) (h : String) (n : ℕ) (d : Data S)
      → p.redis.get d.redis (idem_key u h) ≡ none
      → p.redis.get (p.env.between n d).redis (idem_key u h) ≡ none)
    (alive : (x : S) (k : Key) (n : ℕ) → p.redis.pttl x k ≡ left n → 0 < n)
    (ttl : 0 < p.config.idempotency_ttl_ms) (attempts : 0 < p.config.complete_attempts) where
  abbrev hash : String
  hash = build_request_hash p q.market_id q.order_type q.price q.quantity

  abbrev Completed : ℕ × OrderStatus → Data S → Type 0
  Completed out d =
      Has p q.user_id hash (p.marshal_entry (completed_entry hash out.0 (status_string out.1))) d

  guarded :
      {A : Type 0} (v : String) (m : Exec (Data S) A)
      → Keeps (Has p q.user_id hash v) m
      → Triple
          (Has p q.user_id hash v)
          (on_error m (fail_cleanup p q.user_id hash true))
          (λ _. Has p q.user_id hash v)
          (λ _ _. Unit)
  guarded v m k =
      Triple-on_error {F = λ _. Has p q.user_id hash v} m _ k
        (λ e. record { at = λ s h. unit_post _ _ })
    where
      unit_post : (r : Result Unit) (d : Data S) → Post (λ _ _. Unit {0}) (λ _ _. Unit {0}) r d
      unit_post (ok a) d = tt
      unit_post (err e) d = tt

  completion_lem :
      (v : String) (id : ℕ) (status : OrderStatus)
      → Triple
          (Has p q.user_id hash v)
          (complete_idempotency_checking p q.user_id id hash status)
          (λ _. Completed (id, status))
          (λ _ _. ⊥)
  unfolding complete_idempotency_checking
  completion_lem v id status =
      complete_loop_present p q.user_id hash well (kept q.user_id hash) alive
        p.config.complete_attempts none v id (status_string status) attempts

  create_acquired_completes :
      (v : String)
      → Triple (Has p q.user_id hash v) (create_acquired p q hash) Completed (λ _ _. Unit)
  unfolding create_acquired
  create_acquired_completes v =
      Triple-bind _ _
        (guarded v _
          (check_rate_limit-Keeps p _ (off_keys p q.user_id hash v (kept q.user_id hash v)) _ _))
        λ _.
          Triple-bind _ _
            (guarded v _
              (validate_market-Keeps p _ (off_keys p q.user_id hash v (kept q.user_id hash v)) _))
            λ _.
              Triple-bind _ _
                (guarded v _ (save_order-Has p q.user_id hash v (kept q.user_id hash v) q))
                λ out.
                  Triple-bind _ _
                    (Triple-ignore_error _ (
                      Triple-weaken (completion_lem v out.0 out.1) (λ _ d k. k)
                        (λ e d k. absurd k)))
                    λ _. Triple-pure _ (λ d k. k)

  create_order_completes :
      Triple
        (λ d. p.redis.get d.redis (idem_key q.user_id hash) ≡ none)
        (create_order p q)
        Completed
        (λ _ _. Unit)
  unfolding create_order
  create_order_completes =
      Triple-bind _ _
        (acquire-Free p q.user_id hash well (kept q.user_id hash) alive (free_kept q.user_id hash)
          ttl)
        λ out. Triple-given λ mine. rw mine (record {
          at = λ s k. (create_acquired_completes (p.marshal_entry (new_entry hash k.0))).at s k.1;
        })

  ok-Completed :
      (r : Result (ℕ × OrderStatus)) (d : Data S) (out : ℕ × OrderStatus)
      → r ≡ ok out
      → Post Completed (λ _ _. Unit) r d
      → Completed out d
  ok-Completed (ok a) d out e k = let same : a ≡ out = cc in rw (← same) k
  ok-Completed (err x) d out e k = cc

  -- No call fails, no other process changes an idempotency key, no key is in its last millisecond, and
  -- both the time to live and the number of completion attempts are positive. If the key is free and a
  -- CreateOrder answers with an order, then the same CreateOrder called again answers with the same
  -- order and status, and leaves the tables as it found them.
  pub create_order_twice :
      (s : Sys (Data S)) (out : ℕ × OrderStatus)
      → p.redis.get s.state.redis (idem_key q.user_id hash) ≡ none
      → (create_order p q s).0 ≡ ok out
      → let first = (create_order p q s).1 in
        let again = create_order p q first in
        (again.0 ≡ ok out) × (again.1.state.db ≡ (p.env.between first.tick first.state).db)
  create_order_twice s out free answered =
      let first = (create_order p q s).1 in
      let holds : Holds p q (completed_entry hash out.0 (status_string out.1))
          (p.env.between first.tick first.state) =
        kept _ _ _ first.tick first.state (
          ok-Completed (create_order p q s).0 first.state out answered
            (create_order_completes.at s free)) in
      let run = create_order_completed p q out.0 out.1 first holds (well first.tick) in
      (
        ap (λ (x : Result (ℕ × OrderStatus) × Sys (Data S)). x.0) run,
        ap (λ (x : Result (ℕ × OrderStatus) × Sys (Data S)). x.1.state.db) run,
      )
