-- ===== src/Order/Create/Key.antt =====
-- What CreateOrder makes of the key of its request in Redis.
use spot_order_grpc.Prelude.{
  ℕ, zero, suc, ◌<◌, String, ◌≡◌, ◌≢◌, refl, Bool, true, false, Option, none, some, arith, ◌==◌,
  if_case, inl, inr, ◌∙◌, Option-cases,
}
use spot_order_grpc.Order.Create.Frame.{OffKeys}
use text.Mathlib.TextPositions.{eq_refl}
use spot_order_grpc.Exec.{Result, ok, err, Exec, fine, call, read_clock}
use spot_order_grpc.Exec.Triple.{
  Triple, Keeps, keeps_rules, Keeps-call, Keeps-bind, Keeps-attempt, Triple-call, Triple-bind,
  Triple-given, Triple-pure, Triple-read_clock, Triple-call_fine, Triple-attempt,
  Keeps-ignore_error, Keeps-new_uuid, Keeps-read_clock,
}
use spot_order_grpc.Redis.{Key, idem_key, block_key, rate_key, Pttl, no_key, no_expiry, left, Redis}
use spot_order_grpc.Domain.Error.{Error}
use spot_order_grpc.Order.Model.{Order, OrderCreatedEvent}
use spot_order_grpc.Order.Platform.{Data, Platform, Entry}
use spot_order_grpc.Order.Idempotency.{
  acquire, acquire_or, store_acquire, acquire_script, complete_script, new_entry, completed_entry,
  store_complete, complete_loop, check_context,
}
use spot_order_grpc.Order.Orders.{
  Request, save_order_row, save_outbox_event, produce_order_created, begin, commit_transaction,
  rollback_transaction,
}
use spot_order_grpc.Order.Limiter.{rate_limit_script}
use spot_order_grpc.Order.Create.{insert_and_commit, save_order}

ne_block : (u m : ℕ) (h : String) → block_key m ≢ idem_key u h
ne_block u m h e = cc

ne_rate : (u v : ℕ) (h t : String) → rate_key t v ≢ idem_key u h
ne_rate u v h t e = cc

-- The key of a request holds a value.
abbrev pub Has : {S : Type 0} → Platform S → ℕ → String → String → Data S → Type 0
Has p u h v d = p.redis.get d.redis (idem_key u h) ≡ some v

module _ {S : Type 0} (p : Platform S) (u : ℕ) (h : String) (v : String)
    (kept : (n : ℕ) (d : Data S)
      → p.redis.get d.redis (idem_key u h) ≡ some v
      → p.redis.get (p.env.between n d).redis (idem_key u h) ≡ some v) where
  rate_limit_script-Has :
      (t : String) (w n : ℕ) (x : S)
      → p.redis.get x (idem_key u h) ≡ some v
      → p.redis.get (rate_limit_script p.redis (rate_key t w) n x).1 (idem_key u h) ≡ some v
  unfolding rate_limit_script
  rate_limit_script-Has t w n x k = elim (Option-cases (p.redis.incr x (rate_key t w))) [
    | inl e ↦ rw (e, rate_limit_script) k
    | inr found ↦
        let k' =
          p.redis.get-incr_ne x (rate_key t w) (idem_key u h) found.0.0 found.0.1 (ne_rate u w h t)
            found.1
          ∙ k in
        rw (found.1, rate_limit_script)
          (if_case (λ y. p.redis.get y (idem_key u h) ≡ some v) (found.0.0 == 1)
            (p.redis.pexpire found.0.1 (rate_key t w) n) found.0.1
            (λ _. p.redis.get-pexpire_ne _ _ _ _ (ne_rate u w h t) ∙ k') (λ _. k'))
  ]

  pub off_keys : OffKeys p (Has p u h v)
  off_keys = record {
    stable = kept;
    queue = λ d q k. k;
    rate = λ d t w n k. rate_limit_script-Has t w n d.redis k;
    block = λ d m k. p.redis.get-del_ne d.redis (block_key m) (idem_key u h) (ne_block u m h) ∙ k;
  }

  statement-Has :
      {A : Type 0} (f : Data S → Result A × Data S)
      → ((d : Data S) → (f d).1.redis ≡ d.redis)
      → Keeps (Has p u h v) (call p.env f)
  statement-Has f same = Keeps-call p.env f kept (λ d k. rw (same d) k)

  save_order_row-Has : (o : Order) → Keeps (Has p u h v) (save_order_row p o)
  unfolding save_order_row
  save_order_row-Has o = statement-Has _ (λ d.
      if_case (λ (out : Result Unit × Data S). out.1.redis ≡ d.redis) _ _ _ (λ _. refl) (λ _. refl))

  produce-Has : (e : OrderCreatedEvent) → Keeps (Has p u h v) (produce_order_created p e)
  unfolding produce_order_created save_outbox_event
  produce-Has e =
      Keeps-bind _ _ (Keeps-new_uuid _)
        (λ id. Keeps-bind _ _ (Keeps-read_clock _) (λ now. statement-Has _ (λ d. refl)))

  begin-Has : Keeps (Has p u h v) (begin p)
  unfolding begin
  begin-Has = statement-Has _ (λ d. refl)

  commit-Has : Keeps (Has p u h v) (commit_transaction p)
  unfolding commit_transaction
  commit-Has = statement-Has _ (λ d. refl)

  rollback-Has : Keeps (Has p u h v) (rollback_transaction p)
  unfolding rollback_transaction
  rollback-Has = Keeps-ignore_error _ (statement-Has _ (λ d. refl))

  insert_and_commit-Has :
      (o : Order) (e : OrderCreatedEvent) → Keeps (Has p u h v) (insert_and_commit p o e)
  unfolding insert_and_commit
  insert_and_commit-Has o e =
      Keeps-attempt (save_order_row p o) _ (save_order_row-Has o)
        (elim [ err x ↦ search keeps_rules | ok _ ↦ search (keeps_rules, produce-Has, commit-Has) ])

  pub save_order-Has : (q : Request) → Keeps (Has p u h v) (save_order p q)
  unfolding save_order
  save_order-Has q = search (keeps_rules, begin-Has, insert_and_commit-Has, rollback-Has) depth 12

module _ {S : Type 0} (r : Redis S)
    (alive : (x : S) (k : Key) (n : ℕ) → r.pttl x k ≡ left n → 0 < n) where
  -- completeScript on a key that is there
  complete_script_present :
      (k : Key) (v w : String) (x : S)
      → r.get x k ≡ some v
      → ((complete_script r k w x).0 ≡ ok 1) × (r.get (complete_script r k w x).1 k ≡ some w)
  unfolding complete_script
  complete_script_present k v w x there = by_pttl (r.pttl x k) refl
    where
      by_pttl :
          (t : Pttl)
          → r.pttl x k ≡ t
          → ((complete_script r k w x).0 ≡ ok 1) × (r.get (complete_script r k w x).1 k ≡ some w)
      by_pttl no_key e = cc (r.pttl-no_key x k e)
      by_pttl no_expiry e = rw (e, complete_script) (refl, r.get-set_self x k w)
      by_pttl (left n) e =
          let some_left : (n == 0) ≡ false = ground (arith, alive x k n e) in
          rw (e, complete_script) (rw some_left (refl, r.get-set_px_self x k w n (alive x k n e)))

module _ {S : Type 0} (p : Platform S) (u : ℕ) (h : String) (well : (n : ℕ) → p.env.fault n ≡ fine)
    (kept : (v : String) (n : ℕ) (d : Data S)
      → p.redis.get d.redis (idem_key u h) ≡ some v
      → p.redis.get (p.env.between n d).redis (idem_key u h) ≡ some v)
    (alive : (x : S) (k : Key) (n : ℕ) → p.redis.pttl x k ≡ left n → 0 < n) where
  store_complete_present :
      (v : String) (o : ℕ) (t : String)
      → Triple
          (Has p u h v)
          (store_complete p u h o t)
          (λ _. Has p u h (p.marshal_entry (completed_entry h o t)))
          (λ _ _. ⊥)
  unfolding store_complete
  store_complete_present v o t =
      Triple-bind (call p.env _) _
        (Triple-call_fine
          {Q = λ n d. (n ≡ 1) × Has p u h (p.marshal_entry (completed_entry h o t)) d} p.env _ well
          (kept v)
          (λ d k.
            let done =
              complete_script_present p.redis alive (idem_key u h) v
                (p.marshal_entry (completed_entry h o t)) d.redis k in
            rw done.0 (refl, done.1)))
        λ n. Triple-given λ one. rw one (Triple-pure tt (λ d k. k))

  pub complete_loop_present :
      (n : ℕ) (last : Option Error) (v : String) (o : ℕ) (t : String)
      → 0 < n
      → Triple
          (Has p u h v)
          (complete_loop p n last u o h t)
          (λ _. Has p u h (p.marshal_entry (completed_entry h o t)))
          (λ _ _. ⊥)
  unfolding complete_loop check_context
  complete_loop_present zero last v o t pos = absurd (omega arith)
  complete_loop_present (suc n) last v o t pos =
      Triple-bind _ _ (Triple-call_fine {Q = λ _. Has p u h v} p.env _ well (kept v) (λ d k. k))
        λ _.
          Triple-attempt (store_complete p u h o t) _ (store_complete_present v o t)
            (λ _. Triple-pure tt (λ d k. k)) (λ e. record { at = λ s k. absurd k })

  acquire_script_free :
      (value : String) (ttl : ℕ) (d : Data S)
      → 0 < ttl
      → p.redis.get d.redis (idem_key u h) ≡ none
      → (acquire_script p.redis (idem_key u h) value ttl d.redis).0 ≡ ok ""
        × (p.redis.get (acquire_script p.redis (idem_key u h) value ttl d.redis).1 (idem_key u h)
            ≡ some value)
  unfolding acquire_script
  acquire_script_free value ttl d pos free =
      let some_ttl : (ttl == 0) ≡ false = ground arith in
      rw (free, acquire_script)
        (rw some_ttl (refl, p.redis.get-set_px_self d.redis (idem_key u h) value ttl pos))

  module _
      (free_kept : (n : ℕ) (d : Data S)
        → p.redis.get d.redis (idem_key u h) ≡ none
        → p.redis.get (p.env.between n d).redis (idem_key u h) ≡ none)
      (pos : 0 < p.config.idempotency_ttl_ms) where
    abbrev pub Free : Data S → Type 0
    Free d = p.redis.get d.redis (idem_key u h) ≡ none

    abbrev pub Acquired : {A : Type 0} → A × Bool → Data S → Type 0
    Acquired out d = (out.1 ≡ true) × ((now : ℕ) × Has p u h (p.marshal_entry (new_entry h now)) d)

    acquire_or-Free :
        (again : Exec (Data S) (Entry × Bool))
        → Triple Free (acquire_or p again u h) Acquired (λ _ _. Unit)
    unfolding acquire_or
    acquire_or-Free again =
        Triple-bind (read_clock p.clock) _ (Triple-read_clock {Q = λ _. Free} p.clock (λ n d k. k))
          λ now.
            let value = p.marshal_entry (new_entry h now) in
            Triple-bind (call p.env _) _
              (Triple-call {Q = λ raw d. (raw ≡ "") × Has p u h value d} p.env _ free_kept
                (λ d k.
                  let done = acquire_script_free value p.config.idempotency_ttl_ms d pos k in
                  rw done.0 (refl, done.1))
                (λ _ _ _. tt) (λ _ _ _. tt))
              λ raw.
                Triple-given
                  λ empty. rw empty (rw (eq_refl "") (Triple-pure _ (λ d k. (refl, (now, k)))))

    pub acquire-Free : Triple Free (acquire p u h) Acquired (λ _ _. Unit)
    unfolding acquire store_acquire
    acquire-Free = Triple-bind _ _ (acquire_or-Free _) (λ out. Triple-pure _ (λ d k. k))
