-- ===== src/Order/Create/Frame.antt =====
-- The calls of the order service that do not write to the tables, whatever fails.
use spot_order_grpc.Prelude.{
  ℕ, zero, suc, String, ◌≡◌, sym, inl, inr, Option-cases, Bool, true, false, Option, none, some,
  List, if◌then◌else◌,
}
use spot_order_grpc.Exec.{Result, ok, err, Exec, call}
use spot_order_grpc.Exec.Triple.{
  Keeps, keeps_rules, Keeps-call, Keeps-bind, Keeps-attempt, Keeps-local,
}
use mathlib.Core.Path.{subst}
use spot_order_grpc.Redis.{Redis, Key, block_key, rate_key}
use spot_order_grpc.Domain.Error.{Error, cache_not_found}
use spot_order_grpc.Domain.Status.{OrderStatus}
use spot_order_grpc.Order.Model.{Market, Db}
use spot_order_grpc.Order.Platform.{Data, Platform, Entry, RateLimit, MarketBlockTask}
use spot_order_grpc.Order.Idempotency.{
  acquire, acquire_or, store_acquire, on_redis, store_complete, complete_loop, check_context,
  complete_idempotency_checking, fail_cleanup, IdempotencyResult,
}
use spot_order_grpc.Order.Orders.{Request, find_order_for_idempotency_recovery}
use spot_order_grpc.Order.Block.{
  is_blocked, invalidate_corrupted_state, cache_get, synchronize_state,
}
use spot_order_grpc.Order.Limiter.{allow, rate_limit_script, check_rate_limit}
use spot_order_grpc.Order.Create.{
  view_market, get_market_blocked_state, synchronize_market_block_async, validate_market,
  try_recover_order_from_processing, recover_started, resolve_idempotent_request,
}

-- A property that other processes keep, and to which the queue and the keys of rate limits and of
-- market blocks do not matter.
pub record OffKeys {S : Type 0} (p : Platform S) (Q : Data S → Type 0) : Type 0 where
  pub stable : (n : ℕ) (d : Data S) → Q d → Q (p.env.between n d)
  pub queue :
      (d : Data S) (q : List MarketBlockTask) → Q d → Q (record d { market_block_queue = q })
  pub rate :
      (d : Data S) (t : String) (u w : ℕ)
      → Q d
      → Q (record d { redis = (rate_limit_script p.redis (rate_key t u) w d.redis).1 })
  pub block :
      (d : Data S) (m : ℕ) → Q d → Q (record d { redis = p.redis.del d.redis (block_key m) })

-- A property of the tables: other processes keep it, and Redis and the queue do not matter to it.
pub record OffRedis {S : Type 0} (p : Platform S) (Q : Data S → Type 0) : Type 0 where
  pub stable : (n : ℕ) (d : Data S) → Q d → Q (p.env.between n d)
  pub redis : (d : Data S) (s : S) → Q d → Q (record d { redis = s })
  pub queue :
      (d : Data S) (q : List MarketBlockTask) → Q d → Q (record d { market_block_queue = q })

pub cache_get-state : {S : Type 0} (r : Redis S) (k : Key) (s : S) → (cache_get r k s).1 ≡ s
unfolding cache_get
cache_get-state r k s = elim (Option-cases (r.get s k)) [
  | inl e ↦ rw (e, cache_get)
  | inr found ↦ rw (found.1, cache_get)
]

module _ {S : Type 0} (p : Platform S) (Q : Data S → Type 0) (off : OffKeys p Q) where
  rate-Keeps :
      (t : String) (u w : ℕ)
      → Keeps Q (call p.env (on_redis (rate_limit_script p.redis (rate_key t u) w)))
  rate-Keeps t u w = Keeps-call p.env _ off.stable (λ d h. off.rate d t u w h)

  looked_up-Keeps : (m : ℕ) → Keeps Q (call p.env (on_redis (cache_get p.redis (block_key m))))
  looked_up-Keeps m = Keeps-call p.env _ off.stable λ d h.
      subst (λ x. Q (record d { redis = x })) (sym (cache_get-state p.redis (block_key m) d.redis))
        h

  deleted-Keeps : (m : ℕ) → Keeps Q (invalidate_corrupted_state p m)
  unfolding invalidate_corrupted_state
  deleted-Keeps m = Keeps-call p.env _ off.stable (λ d h. off.block d m h)

  pub check_rate_limit-Keeps : (l : RateLimit) (u : ℕ) → Keeps Q (check_rate_limit p l u)
  unfolding check_rate_limit allow
  check_rate_limit-Keeps l u = search (keeps_rules, rate-Keeps)

  is_blocked-Keeps : (m : ℕ) → Keeps Q (is_blocked p m)
  unfolding is_blocked
  is_blocked-Keeps m = Keeps-attempt (call p.env _) _ (looked_up-Keeps m) (elim [
    | err cache_not_found ↦ search keeps_rules
    | err _ ↦ search keeps_rules
    | ok raw ↦ search (keeps_rules, deleted-Keeps)
  ])

  get_market_blocked_state-Keeps : (m : ℕ) → Keeps Q (get_market_blocked_state p m)
  unfolding get_market_blocked_state
  get_market_blocked_state-Keeps m =
      Keeps-attempt (is_blocked p m) _ (is_blocked-Keeps m)
        (elim [ ok b ↦ search keeps_rules | err e ↦ search keeps_rules ])

  view_market-Keeps : (m : ℕ) → Keeps Q (view_market p m)
  unfolding view_market
  view_market-Keeps m = Keeps-call p.env _ off.stable (λ d h. h)

  either-Keeps : (b : Bool) (x y : Data S) → Q x → Q y → Q (if b then x else y)
  either-Keeps true x y hx hy = hx
  either-Keeps false x y hx hy = hy

  async-Keeps :
      (m : Market) (b : Bool) (r : String) → Keeps Q (synchronize_market_block_async m b r)
  unfolding synchronize_market_block_async
  async-Keeps m b r = Keeps-local _ λ d h. either-Keeps _ d _ h (off.queue d _ h)

  pub validate_market-Keeps : (m : ℕ) → Keeps Q (validate_market p m)
  unfolding validate_market
  validate_market-Keeps m =
      search (keeps_rules, get_market_blocked_state-Keeps, view_market-Keeps, async-Keeps) depth 9

module _ {S : Type 0} (p : Platform S) (Q : Data S → Type 0) (off : OffRedis p Q) where
  on_redis-Keeps : {A : Type 0} (f : S → Result A × S) → Keeps Q (call p.env (on_redis f))
  on_redis-Keeps f = Keeps-call p.env (on_redis f) off.stable (λ d h. off.redis d (f d.redis).1 h)

  check_context-Keeps : Keeps Q (check_context p)
  unfolding check_context
  check_context-Keeps = Keeps-call p.env _ off.stable (λ d h. h)

  store_complete-Keeps :
      (u : ℕ) (h : String) (o : ℕ) (t : String) → Keeps Q (store_complete p u h o t)
  unfolding store_complete
  store_complete-Keeps u h o t = search (keeps_rules, on_redis-Keeps)

  complete_loop-Keeps :
      (n : ℕ) (last : Option Error) (u o : ℕ) (h t : String)
      → Keeps Q (complete_loop p n last u o h t)
  unfolding complete_loop
  complete_loop-Keeps zero none u o h t = search keeps_rules
  complete_loop-Keeps zero (some e) u o h t = search keeps_rules
  complete_loop-Keeps (suc n) last u o h t = Keeps-bind (check_context p) _ check_context-Keeps λ _.
      Keeps-attempt (store_complete p u h o t) _ (store_complete-Keeps u h o t) (elim [
        | ok _ ↦ search keeps_rules
        | err e ↦
            Keeps-bind _ _ (search (keeps_rules, check_context-Keeps))
              (λ _. complete_loop-Keeps n (some e) u o h t)
      ])

  pub complete-Keeps :
      (u o : ℕ) (h : String) (t : OrderStatus) → Keeps Q (complete_idempotency_checking p u o h t)
  unfolding complete_idempotency_checking
  complete-Keeps u o h t = complete_loop-Keeps _ _ _ _ _ _

  pub fail_cleanup-Keeps : (u : ℕ) (h : String) (b : Bool) → Keeps Q (fail_cleanup p u h b)
  unfolding fail_cleanup
  fail_cleanup-Keeps u h b = search (keeps_rules, on_redis-Keeps)

  acquire_or-Keeps :
      (again : Exec (Data S) (Entry × Bool)) (u : ℕ) (h : String)
      → Keeps Q again
      → Keeps Q (acquire_or p again u h)
  unfolding acquire_or
  acquire_or-Keeps again u h k = search (keeps_rules, on_redis-Keeps, Keeps-attempt) depth 9

  pub acquire-Keeps : (u : ℕ) (h : String) → Keeps Q (acquire p u h)
  unfolding acquire store_acquire
  acquire-Keeps u h = search (keeps_rules, acquire_or-Keeps) depth 7

  find-Keeps : (q : Request) (t : ℕ) → Keeps Q (find_order_for_idempotency_recovery p q t)
  unfolding find_order_for_idempotency_recovery
  find-Keeps q t = Keeps-call p.env _ off.stable (λ d h. h)

  recover_started-Keeps : (q : Request) (h : String) (t : ℕ) → Keeps Q (recover_started p q h t)
  unfolding recover_started
  recover_started-Keeps q h t =
      Keeps-attempt (find_order_for_idempotency_recovery p q t) _ (find-Keeps q t)
        (elim [ err e ↦ search keeps_rules | ok o ↦ search (keeps_rules, complete-Keeps) ])

  pub resolve-Keeps :
      (q : Request) (h : String) (r : IdempotencyResult)
      → Keeps Q (resolve_idempotent_request p q h r)
  unfolding resolve_idempotent_request try_recover_order_from_processing
  resolve-Keeps q h r = search (keeps_rules, recover_started-Keeps)

-- The tables, by SynchronizeState.
module _ {S : Type 0} (p : Platform S) (Q : Db → Type 0)
    (stable : (n : ℕ) (d : Data S) → Q d.db → Q (p.env.between n d).db) where
  pub synchronize_state-Keeps :
      (m : ℕ) (b : Bool) (t : ℕ) → Keeps (λ d. Q d.db) (synchronize_state p m b t)
  unfolding synchronize_state invalidate_corrupted_state
  synchronize_state-Keeps m b t =
      Keeps-attempt (call p.env _) _ (Keeps-call p.env _ stable (λ d h. h))
        (elim [ ok n ↦ search keeps_rules | err e ↦ search (keeps_rules, written) depth 9 ])
    where
      written : {A : Type 0} (f : S → Result A × S) → Keeps (λ d. Q d.db) (call p.env (on_redis f))
      written f = Keeps-call p.env _ stable (λ d h. h)
