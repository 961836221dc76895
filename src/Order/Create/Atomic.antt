-- ===== src/Order/Create/Atomic.antt =====
-- CreateOrder (orderService/internal/services/order/order_service.go) and the committed tables.
use spot_order_grpc.Prelude.{ℕ, ◌≡◌, ◌≢◌, refl, ◌⊎◌, inl, inr, ◌∙◌, ap}
use spot_order_grpc.Exec.{Result, ok, err, Sys, lost_reply}
use spot_order_grpc.Exec.Triple.{Post}
use spot_order_grpc.Domain.Error.{Error}
use spot_order_grpc.Domain.Status.{OrderStatus}
use spot_order_grpc.Order.Model.{Db, Order, OutboxEvent}
use spot_order_grpc.Order.Platform.{Data, Platform}
use spot_order_grpc.Order.Orders.{Request, add_order, add_outbox}
use spot_order_grpc.Order.Create.{create_order}
use spot_order_grpc.Order.Create.Safety.{IsOrderOf, Announces, create_order_lem}

-- The tables with one order for the request added, and one row that announces it.
abbrev pub WithOrder : Request → Db → Db → Type 0
WithOrder q old new =
    (o : Order) × (e : OutboxEvent) × IsOrderOf q o
    × Announces o e
    × (new ≡ add_outbox e (add_order o old))

-- Whatever calls fail, before or after their effect, and whatever other processes do between them: a
-- property `P` of the committed tables that the others keep, and that turns into a property `R`
-- (kept by them too) when an order for the request and its outbox row are added at once, has become
-- `P` or `R` when CreateOrder returns.
pub create_order_effect :
    {S : Type 0} (p : Platform S) (q : Request) (P R : Db → Type 0)
    → ((n : ℕ) (d : Data S) → P d.db → P (p.env.between n d).db)
    → ((n : ℕ) (d : Data S) → R d.db → R (p.env.between n d).db)
    → ((o : Order) (e : OutboxEvent) (db : Db)
        → IsOrderOf q o
        → Announces o e
        → P db
        → R (add_outbox e (add_order o db)))
    → (s : Sys (Data S)) → P s.state.db
    → P (create_order p q s).1.state.db ⊎ R (create_order p q s).1.state.db
create_order_effect {S} p q P R stable stable_after grow s h =
    settled (create_order p q s).0 (create_order p q s).1.state (
      (create_order_lem p q P R (λ db. P db ⊎ R db) stable stable_after
          (λ n d. elim [ inl x ↦ inl (stable n d x) | inr y ↦ inr (stable_after n d y) ]) grow
          (λ db x. inl x) (λ n e lost db y. inr y)).at
        s h)
  where
    settled :
        (r : Result (ℕ × OrderStatus)) (d : Data S)
        → Post (λ _ d. P d.db ⊎ R d.db) (λ _ d. P d.db ⊎ R d.db) r d
        → P d.db ⊎ R d.db
    settled (ok a) d k = k
    settled (err e) d k = k

module _ {S : Type 0} (p : Platform S) (q : Request)
    (quiet : (n : ℕ) (d : Data S) → (p.env.between n d).db ≡ d.db) (s : Sys (Data S)) where
  -- Where no other process writes to the tables meanwhile, CreateOrder, whatever fails, leaves them
  -- as they were, or adds exactly one order for the request and the one row that announces it.
  pub create_order_atomic :
      ((create_order p q s).1.state.db ≡ s.state.db)
      ⊎ WithOrder q s.state.db (create_order p q s).1.state.db
  create_order_atomic =
      create_order_effect p q (λ db. db ≡ s.state.db) (WithOrder q s.state.db)
        (λ n d h. quiet n d ∙ h) (λ n d h. rw (quiet n d) h)
        (λ o e db asked announces h.
          (o, e, asked, announces, ap (λ x. add_outbox e (add_order o x)) h))
        s refl

  -- Where no other process writes to the tables meanwhile and no answer is lost, a CreateOrder that
  -- fails has left the tables as they were.
  pub create_order_failure :
      ((n : ℕ) (e : Error) → p.env.fault n ≢ lost_reply e)
      → {e : Error} → (create_order p q s).0 ≡ err e
      → (create_order p q s).1.state.db ≡ s.state.db
  create_order_failure answered h = kept _ _ h (
      (create_order_lem p q (λ db. db ≡ s.state.db) (λ db. Unit) (λ db. db ≡ s.state.db)
          (λ n d h. quiet n d ∙ h) (λ n d h. tt) (λ n d h. quiet n d ∙ h)
          (λ o e db asked announces h. tt) (λ db h. h)
          (λ n e lost db h. absurd (answered n e lost))).at
        s refl)
    where
      kept :
          (r : Result (ℕ × OrderStatus)) (d : Data S) {e : Error}
          → r ≡ err e
          → Post (λ _ d. (d.db ≡ s.state.db) ⊎ Unit) (λ _ d. d.db ≡ s.state.db) r d
          → d.db ≡ s.state.db
      kept (ok a) d h k = cc
      kept (err e) d h k = k
