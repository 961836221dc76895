-- ===== src/Order/Orders/Cancel.antt =====
-- CancelActiveOrdersByMarket of orderService/internal/infrastructure/postgres/order/order_store.go, on
-- the orders of the table.
use spot_order_grpc.Prelude.{
  ℕ, ◌≡◌, ◌↔◌, ◌⊎◌, refl, sym, ap, ◌∙◌, inl, inr, Bool, true, false, ◌&&◌, List, [], ◌∷◌, map, ◌==◌,
  if◌then◌else◌, Bool-cases, ==_iff,
}
use spot_order_grpc.Domain.Status.{OrderStatus, unspecified, created, pending, filled, cancelled}
use spot_order_grpc.Order.Model.{Order, Db}
use spot_order_grpc.Order.Orders.{is_active, cancel_order, cancel_active, cancelled_ids}

-- Whether the UPDATE selects the order.
abbrev selected : ℕ → Order → Bool
selected market_id o = o.market_id == market_id && is_active o

and_false : (b : Bool) → (b && false) ≡ false
and_false true = refl
and_false false = refl

after_cancel : (market_id : ℕ) (o : Order) → selected market_id (cancel_order market_id o) ≡ false
unfolding cancel_order is_active
after_cancel market_id o = elim (Bool-cases (selected market_id o)) [
  | inl hit ↦ rw (hit, cancel_order) (and_false (o.market_id == market_id))
  | inr miss ↦ rw (miss, cancel_order) miss
]

cancel_again :
    (market_id : ℕ) (o : Order)
    → cancel_order market_id (cancel_order market_id o) ≡ cancel_order market_id o
unfolding cancel_order
cancel_again market_id o =
    ap
      (λ b.
        if b
        then record (cancel_order market_id o) { status = cancelled }
        else cancel_order market_id o)
      (after_cancel market_id o)

none_left :
    (market_id : ℕ) (os : List Order)
    → cancelled_ids market_id (map (cancel_order market_id) os) ≡ []
unfolding cancelled_ids
none_left market_id [] = refl
none_left market_id (o ∷ os) =
    ap
      (λ b.
        if b
        then (cancel_order market_id o).id
          ∷ cancelled_ids market_id (map (cancel_order market_id) os)
        else cancelled_ids market_id (map (cancel_order market_id) os))
      (after_cancel market_id o)
    ∙ none_left market_id os

all_again :
    (market_id : ℕ) (os : List Order)
    → map (cancel_order market_id) (map (cancel_order market_id) os)
      ≡ map (cancel_order market_id) os
all_again market_id [] = refl
all_again market_id (o ∷ os) =
    ap (λ x. x ∷ map (cancel_order market_id) (map (cancel_order market_id) os))
      (cancel_again market_id o)
    ∙ ap (λ xs. cancel_order market_id o ∷ xs) (all_again market_id os)

abbrev IsActive : Order → Type 0
IsActive o = (o.status ≡ created) ⊎ (o.status ≡ pending)

-- What becomes of a table of orders, and the IDs that are returned, said without the UPDATE: an order of
-- the market that is created or pending is cancelled and returned, any other stays as it is.
pub data Cancels (market_id : ℕ) : List Order → List Order → List ℕ → Type 0 where
  end_of_table : Cancels market_id [] [] []
  cancels :
      {o : Order} {os os' : List Order} {ids : List ℕ}
      → o.market_id ≡ market_id
      → IsActive o
      → Cancels market_id os os' ids
      → Cancels market_id (o ∷ os) (record o { status = cancelled } ∷ os') (o.id ∷ ids)
  keeps :
      {o : Order} {os os' : List Order} {ids : List ℕ}
      → (o.market_id ≡ market_id → ¬ IsActive o)
      → Cancels market_id os os' ids
      → Cancels market_id (o ∷ os) (o ∷ os') ids

IsActive-iff : (o : Order) → (is_active o ≡ true) ↔ IsActive o
unfolding is_active
IsActive-iff o = go o.status
  where
    go :
        (t : OrderStatus)
        → ((elim t [ created ↦ true | pending ↦ true | _ ↦ false ]) ≡ true)
          ↔ ((t ≡ created) ⊎ (t ≡ pending))
    go created = (λ _. inl refl, λ _. refl)
    go pending = (λ _. inr refl, λ _. refl)
    go unspecified = (λ h. absurd cc, λ h. elim h [ inl q ↦ absurd cc | inr q ↦ absurd cc ])
    go filled = (λ h. absurd cc, λ h. elim h [ inl q ↦ absurd cc | inr q ↦ absurd cc ])
    go cancelled = (λ h. absurd cc, λ h. elim h [ inl q ↦ absurd cc | inr q ↦ absurd cc ])

both_true : (a b : Bool) → (a && b) ≡ true → (a ≡ true) × (b ≡ true)
both_true true true h = (refl, refl)
both_true true false h = absurd cc
both_true false b h = absurd cc

cancel-Cancels :
    (market_id : ℕ) (os : List Order)
    → Cancels market_id os (map (cancel_order market_id) os) (cancelled_ids market_id os)
unfolding cancel_order cancelled_ids
cancel-Cancels market_id [] = end_of_table
cancel-Cancels market_id (o ∷ os) = elim (Bool-cases (selected market_id o)) [
  | inl hit ↦
      let (same, active) = both_true (o.market_id == market_id) (is_active o) hit in
      rw (hit, cancel_order, cancelled_ids)
        (cancels ((==_iff o.market_id market_id).0 same) ((IsActive-iff o).0 active)
          (cancel-Cancels market_id os))
  | inr miss ↦
      rw (miss, cancel_order, cancelled_ids)
        (keeps
          (λ same active.
            let hit : selected market_id o ≡ true =
              both ((==_iff o.market_id market_id).1 same) ((IsActive-iff o).1 active) in
            let never : false ≡ true = sym miss ∙ hit in absurd cc)
          (cancel-Cancels market_id os))
]
  where
    both : {a b : Bool} → a ≡ true → b ≡ true → (a && b) ≡ true
    both h k = rw (h, k) refl

-- The UPDATE of CancelActiveOrdersByMarket cancels exactly the orders of the market that are created or
-- pending, returns exactly their IDs, in the table's order, and leaves all other orders and the other
-- tables as they are; and the same UPDATE of the tables that it leaves returns no ID and changes nothing.
pub cancel_active_lem :
    (market_id : ℕ) (db : Db)
    → Cancels market_id db.orders
        (cancel_active market_id db).orders
        (cancelled_ids market_id db.orders)
      × ((cancel_active market_id db).outbox ≡ db.outbox)
      × ((cancel_active market_id db).inbox ≡ db.inbox)
      × (cancelled_ids market_id (cancel_active market_id db).orders ≡ [])
      × (cancel_active market_id (cancel_active market_id db) ≡ cancel_active market_id db)
unfolding cancel_active
cancel_active_lem market_id db = (
  cancel-Cancels market_id db.orders,
  refl,
  refl,
  none_left market_id db.orders,
  ap (λ os. record db { orders = os }) (all_again market_id db.orders),
)
