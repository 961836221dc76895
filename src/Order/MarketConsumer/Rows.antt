-- ===== src/Order/MarketConsumer/Rows.antt =====
-- What becomes of the processed rows of the inbox in a delivery of a market's change
-- (orderService/internal/services/order/compensation_service.go).
use spot_order_grpc.Prelude.{
  ℕ, String, ◌≡◌, ◌≢◌, refl, sym, ap, ◌∙◌, inl, inr, true, false, some, List, [], ◌∷◌, Bool-cases,
  ==_iff, ◌==◌, ◌&&◌, str_eq,
}
use spot_order_grpc.Exec.{Result, ok, err, Sys}
use spot_order_grpc.Domain.Error.{Error}
use spot_order_grpc.Order.Model.{MarketStateChangedEvent, InboxEvent, processed, Db}
use spot_order_grpc.Order.Platform.{Data, Platform}
use spot_order_grpc.Order.Inbox.{is_for, status_of, may_fail}
use spot_order_grpc.Order.Inbox.Rows.{other_rows}
use spot_order_grpc.Order.Compensation.Outcome.{Recorded}
use spot_order_grpc.Order.Compensation.Delivered.{IsDone, Applied-IsDone, Recorded-IsNoted}
use spot_order_grpc.Order.Compensation.Once.{End, process, ends}

is_for-other :
    (i id : ℕ) (group : String) (r : InboxEvent)
    → i ≢ id
    → is_for id group r ≡ true
    → is_for i group r ≡ false
unfolding is_for
is_for-other i id group r ne mine = elim (Bool-cases (r.event_id == i)) [
  | inr miss ↦ rw miss refl
  | inl hit ↦ elim (Bool-cases (r.event_id == id)) [
    | inl own ↦ absurd (ne (sym ((==_iff r.event_id i).0 hit) ∙ (==_iff r.event_id id).0 own))
    | inr other ↦
        let never : false ≡ true =
          sym (ap (λ b. b && str_eq r.consumer_group group) other) ∙ mine in
        absurd cc
  ]
]

-- The status of another event's row is found among the other rows.
status_of-other_rows :
    (i id : ℕ) (group : String)
    → i ≢ id
    → (rs : List InboxEvent) → status_of i group (other_rows id group rs) ≡ status_of i group rs
unfolding status_of
status_of-other_rows i id group ne [] = refl
status_of-other_rows i id group ne (r ∷ rs) = elim (Bool-cases (is_for id group r)) [
  | inl mine ↦
      rw (mine, status_of, is_for-other i id group r ne mine)
        (status_of-other_rows i id group ne rs)
  | inr other ↦ elim (Bool-cases (is_for i group r)) [
    | inl hit ↦ rw (other, status_of, hit) refl
    | inr miss ↦ rw (other, status_of, miss) (status_of-other_rows i id group ne rs)
  ]
]

apart : (i j : ℕ) → (i == j) ≡ false → i ≢ j
apart i j f e = let never : true ≡ false = sym ((==_iff i j).1 e) ∙ f in absurd cc

module _ (group : String) (event : MarketStateChangedEvent) (old : Db) (i : ℕ) where
  same_others :
      (new : Db)
      → i ≢ event.event_id
      → other_rows event.event_id group new.inbox ≡ other_rows event.event_id group old.inbox
      → status_of i group new.inbox ≡ status_of i group old.inbox
  same_others new ne e =
      sym (status_of-other_rows i event.event_id group ne new.inbox)
      ∙ ap (status_of i group) e
      ∙ status_of-other_rows i event.event_id group ne old.inbox

  -- A row that is processed stays so when the event of any row is done, or its failure is recorded.
  done_stays :
      (new : Db)
      → IsDone group event old new
      → status_of i group old.inbox ≡ some processed
      → status_of i group new.inbox ≡ some processed
  done_stays new done h = elim (Bool-cases (i == event.event_id)) [
    | inl same ↦ rw ((==_iff i event.event_id).0 same) done.marked
    | inr other ↦ same_others new (apart i event.event_id other) done.others ∙ h
  ]

  noted_stays :
      (new : Db)
      → Recorded group event old new
      → status_of i group old.inbox ≡ some processed
      → status_of i group new.inbox ≡ some processed
  unfolding may_fail
  noted_stays new (row, is_row, may, e) h = elim (Bool-cases (i == event.event_id)) [
    | inl same ↦
        let own : status_of event.event_id group old.inbox ≡ some processed =
          ap (λ j. status_of j group old.inbox) (sym ((==_iff i event.event_id).0 same)) ∙ h in
        let never : false ≡ true = sym (ap may_fail own) ∙ may in absurd cc
    | inr other ↦
        same_others new (apart i event.event_id other)
          (Recorded-IsNoted group event old new (row, is_row, may, e)).others
        ∙ h
  ]

module _ {S : Type 0} (p : Platform S) (error_text : Error → String) (topic group raw : String)
    (event : MarketStateChangedEvent)
    (quiet : (n : ℕ) (d : Data S) → (p.env.between n d).db ≡ d.db) where
  pub processed_stays :
      (i : ℕ) (s : Sys (Data S))
      → status_of i group s.state.db.inbox ≡ some processed
      → status_of i group (process p error_text topic group raw event quiet s).1.state.db.inbox
        ≡ some processed
  processed_stays i s h = go _ _ (ends p error_text topic group raw event quiet s)
    where
      go :
          (r : Result Unit) (new : Db)
          → End p error_text topic group raw event quiet r s.state.db new
          → status_of i group new.inbox ≡ some processed
      go (ok _) new (inl e) = rw e.0 h
      go (ok _) new (inr e) =
          done_stays group event s.state.db i new (Applied-IsDone group event s.state.db new e) h
      go (err _) new (inl e) = rw e h
      go (err _) new (inr (inl e)) = noted_stays group event s.state.db i new e h
      go (err _) new (inr (inr e)) =
          done_stays group event s.state.db i new (Applied-IsDone group event s.state.db new e) h
