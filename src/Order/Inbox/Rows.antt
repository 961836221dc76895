-- ===== src/Order/Inbox/Rows.antt =====
-- The statements of orderService/internal/infrastructure/postgres/inbox/inbox_store.go, on the rows of
-- the table.
use spot_order_grpc.Prelude.{
  ℕ, String, ◌≡◌, refl, ap, ◌∙◌, sym, inl, inr, Bool, true, false, not, ◌&&◌, ◌||◌, Option, some,
  List, [], ◌∷◌, map, length, select, All, All-map, if_case, Bool-cases, ==_iff, eq_iff, ◌≤◌, arith,
  ◌≢◌, ◌⊎◌, All-imp, count_yes, count_no,
}
use spot_order_grpc.Order.Model.{InboxEvent, InboxEventStatus, processing, processed, failed}
use spot_order_grpc.Order.Inbox.{
  is_failed, is_processing, is_for, status_of, upsert, restart_row, fail_row, is_in_progress,
  mark_row,
}

-- The rows of other events and groups.
abbrev pub other_rows : ℕ → String → List InboxEvent → List InboxEvent
other_rows event_id group rs = select (λ r. not (is_for event_id group r)) rs

module _ (id : ℕ) (group : String) where
  abbrev mine : InboxEvent → Bool
  mine r = is_for id group r

  other_mine :
      (r : InboxEvent) (rs : List InboxEvent)
      → mine r ≡ true
      → other_rows id group (r ∷ rs) ≡ other_rows id group rs
  other_mine r rs h = rw h refl

  other_cong :
      (r : InboxEvent) (rs rs' : List InboxEvent)
      → other_rows id group rs ≡ other_rows id group rs'
      → other_rows id group (r ∷ rs) ≡ other_rows id group (r ∷ rs')
  other_cong r rs rs' e = rw e refl

  status_mine :
      (r : InboxEvent) (rs : List InboxEvent)
      → mine r ≡ true
      → status_of id group (r ∷ rs) ≡ some r.status
  unfolding status_of
  status_mine r rs h = rw (h, status_of) refl

  status_other :
      (r : InboxEvent) (rs : List InboxEvent)
      → mine r ≡ false
      → status_of id group (r ∷ rs) ≡ status_of id group rs
  unfolding status_of
  status_other r rs h = rw (h, status_of) refl

-- An INSERT with ON CONFLICT, whose update leaves the key of a row.
module _ (update : InboxEvent → InboxEvent) (row : InboxEvent)
    (own : is_for row.event_id row.consumer_group row ≡ true)
    (same_key : (r : InboxEvent)
      → is_for row.event_id row.consumer_group (update r)
        ≡ is_for row.event_id row.consumer_group r) where
  pub other_rows-upsert :
      (rs : List InboxEvent)
      → other_rows row.event_id row.consumer_group (upsert update row rs)
        ≡ other_rows row.event_id row.consumer_group rs
  unfolding upsert
  other_rows-upsert [] = other_mine _ _ row [] own
  other_rows-upsert (r ∷ rs) =
      if_case
        (λ xs.
          other_rows row.event_id row.consumer_group xs
          ≡ other_rows row.event_id row.consumer_group (r ∷ rs))
        (is_for row.event_id row.consumer_group r) (update r ∷ rs) (r ∷ upsert update row rs)
        (λ hit. other_mine _ _ (update r) rs (same_key r ∙ hit) ∙ sym (other_mine _ _ r rs hit))
        (λ _. other_cong _ _ r _ _ (other_rows-upsert rs))

  pub status_of-upsert :
      (t : InboxEventStatus) (allowed : Option InboxEventStatus → Bool)
      → row.status ≡ t
      → ((r : InboxEvent) → allowed (some r.status) ≡ true → (update r).status ≡ t)
      → (rs : List InboxEvent) → allowed (status_of row.event_id row.consumer_group rs) ≡ true
      → status_of row.event_id row.consumer_group (upsert update row rs) ≡ some t
  unfolding upsert
  status_of-upsert t allowed new old [] h = status_mine _ _ row [] own ∙ ap some new
  status_of-upsert t allowed new old (r ∷ rs) h =
      if_case (λ xs. status_of row.event_id row.consumer_group xs ≡ some t)
        (is_for row.event_id row.consumer_group r) (update r ∷ rs) (r ∷ upsert update row rs)
        (λ hit.
          status_mine _ _ (update r) rs (same_key r ∙ hit)
          ∙ ap some (old r (ap allowed (sym (status_mine _ _ r rs hit)) ∙ h)))
        (λ miss.
          status_other _ _ r _ miss
          ∙ status_of-upsert t allowed new old rs
              (ap allowed (sym (status_other _ _ r rs miss)) ∙ h))

  pub counts_once :
      (rs : List InboxEvent)
      → length (select (is_for row.event_id row.consumer_group) rs) ≤ 1
      → length (select (is_for row.event_id row.consumer_group) (upsert update row rs)) ≤ 1
  unfolding upsert
  counts_once [] h = rw own (omega arith)
  counts_once (r ∷ rs) h =
      if_case (λ xs. length (select (is_for row.event_id row.consumer_group) xs) ≤ 1)
        (is_for row.event_id row.consumer_group r) (update r ∷ rs) (r ∷ upsert update row rs)
        (λ hit. omega (
          arith,
          count_yes mine_too (update r) rs (same_key r ∙ hit),
          count_yes mine_too r rs hit,
          h,
        ))
        (λ miss.
          let rest = counts_once rs (omega (arith, count_no mine_too r rs miss, h)) in
          omega (arith, count_no mine_too r (upsert update row rs) miss, rest))
    where
      mine_too : InboxEvent → Bool
      mine_too x = is_for row.event_id row.consumer_group x

pub own_key : (row : InboxEvent) → is_for row.event_id row.consumer_group row ≡ true
unfolding is_for
own_key row =
    rw
      (
        (==_iff row.event_id row.event_id).1 refl,
        (eq_iff row.consumer_group row.consumer_group).1 refl,
      )
      refl

module _ (id : ℕ) (group : String) where
  pub restart_row-is_for :
      (x r : InboxEvent) → is_for id group (restart_row x r) ≡ is_for id group r
  unfolding restart_row is_for
  restart_row-is_for x r =
      if_case (λ y. is_for id group y ≡ is_for id group r) (is_failed r.status) _ r (λ _. refl)
        (λ _. refl)

  pub fail_row-is_for : (x r : InboxEvent) → is_for id group (fail_row x r) ≡ is_for id group r
  unfolding fail_row is_for
  fail_row-is_for x r =
      if_case (λ y. is_for id group y ≡ is_for id group r)
        (is_failed r.status || is_processing r.status) _ r (λ _. refl) (λ _. refl)

  pub mark_row-is_for :
      (now : ℕ) (r : InboxEvent) → is_for id group (mark_row id group now r) ≡ is_for id group r
  unfolding mark_row is_for
  mark_row-is_for now r =
      if_case (λ y. is_for id group y ≡ is_for id group r) (is_in_progress id group r) _ r
        (λ _. refl) (λ _. refl)

  mark_other : (now : ℕ) (r : InboxEvent) → is_for id group r ≡ false → mark_row id group now r ≡ r
  unfolding mark_row is_in_progress
  mark_other now r h = rw h refl

  pub other_rows-mark :
      (now : ℕ) (rs : List InboxEvent)
      → other_rows id group (map (mark_row id group now) rs) ≡ other_rows id group rs
  other_rows-mark now [] = refl
  other_rows-mark now (r ∷ rs) = elim (Bool-cases (is_for id group r)) [
    | inl hit ↦
        other_mine id group (mark_row id group now r) _ (mark_row-is_for now r ∙ hit)
        ∙ other_rows-mark now rs
        ∙ sym (other_mine id group r rs hit)
    | inr miss ↦
        ap (λ x. other_rows id group (x ∷ map (mark_row id group now) rs)) (mark_other now r miss)
        ∙ other_cong id group r _ _ (other_rows-mark now rs)
  ]

  mark_mine :
      (now : ℕ) (r : InboxEvent)
      → is_for id group r ≡ true
      → r.status ≡ processing
      → (mark_row id group now r).status ≡ processed
  unfolding mark_row is_in_progress
  mark_mine now r h q = rw (h, q) refl

  pub status_of-mark :
      (now : ℕ) (rs : List InboxEvent)
      → status_of id group rs ≡ some processing
      → status_of id group (map (mark_row id group now) rs) ≡ some processed
  unfolding status_of
  status_of-mark now [] h = cc
  status_of-mark now (r ∷ rs) h = elim (Bool-cases (is_for id group r)) [
    | inl hit ↦
        status_mine id group (mark_row id group now r) _ (mark_row-is_for now r ∙ hit)
        ∙ ap some (mark_mine now r hit (let e = status_mine id group r rs hit in cc))
    | inr miss ↦
        status_other id group (mark_row id group now r) _ (mark_row-is_for now r ∙ miss)
        ∙ status_of-mark now rs (sym (status_other id group r rs miss) ∙ h)
  ]

  marks_fewer :
      (rs : List InboxEvent)
      → length (select (is_in_progress id group) rs) ≤ length (select (is_for id group) rs)
  unfolding is_in_progress
  marks_fewer [] = omega arith
  marks_fewer (r ∷ rs) = elim (Bool-cases (is_for id group r)) [
    | inl hit ↦ rw hit (elim (Bool-cases (is_processing r.status)) [
      | inl now ↦ rw now (omega (arith, marks_fewer rs))
      | inr done ↦ rw done (omega (arith, marks_fewer rs))
    ])
    | inr miss ↦ rw miss (marks_fewer rs)
  ]

  pub marks_one :
      (rs : List InboxEvent)
      → status_of id group rs ≡ some processing
      → length (select (is_for id group) rs) ≤ 1
      → length (select (is_in_progress id group) rs) ≡ 1
  unfolding is_in_progress status_of
  marks_one [] h u = cc
  marks_one (r ∷ rs) h u = elim (Bool-cases (is_for id group r)) [
    | inl hit ↦
        let now : r.status ≡ processing = (let e = status_mine id group r rs hit in cc) in
        omega (
          arith,
          count_yes (is_in_progress id group) r rs (rw (hit, now) refl),
          count_yes (is_for id group) r rs hit,
          marks_fewer rs,
          u,
        )
    | inr miss ↦
        let rest =
          marks_one rs (sym (status_other id group r rs miss) ∙ h)
            (omega (arith, count_no (is_for id group) r rs miss, u)) in
        omega (arith, count_no (is_in_progress id group) r rs (rw miss refl), rest)
  ]

-- No row is left in the middle of its processing.
abbrev pub IsSettled : List InboxEvent → Type 0
IsSettled rs = All (λ r. is_processing r.status ≡ false) rs

pub IsSettled-status :
    (id : ℕ) (group : String) (rs : List InboxEvent)
    → IsSettled rs
    → status_of id group rs ≢ some processing
unfolding status_of
IsSettled-status id group [] h e = cc
IsSettled-status id group (r ∷ rs) (h, hs) e = elim (Bool-cases (is_for id group r)) [
  | inl hit ↦
      let now : r.status ≡ processing = (let q = status_mine id group r rs hit in cc) in
      let no : true ≡ false = sym (ap is_processing now) ∙ h in cc
  | inr miss ↦ IsSettled-status id group rs hs (sym (status_other id group r rs miss) ∙ e)
]

pub All-upsert :
    (P : InboxEvent → Type 0) (update : InboxEvent → InboxEvent) (row : InboxEvent)
    → P row
    → ((r : InboxEvent) → is_for row.event_id row.consumer_group r ≡ true → P r → P (update r))
    → (rs : List InboxEvent) → All P rs
    → All P (upsert update row rs)
unfolding upsert
All-upsert P update row new old [] h = (new, tt)
All-upsert P update row new old (r ∷ rs) (h, hs) =
    if_case (All P) (is_for row.event_id row.consumer_group r) (update r ∷ rs)
      (r ∷ upsert update row rs) (λ hit. (old r hit h, hs))
      (λ _. (h, All-upsert P update row new old rs hs))

-- The rows of the key may be in the middle of their processing.
abbrev IsSettledBut : ℕ → String → InboxEvent → Type 0
IsSettledBut id group r = (is_for id group r ≡ true) ⊎ (is_processing r.status ≡ false)

pub IsSettled-start :
    (row : InboxEvent) (now : ℕ) (rs : List InboxEvent)
    → IsSettled rs
    → IsSettled
        (map (mark_row row.event_id row.consumer_group now) (upsert (restart_row row) row rs))
unfolding mark_row is_in_progress
IsSettled-start row now rs h =
    All-map (IsSettledBut row.event_id row.consumer_group) (λ r. is_processing r.status ≡ false)
      (mark_row row.event_id row.consumer_group now) marked (upsert (restart_row row) row rs)
      (All-upsert (IsSettledBut row.event_id row.consumer_group) (restart_row row) row
        (inl (own_key row))
        (λ r hit _. inl (restart_row-is_for row.event_id row.consumer_group row r ∙ hit)) rs
        (All-imp (λ r. is_processing r.status ≡ false)
          (IsSettledBut row.event_id row.consumer_group) (λ r q. inr q) rs h))
  where
    marked :
        (r : InboxEvent)
        → IsSettledBut row.event_id row.consumer_group r
        → is_processing (mark_row row.event_id row.consumer_group now r).status ≡ false
    marked r h = elim (Bool-cases (is_in_progress row.event_id row.consumer_group r)) [
      | inl hit ↦ rw (hit, mark_row) refl
      | inr miss ↦
          rw (miss, mark_row)
            (elim h [
              | inl own ↦ sym (ap (λ b. b && is_processing r.status) own) ∙ miss
              | inr idle ↦ idle
            ])
    ]

pub IsSettled-fail :
    (row : InboxEvent)
    → row.status ≡ failed
    → (rs : List InboxEvent) → IsSettled rs
    → IsSettled (upsert (fail_row row) row rs)
unfolding fail_row
IsSettled-fail row e rs h =
    All-upsert (λ r. is_processing r.status ≡ false) (fail_row row) row (rw e refl)
      (λ r _ q.
        if_case (λ x. is_processing x.status ≡ false) (is_failed r.status || is_processing r.status)
          _ r (λ _. refl) (λ _. q))
      rs h
