-- ===== src/Spot/Poller/Batch.antt =====
-- The batches of ListUpdatedSince (spotService/internal/infrastructure/postgres/spot/market_store.go):
-- the first rows beyond a cursor, by the time of their last update and their ID.
use spot_order_grpc.Prelude.{
  ℕ, zero, suc, ◌<◌, ◌≤◌, ◌≡◌, refl, sym, ap, ◌∙◌, ◌⊎◌, inl, inr, Bool, true, false, List, [], ◌∷◌,
  length, take, select, arith, if_case, Bool-cases, All, All-imp, All-Member, Member, count_yes,
  count_no,
}
use spot_order_grpc.Order.Model.{Market}
use spot_order_grpc.Spot.Poller.{
  is_before, is_updated_since, insert_updated, sort_updated, build_next_cursor,
}

-- Of two markets, the first does not come before the second.
abbrev NotBefore : Market → Market → Type 0
NotBefore m n = is_before m.updated_at m.id n.updated_at n.id ≡ false

before_asym : (s i t j : ℕ) → is_before s i t j ≡ true → is_before t j s i ≡ false
unfolding is_before
before_asym s i t j h = ground arith

before_trans :
    (s i t j u k : ℕ)
    → is_before s i t j ≡ true
    → is_before t j u k ≡ true
    → is_before s i u k ≡ true
unfolding is_before
before_trans s i t j u k h h' = ground arith

not_before_trans :
    (s i t j u k : ℕ)
    → is_before s i t j ≡ false
    → is_before t j u k ≡ false
    → is_before s i u k ≡ false
unfolding is_before
not_before_trans s i t j u k h h' = ground arith

not_before_self : (s i : ℕ) → is_before s i s i ≡ false
unfolding is_before
not_before_self s i = ground arith

same_id : (s i t j : ℕ) → is_before s i t j ≡ false → is_before t j s i ≡ false → i ≡ j
unfolding is_before
same_id s i t j h h' = ground arith

abbrev Sorted : List Market → Type 0
Sorted [] = Unit
Sorted (m ∷ ms) = All (λ n. NotBefore n m) ms × Sorted ms

All-insert :
    (P : Market → Type 0) (m : Market) (ns : List Market)
    → P m
    → All P ns
    → All P (insert_updated m ns)
unfolding insert_updated
All-insert P m [] p ps = (p, tt)
All-insert P m (n ∷ ns) p (q, qs) =
    if_case (All P) (is_before n.updated_at n.id m.updated_at m.id) (n ∷ insert_updated m ns)
      (m ∷ n ∷ ns) (λ _. (q, All-insert P m ns p qs)) (λ _. (p, (q, qs)))

insert-Sorted : (m : Market) (ns : List Market) → Sorted ns → Sorted (insert_updated m ns)
unfolding insert_updated
insert-Sorted m [] s = (tt, tt)
insert-Sorted m (n ∷ ns) (first, rest) =
    if_case Sorted (is_before n.updated_at n.id m.updated_at m.id) (n ∷ insert_updated m ns)
      (m ∷ n ∷ ns)
      (λ up. (
        All-insert (λ k. NotBefore k n) m ns (before_asym n.updated_at n.id m.updated_at m.id up)
            first,
        insert-Sorted m ns rest,
      ))
      (λ up. (
        (
          up,
          All-imp (λ k. NotBefore k n) (λ k. NotBefore k m)
              (λ k h. not_before_trans k.updated_at k.id n.updated_at n.id m.updated_at m.id h up)
              ns first,
        ),
        (first, rest),
      ))

sort-Sorted : (ms : List Market) → Sorted (sort_updated ms)
unfolding sort_updated
sort-Sorted [] = tt
sort-Sorted (m ∷ ms) = insert-Sorted m (sort_updated ms) (sort-Sorted ms)

All-sort : (P : Market → Type 0) (ms : List Market) → All P ms → All P (sort_updated ms)
unfolding sort_updated
All-sort P [] ps = tt
All-sort P (m ∷ ms) (p, ps) = All-insert P m (sort_updated ms) p (All-sort P ms ps)

insert-Member :
    (k m : Market) (ns : List Market) → (k ≡ m) ⊎ Member k ns → Member k (insert_updated m ns)
unfolding insert_updated
insert-Member k m [] h = h
insert-Member k m (n ∷ ns) h =
    if_case (Member k) (is_before n.updated_at n.id m.updated_at m.id) (n ∷ insert_updated m ns)
      (m ∷ n ∷ ns)
      (λ _. elim h [
        | inl e ↦ inr (insert-Member k m ns (inl e))
        | inr (inl e) ↦ inl e
        | inr (inr there) ↦ inr (insert-Member k m ns (inr there))
      ])
      (λ _. h)

sort-Member : (k : Market) (ms : List Market) → Member k ms → Member k (sort_updated ms)
unfolding sort_updated
sort-Member k (m ∷ ms) (inl e) = insert-Member k m (sort_updated ms) (inl e)
sort-Member k (m ∷ ms) (inr h) = insert-Member k m (sort_updated ms) (inr (sort-Member k ms h))
sort-Member k [] h = absurd h

module _ (f : Market → Bool) where
  select-Member :
      (k : Market) (ms : List Market) → f k ≡ true → Member k ms → Member k (select f ms)
  select-Member k [] h there = absurd there
  select-Member k (m ∷ ms) h (inl e) =
      if_case (Member k) (f m) (m ∷ select f ms) (select f ms) (λ _. inl e)
        (λ miss. let never : true ≡ false = sym h ∙ ap f e ∙ miss in cc)
  select-Member k (m ∷ ms) h (inr there) =
      if_case (Member k) (f m) (m ∷ select f ms) (select f ms)
        (λ _. inr (select-Member k ms h there)) (λ _. select-Member k ms h there)

  selected-All :
      (P : Market → Type 0) (ms : List Market)
      → All P ms
      → All (λ k. P k × (f k ≡ true)) (select f ms)
  selected-All P [] ps = tt
  selected-All P (m ∷ ms) (p, ps) =
      if_case (All (λ k. P k × (f k ≡ true))) (f m) (m ∷ select f ms) (select f ms)
        (λ hit. ((p, hit), selected-All P ms ps)) (λ _. selected-All P ms ps)

All-take : (P : Market → Type 0) (n : ℕ) (ms : List Market) → All P ms → All P (take n ms)
All-take P zero ms ps = tt
All-take P (suc n) [] ps = tt
All-take P (suc n) (m ∷ ms) (p, ps) = (p, All-take P n ms ps)

-- A row that a batch leaves out comes before none of the batch.
taken_or_later :
    (n : ℕ) (ms : List Market) (k : Market)
    → Sorted ms
    → Member k ms
    → Member k (take n ms) ⊎ All (λ m. NotBefore k m) (take n ms)
taken_or_later zero ms k s there = inr tt
taken_or_later (suc n) [] k s there = absurd there
taken_or_later (suc n) (m ∷ ms) k s (inl e) = inl (inl e)
taken_or_later (suc n) (m ∷ ms) k (first, rest) (inr there) =
    elim (taken_or_later n ms k rest there) [
      | inl h ↦ inl (inr h)
      | inr later ↦ inr (All-Member (λ j. NotBefore j m) k ms first there, later)
    ]

-- A batch that is not full has all the rows.
take_short : (n : ℕ) (ms : List Market) → length (take n ms) < n → take n ms ≡ ms
take_short zero ms h = absurd (omega (arith, h))
take_short (suc n) [] h = refl
take_short (suc n) (m ∷ ms) h = ap (λ ks. m ∷ ks) (take_short n ms (omega (arith, h)))

-- The cursor is at the last row of the batch.
pub last_row :
    (m : Market) (ms : List Market)
    → (k : Market) × Member k (m ∷ ms)
      × ((build_next_cursor m ms).last_seen_at ≡ k.updated_at)
      × ((build_next_cursor m ms).last_seen_id ≡ k.id)
unfolding build_next_cursor
last_row m [] = (m, inl refl, refl, refl)
last_row m (n ∷ ns) = let (k, there, at, id) = last_row n ns in (k, inr there, at, id)

-- The rows beyond a cursor, and a batch of them.
abbrev pub pending : ℕ → ℕ → List Market → List Market
pending t id ms = select (is_updated_since t id) ms

abbrev pub batch : ℕ → ℕ → ℕ → List Market → List Market
batch n t id ms = take n (sort_updated (pending t id ms))

-- What is true of the rows is true of a batch, and all of a batch lie beyond the cursor.
pub batch-All :
    (P : Market → Type 0) (n t id : ℕ) (ms : List Market)
    → All P ms
    → All (λ k. P k × (is_updated_since t id k ≡ true)) (batch n t id ms)
batch-All P n t id ms ps =
    All-take (λ k. P k × (is_updated_since t id k ≡ true)) n (sort_updated (pending t id ms))
      (All-sort (λ k. P k × (is_updated_since t id k ≡ true)) (pending t id ms)
        (selected-All (is_updated_since t id) P ms ps))

-- A row up to the last of a batch lies up to the cursor or is in the batch, if no two rows have the
-- same ID.
pub batch_or_before :
    (n t id : ℕ) (ms : List Market)
    → ((a b : Market) → Member a ms → Member b ms → a.id ≡ b.id → a ≡ b)
    → (k l : Market) → Member k ms
    → Member l ms
    → Member l (batch n t id ms)
    → is_updated_since l.updated_at l.id k ≡ false
    → (is_updated_since t id k ≡ false) ⊎ Member k (batch n t id ms)
unfolding is_updated_since
batch_or_before n t id ms unique k l in_k in_l in_batch up =
    elim (Bool-cases (is_updated_since t id k)) [
      | inr old ↦ inl old
      | inl new ↦
          elim (taken_or_later n (sort_updated (pending t id ms)) k (sort-Sorted (pending t id ms))
            (sort-Member k (pending t id ms)
              (select-Member (is_updated_since t id) k ms new in_k))) [
                | inl there ↦ inr there
                | inr later ↦
                    let e = unique k l in_k in_l (
                      same_id k.updated_at k.id l.updated_at l.id
                        (All-Member (λ m. NotBefore k m) l (batch n t id ms) later in_batch) up) in
                    inr (rw e in_batch)
              ]
    ]

-- A batch that is not full leaves out no row beyond the cursor.
pub short_batch :
    (n t id : ℕ) (ms : List Market)
    → length (batch n t id ms) < n
    → (k : Market) → Member k ms
    → is_updated_since t id k ≡ true
    → Member k (batch n t id ms)
short_batch n t id ms short k there new =
    rw (take_short n (sort_updated (pending t id ms)) short)
      (sort-Member k (pending t id ms) (select-Member (is_updated_since t id) k ms new there))

-- Fewer rows lie beyond the last row of a batch than beyond the cursor.
fewer :
    (p q : Market → Bool) (l : Market)
    → ((k : Market) → p k ≡ true → q k ≡ true)
    → p l ≡ false
    → q l ≡ true
    → (ms : List Market)
    → (length (select p ms) ≤ length (select q ms))
      × (Member l ms → length (select p ms) < length (select q ms))
fewer p q l sub out hit [] = (omega arith, λ there. absurd there)
fewer p q l sub out hit (m ∷ ms) =
    let rest = fewer p q l sub out hit ms in
    elim (Bool-cases (q m)) [
      | inr idle ↦
          let idle_too : p m ≡ false = elim (Bool-cases (p m)) [
            | inl on ↦ let never : false ≡ true = sym idle ∙ sub m on in cc
            | inr off ↦ off
          ] in
          let np = count_no p m ms idle_too in
          let nq = count_no q m ms idle in
          (
            omega (arith, np, nq, rest.0),
            elim [
              | inl e ↦ let never : true ≡ false = sym hit ∙ ap q e ∙ idle in cc
              | inr there ↦ let less = rest.1 there in omega (arith, np, nq, less)
            ],
          )
      | inl on ↦ elim (Bool-cases (p m)) [
        | inl both ↦
            let np = count_yes p m ms both in
            let nq = count_yes q m ms on in
            (
              omega (arith, np, nq, rest.0),
              elim [
                | inl e ↦ let never : false ≡ true = sym out ∙ ap p e ∙ both in cc
                | inr there ↦ let less = rest.1 there in omega (arith, np, nq, less)
              ],
            )
        | inr off ↦
            let np = count_no p m ms off in
            let nq = count_yes q m ms on in
            (omega (arith, np, nq, rest.0), λ _. omega (arith, np, nq, rest.0))
      ]
    ]

pub pending_fewer :
    (t id : ℕ) (l : Market) (ms : List Market)
    → Member l ms
    → is_updated_since t id l ≡ true
    → length (pending l.updated_at l.id ms) < length (pending t id ms)
unfolding is_updated_since
pending_fewer t id l ms there new =
    (fewer (is_updated_since l.updated_at l.id) (is_updated_since t id) l
        (λ k up. before_trans t id l.updated_at l.id k.updated_at k.id new up)
        (not_before_self l.updated_at l.id) new ms).1
      there
